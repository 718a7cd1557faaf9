-- ===== src/Worker/System/Order.antt =====
-- The threads of include/PacketProcessor.hpp together: in which order each one meets its packets, and
-- when they can be joined.
use traffic_inspector.Base.{
  ℕ, zero, suc, ◌≤◌, ◌<◌, ◌≡◌, refl, Bool, true, false, ◌++◌, some, ok, All, ap, ◌∙◌, arith,
}
use traffic_inspector.Worker.{Settings, new_worker, process_packets}
use traffic_inspector.Worker.Accounting.{HasKey}
use traffic_inspector.Worker.Ledger.{ledger_of, settle}
use traffic_inspector.Worker.Ledger.Refines.{process_packets-settle}
use traffic_inspector.Worker.System.{
  Place, at_test, at_get, ended, System, new_system, SystemRun, all_ended, destruct,
}
use traffic_inspector.Worker.System.Thread.{packets, IsBounded}
use traffic_inspector.Worker.System.Invariant.{HasShutdown, reachable-IsOrderly}

module _ (c : Settings) (instances_count : ℕ) where
  IsBounded-le : (m : Bool) (p : Place) (n : ℕ) → IsBounded m p n → n ≤ 1
  IsBounded-le true p n h = omega arith
  IsBounded-le false p n h = omega arith

  -- However the threads and those who put packets into their queues interleave, from the
  -- constructor on: of each thread, the packets of its turns, followed by its queue, are what was
  -- put into that queue, in this order; the thread's variables are those with which the sequential
  -- code leaves these turns; and at most one of them began to be processed with the stop flag set.
  pub SystemRun-order :
      {s : System} (i : ℕ)
      → SystemRun c instances_count new_system s
      → (packets (s.turns i) ++ s.queue i ≡ s.put i)
        × ((returned : Bool) × (process_packets c (s.turns i) new_worker
              ≡ ok (returned, s.worker i)))
        × (s.late i ≤ 1)
  SystemRun-order {s} i r =
      let h = (reachable-IsOrderly c instances_count r).thread i in
      let (b, e, f) = h.run in
      (h.order, (b, e), IsBounded-le s.m_stop (s.place i) (s.late i) h.bound)

  -- In every such interleaving, a thread whose packets' identifiers could be read has the open sessions,
  -- the reports and the stop flag that the ledger makes of its turns.
  pub SystemRun-settle :
      {s : System} (i : ℕ)
      → SystemRun c instances_count new_system s
      → All (HasKey c) (s.turns i)
      → ledger_of (s.worker i) ≡ settle c (s.turns i) (ledger_of new_worker)
  SystemRun-settle {s} i r keys =
      let h = (reachable-IsOrderly c instances_count r).thread i in
      let (b, e, f) = h.run in
      let (w', e', q) =
        process_packets-settle c (s.turns i) new_worker
          (record { keys = tt; interval = refl; counter = omega arith }) keys in
      let same : s.worker i ≡ w' = ground arith in ap ledger_of same ∙ q

  -- Of the threads that have returned, take the last.
  all_ended-last :
      (n : ℕ) (place : ℕ → Place) → 0 < n → all_ended n place ≡ true → (i : ℕ) × (place i ≡ ended)
  unfolding all_ended
  all_ended-last zero place pos e = absurd (omega arith)
  all_ended-last (suc n) place pos e = (n, go (place n) refl)
    where
      go : (p : Place) → place n ≡ p → place n ≡ ended
      go at_test q = absurd (ground arith)
      go at_get q = absurd (ground arith)
      go ended q = q

  destruct-all_ended : (n : ℕ) (s s' : System) → destruct n s ≡ some s' → all_ended n s.place ≡ true
  unfolding destruct
  destruct-all_ended n s s' e = go (all_ended n s.place) refl
    where
      go : (b : Bool) → all_ended n s.place ≡ b → all_ended n s.place ≡ true
      go true p = p
      go false p = absurd (ground arith)

  -- If every thread of one or more has returned, so that the destructor passes its joins, then the
  -- stop flag is set and the shutdown message was put into the queue of one of them.
  pub destruct-shutdown :
      {s s' : System}
      → 0 < instances_count
      → SystemRun c instances_count new_system s
      → destruct instances_count s ≡ some s'
      → (s.m_stop ≡ true) × ((i : ℕ) × (i < instances_count) × HasShutdown (s.put i))
  destruct-shutdown {s} {s'} pos r e =
      let o = reachable-IsOrderly c instances_count r in
      let (i, returned) =
        all_ended-last instances_count s.place pos (destruct-all_ended instances_count s s' e) in
      let flag : s.m_stop ≡ true = rw returned at ((o.thread i).stopped) in
      (flag, rw flag at o.cause)
