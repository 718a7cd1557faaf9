-- ===== src/Worker/System/Invariant.antt =====
-- What every step of the threads of include/PacketProcessor.hpp keeps.
use traffic_inspector.Base.{
  ℕ, ◌+◌, ◌<◌, ◌≡◌, refl, sym, ap, subst, ◌∙◌, ◌==◌, Bool, true, false, List, [], ◌∷◌, ◌++◌,
  append_assoc, if◌then◌else◌, ok, ◌>>=◌, >>=-eq-ok, arith,
}
use traffic_inspector.Packets.Types.{
  ControlMessageId, processing, sync_timeout, shutdown, max_control_message_id,
}
use traffic_inspector.Packets.Radius.{RadiusPacket}
use traffic_inspector.Worker.{
  Settings, Worker, Turn, continue, finish, process_packet, process_packets, on_packet,
}
use traffic_inspector.Worker.Exchange.{turn_of}
use traffic_inspector.Worker.System.{
  Place, at_test, at_get, ended, System, update, new_system, after_turn, SystemStep, puts, enters,
  leaves, goes_on, finishes, SystemRun, here, next,
}
use traffic_inspector.Worker.System.Thread.{
  packets, IsThread, puts-IsThread, enters-IsThread, leaves-IsThread, goes_on-IsThread,
  finishes-IsThread, stop-IsThread,
}

-- One of the packets is the shutdown message.
abbrev pub HasShutdown : List RadiusPacket → Type 0
HasShutdown ps =
    (before : List RadiusPacket) × (p : RadiusPacket) × (behind : List RadiusPacket) × (ps
      ≡ before ++ (p ∷ behind))
    × (p.ctrl_message_id ≡ shutdown)

-- What the flag says of the queues of the first `n` threads.
abbrev pub HasCause : ℕ → Bool → (ℕ → List RadiusPacket) → Type 0
HasCause n true put = (i : ℕ) × (i < n) × HasShutdown (put i)
HasCause n false put = Unit {0}

HasShutdown-append :
    (ps : List RadiusPacket) (x : RadiusPacket) → HasShutdown ps → HasShutdown (ps ++ (x ∷ []))
HasShutdown-append ps x (before, p, behind, e, f) = (
  before,
  p,
  behind ++ (x ∷ []),
  ap (λ y. y ++ (x ∷ [])) e ∙ append_assoc before (p ∷ behind) (x ∷ []),
  f,
)

HasCause-puts :
    (n : ℕ) (m : Bool) (put : ℕ → List RadiusPacket) (i : ℕ) (x : RadiusPacket)
    → HasCause n m put
    → HasCause n m (update put i (put i ++ (x ∷ [])))
HasCause-puts n false put i x h = tt
HasCause-puts n true put i x (j, lt, h) = (j, lt, go (i == j) refl)
  where
    go : (b : Bool) → (i == j) ≡ b → HasShutdown (if b then put i ++ (x ∷ []) else put j)
    go true e =
        let same : j ≡ i = ground arith in
        HasShutdown-append (put i) x (subst (λ k. HasShutdown (put k)) same h)
    go false e = h

-- Only the shutdown message ends a thread.
finish-shutdown :
    (c : Settings) (t : Turn) (w w' : Worker)
    → process_packet c t w ≡ ok (finish w')
    → t.packet.ctrl_message_id ≡ shutdown
unfolding process_packet
finish-shutdown c t w w' e = go t.packet.ctrl_message_id refl
  where
    ordinary :
        (on_packet c t.monotonic t.packet w >>= λ v. ok (continue v)) ≡ ok (finish w')
        → t.packet.ctrl_message_id ≡ shutdown
    ordinary e' =
        let (v, e₁, e₂) = >>=-eq-ok (on_packet c t.monotonic t.packet w) _ e' in absurd (cc)

    go : (m : ControlMessageId) → t.packet.ctrl_message_id ≡ m → t.packet.ctrl_message_id ≡ shutdown
    go processing p =
        let e' : (on_packet c t.monotonic t.packet w >>= λ v. ok (continue v)) ≡ ok (finish w') =
          ground arith in
        ordinary e'
    go sync_timeout p = absurd (ground arith)
    go shutdown p = p
    go max_control_message_id p =
        let e' : (on_packet c t.monotonic t.packet w >>= λ v. ok (continue v)) ≡ ok (finish w') =
          ground arith in
        ordinary e'

module _ (c : Settings) (instances_count : ℕ) where
  pub record IsOrderly (s : System) : Type 0 where
    pub thread :
        (i : ℕ)
        → IsThread c s.m_stop (s.queue i) (s.worker i) (s.place i) (s.put i) (s.turns i) (s.late i)
    pub cause : HasCause instances_count s.m_stop s.put

  new_system-IsOrderly : IsOrderly new_system
  unfolding process_packets
  new_system-IsOrderly = record {
    thread = λ i. record { order = refl; run = (false, refl, refl); bound = refl; stopped = tt };
    cause = tt;
  }

  puts-IsOrderly :
      (s : System) (i : ℕ) (x : RadiusPacket)
      → IsOrderly s
      → IsOrderly (record s {
        queue = update s.queue i (s.queue i ++ (x ∷ []));
        put = update s.put i (s.put i ++ (x ∷ []));
      })
  puts-IsOrderly s i x o = record {
    thread = λ j. go j (i == j) refl;
    cause = HasCause-puts instances_count s.m_stop s.put i x o.cause;
  }
    where
      go :
          (j : ℕ) (b : Bool)
          → (i == j) ≡ b
          → IsThread c s.m_stop
              (if b then s.queue i ++ (x ∷ []) else s.queue j)
              (s.worker j)
              (s.place j)
              (if b then s.put i ++ (x ∷ []) else s.put j)
              (s.turns j)
              (s.late j)
      go j false e = o.thread j
      go j true e =
          let same : i ≡ j = ground arith in
          subst
            (λ k.
              IsThread c s.m_stop (s.queue i ++ (x ∷ [])) (s.worker k) (s.place k)
                (s.put i ++ (x ∷ [])) (s.turns k) (s.late k))
            same
            (puts-IsThread c s.m_stop (s.queue i) (s.worker i) (s.place i) (s.put i) (s.turns i)
              (s.late i) x (o.thread i))

  -- Thread `i` goes to another place.
  moves-IsOrderly :
      (s : System) (i : ℕ) (p : Place)
      → IsThread c s.m_stop (s.queue i) (s.worker i) p (s.put i) (s.turns i) (s.late i)
      → IsOrderly s
      → IsOrderly (record s { place = update s.place i p })
  moves-IsOrderly s i p h o = record { thread = λ j. go j (i == j) refl; cause = o.cause }
    where
      go :
          (j : ℕ) (b : Bool)
          → (i == j) ≡ b
          → IsThread c s.m_stop
              (s.queue j)
              (s.worker j)
              (if b then p else s.place j)
              (s.put j)
              (s.turns j)
              (s.late j)
      go j false e = o.thread j
      go j true e =
          let same : i ≡ j = ground arith in
          subst
            (λ k. IsThread c s.m_stop (s.queue k) (s.worker k) p (s.put k) (s.turns k) (s.late k))
            same h

  -- Thread `i` has a turn, and the flag becomes `m`.
  turns-IsOrderly :
      (s : System) (i : ℕ) (t : Turn) (rest : List RadiusPacket) (w : Worker) (p : Place) (m : Bool)
      → IsThread c m rest w p
          (s.put i)
          (s.turns i ++ (t ∷ []))
          (if s.m_stop then s.late i + 1 else s.late i)
      → ((j : ℕ)
          → IsThread c m (s.queue j) (s.worker j) (s.place j) (s.put j) (s.turns j) (s.late j))
      → HasCause instances_count m s.put
      → IsOrderly (record (after_turn s i t rest w) { place = update s.place i p; m_stop = m })
  turns-IsOrderly s i t rest w p m h others cause = record {
    thread = λ j. go j (i == j) refl;
    cause = cause;
  }
    where
      go :
          (j : ℕ) (b : Bool)
          → (i == j) ≡ b
          → IsThread c m
              (if b then rest else s.queue j)
              (if b then w else s.worker j)
              (if b then p else s.place j)
              (s.put j)
              (if b then s.turns i ++ (t ∷ []) else s.turns j)
              (if b then (if s.m_stop then s.late i + 1 else s.late i) else s.late j)
      go j false e = others j
      go j true e =
          let same : i ≡ j = ground arith in
          subst
            (λ k.
              IsThread c m rest w p (s.put k) (s.turns i ++ (t ∷ []))
                (if s.m_stop then s.late i + 1 else s.late i))
            same h

  SystemStep-IsOrderly :
      {s s' : System} → SystemStep c instances_count s s' → IsOrderly s → IsOrderly s'
  SystemStep-IsOrderly {s} (puts i p lt) o = puts-IsOrderly s i p o
  SystemStep-IsOrderly {s} (enters i lt at run) o =
      moves-IsOrderly s i at_get
        (rw run (
          enters-IsThread c (s.queue i) (s.worker i) (s.put i) (s.turns i) (s.late i)
            (rw (run, at) at (o.thread i))))
        o
  SystemStep-IsOrderly {s} (leaves i lt at stop) o =
      moves-IsOrderly s i ended
        (rw stop (
          leaves-IsThread c (s.queue i) (s.worker i) (s.put i) (s.turns i) (s.late i)
            (rw (stop, at) at (o.thread i))))
        o
  SystemStep-IsOrderly {s} (goes_on i now monotonic p rest w lt at taken e) o =
      turns-IsOrderly s i (turn_of p now monotonic) rest w at_test s.m_stop
        (goes_on-IsThread c s.m_stop rest (s.worker i) w (s.put i) (s.turns i) (s.late i) now
          monotonic p e (rw (taken, at) at (o.thread i)))
        o.thread o.cause
  SystemStep-IsOrderly {s} (finishes i now monotonic p rest w lt at taken e) o =
      let h = rw (taken, at) at (o.thread i) in
      turns-IsOrderly s i (turn_of p now monotonic) rest w ended true
        (finishes-IsThread c s.m_stop rest (s.worker i) w (s.put i) (s.turns i) (s.late i) now
          monotonic p e h)
        (λ j.
          stop-IsThread c s.m_stop (s.queue j) (s.worker j) (s.place j) (s.put j) (s.turns j)
            (s.late j) (o.thread j))
        (
          i,
          lt,
          (
            packets (s.turns i),
            p,
            rest,
            sym h.order,
            finish-shutdown c (turn_of p now monotonic) (s.worker i) w e,
          ),
        )

  SystemRun-IsOrderly :
      {s s' : System} → SystemRun c instances_count s s' → IsOrderly s → IsOrderly s'
  SystemRun-IsOrderly here o = o
  SystemRun-IsOrderly (next r st) o = SystemStep-IsOrderly st (SystemRun-IsOrderly r o)

  pub reachable-IsOrderly : {s : System} → SystemRun c instances_count new_system s → IsOrderly s
  reachable-IsOrderly r = SystemRun-IsOrderly r new_system-IsOrderly
