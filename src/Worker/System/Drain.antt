-- ===== src/Worker/System/Drain.antt =====
-- How the threads of include/PacketProcessor.hpp can be brought to an end.
use traffic_inspector.Base.{
  ℕ, ◌<◌, ◌≡◌, ◌≢◌, ◌⊎◌, inl, inr, refl, ap, ◌∙◌, ◌==◌, ==_refl, true, false, List, [], ◌∷◌, All,
  ok, Bool-cases, arith,
}
use traffic_inspector.Packets.Types.{
  ControlMessageId, processing, sync_timeout, shutdown, max_control_message_id,
}
use traffic_inspector.Packets.Radius.{RadiusPacket}
use traffic_inspector.Worker.{
  Settings, Worker, continue, finish, process_packet, on_packet, session_key, on_keyed,
  on_sync_timeout,
}
use traffic_inspector.Worker.Exchange.{turn_of}
use traffic_inspector.Worker.System.{
  Place, at_test, at_get, ended, System, update, SystemStep, enters, leaves, goes_on, finishes,
  SystemRun, here, next,
}
use traffic_inspector.Worker.System.Invariant.{HasShutdown}

abbrev pub HasReadableKey : Settings → RadiusPacket → Type 0
HasReadableKey c p = (k : ℕ) × (session_key c p ≡ ok k)

-- What a thread does with a packet whose identifier can be read, at whichever times.
abbrev Goes : Settings → RadiusPacket → Worker → Type 0
Goes c p w =
    ((v : Worker) × (process_packet c (turn_of p 0 0) w ≡ ok (finish v)))
    ⊎ ((p.ctrl_message_id ≢ shutdown)
        × ((v : Worker) × (process_packet c (turn_of p 0 0) w ≡ ok (continue v))))

goes : (c : Settings) (p : RadiusPacket) (w : Worker) → HasReadableKey c p → Goes c p w
unfolding process_packet on_packet
goes c p w (k, e) = go p.ctrl_message_id refl
  where
    go : (m : ControlMessageId) → p.ctrl_message_id ≡ m → Goes c p w
    go processing q = inr (λ h. cc, (on_keyed c 0 k p w, ground arith))
    go sync_timeout q = inr (λ h. cc, (on_sync_timeout c 0 w, ground arith))
    go shutdown q = inl (record w { m_stop = true }, ground arith)
    go max_control_message_id q = inr (λ h. cc, (on_keyed c 0 k p w, ground arith))

-- A shutdown message that is not the first packet is behind it.
HasShutdown-tail :
    (p : RadiusPacket) (rest : List RadiusPacket)
    → p.ctrl_message_id ≢ shutdown
    → HasShutdown (p ∷ rest)
    → HasShutdown rest
HasShutdown-tail p rest other ([], q, behind, e, s) =
    let same : p ≡ q = ground arith in absurd (other (ap (λ r. r.ctrl_message_id) same ∙ s))
HasShutdown-tail p rest other (x ∷ before, q, behind, e, s) = (before, q, behind, ground arith, s)

module _ (c : Settings) (instances_count : ℕ) where
  pub SystemRun-append :
      {s t u : System}
      → SystemRun c instances_count s t
      → SystemRun c instances_count t u
      → SystemRun c instances_count s u
  SystemRun-append r here = r
  SystemRun-append r (next q st) = next (SystemRun-append r q) st

  -- Thread `i` has returned, and the places and queues of the others are as they were.
  pub record Drained (s : System) (i : ℕ) : Type 0 where
    pub after : System
    pub run : SystemRun c instances_count s after
    pub returned : after.place i ≡ ended
    pub others :
        (j : ℕ) → (i == j) ≡ false → (after.place j ≡ s.place j) × (after.queue j ≡ s.queue j)

  Drained-step :
      {s t : System} (i : ℕ)
      → SystemStep c instances_count s t
      → ((j : ℕ) → (i == j) ≡ false → (t.place j ≡ s.place j) × (t.queue j ≡ s.queue j))
      → Drained t i
      → Drained s i
  Drained-step i st keep d = record {
    after = d.after;
    run = SystemRun-append (next here st) d.run;
    returned = d.returned;
    others = λ j e. let (p, q) = d.others j e in let (p', q') = keep j e in (p ∙ p', q ∙ q');
  }

  Drained-last :
      {s t : System} (i : ℕ)
      → SystemStep c instances_count s t
      → ((j : ℕ) → (i == j) ≡ false → (t.place j ≡ s.place j) × (t.queue j ≡ s.queue j))
      → t.place i ≡ ended
      → Drained s i
  Drained-last {t = t} i st keep e = record {
    after = t;
    run = next here st;
    returned = e;
    others = keep;
  }

  -- A thread at its test leaves where the flag is set, and otherwise enters `getObject`.
  from_test :
      (s : System) (i : ℕ)
      → i < instances_count
      → s.place i ≡ at_test
      → (s.m_stop ≡ false → Drained (record s { place = update s.place i at_get }) i)
      → Drained s i
  from_test s i lt at entered = elim (Bool-cases s.m_stop) [
    | inl stop ↦
        Drained-last i (leaves i lt at stop) (λ j e. (rw e refl, refl)) (rw (==_refl i) refl)
    | inr running ↦
        Drained-step i (enters i lt at running) (λ j e. (rw e refl, refl)) (entered running)
  ]

  from_get :
      (q : List RadiusPacket) (s : System) (i : ℕ)
      → i < instances_count
      → s.place i ≡ at_get
      → s.queue i ≡ q
      → HasShutdown q
      → All (HasReadableKey c) q
      → Drained s i
  from_get [] s i lt at e ([], p, behind, f, h) keys = absurd (cc)
  from_get [] s i lt at e (x ∷ before, p, behind, f, h) keys = absurd (cc)
  from_get (p ∷ rest) s i lt at e has (key, keys) = elim (goes c p (s.worker i) key) [
    | inl (v, run) ↦
        Drained-last i (finishes i 0 0 p rest v lt at e run) (λ j n. (rw n refl, rw n refl))
          (rw (==_refl i) refl)
    | inr (other, (v, run)) ↦
        Drained-step i (goes_on i 0 0 p rest v lt at e run) (λ j n. (rw n refl, rw n refl))
          (from_test _ i lt (rw (==_refl i) refl) (λ n.
            from_get rest _ i lt (rw (==_refl i) refl) (rw (==_refl i) refl)
              (HasShutdown-tail p rest other has) keys))
  ]

  -- A thread that has not returned, with a shutdown message in its queue.
  pub drain :
      (s : System) (i : ℕ)
      → i < instances_count
      → HasShutdown (s.queue i)
      → All (HasReadableKey c) (s.queue i)
      → (s.place i ≡ ended) ⊎ Drained s i
  drain s i lt has keys = go (s.place i) refl
    where
      go : (p : Place) → s.place i ≡ p → (s.place i ≡ ended) ⊎ Drained s i
      go at_test e =
          inr (
            from_test s i lt e λ n. from_get (s.queue i) _ i lt (rw (==_refl i) refl) refl has keys)
      go at_get e = inr (from_get (s.queue i) s i lt e refl has keys)
      go ended e = inl e
