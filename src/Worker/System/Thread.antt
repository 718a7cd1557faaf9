-- ===== src/Worker/System/Thread.antt =====
-- One thread of include/PacketProcessor.hpp among the others: what holds of its queue, its variables
-- and its place while any of them takes a step.
use traffic_inspector.Base.{
  ℕ, ◌+◌, ◌≤◌, ◌≡◌, refl, sym, ap, ◌∙◌, Bool, true, false, List, [], ◌∷◌, ◌++◌, map, map-append,
  append_assoc, if◌then◌else◌, ok, arith,
}
use traffic_inspector.Packets.Radius.{RadiusPacket}
use traffic_inspector.Worker.{
  Settings, Worker, Turn, new_worker, continue, finish, process_packet, process_packets,
}
use traffic_inspector.Worker.Exchange.{turn_of}
use traffic_inspector.Worker.System.{Place, at_test, at_get, ended}
use traffic_inspector.Worker.System.Replay.{process_packets-append}

abbrev pub packets : List Turn → List RadiusPacket
packets ts = map (λ t. t.packet) ts

-- How many packets the thread may still process once the flag is set.
abbrev pub allowance : Place → ℕ
allowance at_test = 0
allowance at_get = 1
allowance ended = 0

abbrev pub IsBounded : Bool → Place → ℕ → Type 0
IsBounded true p n = n + allowance p ≤ 1
IsBounded false p n = n ≡ 0

-- What the thread is to the sequential code: whether that has returned, and with which variables.
abbrev pub IsReplay : Place → Bool → Type 0
IsReplay at_test b = b ≡ false
IsReplay at_get b = b ≡ false
IsReplay ended b = Unit {0}

abbrev pub IsStopped : Place → Bool → Type 0
IsStopped at_test m = Unit {0}
IsStopped at_get m = Unit {0}
IsStopped ended m = m ≡ true

module _ (c : Settings) where
  pub record IsThread (m : Bool) (q : List RadiusPacket) (w : Worker) (p : Place)
      (put : List RadiusPacket) (ts : List Turn) (late : ℕ) : Type 0 where
    pub order : packets ts ++ q ≡ put
    pub run :
        (returned : Bool) × (process_packets c ts new_worker ≡ ok (returned, w))
        × IsReplay p returned
    pub bound : IsBounded m p late
    pub stopped : IsStopped p m

  pub puts-IsThread :
      (m : Bool) (q : List RadiusPacket) (w : Worker) (p : Place) (put : List RadiusPacket)
      (ts : List Turn) (late : ℕ) (x : RadiusPacket)
      → IsThread m q w p put ts late
      → IsThread m (q ++ (x ∷ [])) w p (put ++ (x ∷ [])) ts late
  puts-IsThread m q w p put ts late x h = record {
    order = sym (append_assoc (packets ts) q (x ∷ [])) ∙ ap (λ y. y ++ (x ∷ [])) h.order;
    run = h.run;
    bound = h.bound;
    stopped = h.stopped;
  }

  pub enters-IsThread :
      (q : List RadiusPacket) (w : Worker) (put : List RadiusPacket) (ts : List Turn) (late : ℕ)
      → IsThread false q w at_test put ts late
      → IsThread false q w at_get put ts late
  enters-IsThread q w put ts late h = record {
    order = h.order;
    run = h.run;
    bound = h.bound;
    stopped = tt;
  }

  pub leaves-IsThread :
      (q : List RadiusPacket) (w : Worker) (put : List RadiusPacket) (ts : List Turn) (late : ℕ)
      → IsThread true q w at_test put ts late
      → IsThread true q w ended put ts late
  leaves-IsThread q w put ts late h =
      let (b, e, f) = h.run in
      record { order = h.order; run = (b, e, tt); bound = h.bound; stopped = refl }

  taken-order :
      (x : RadiusPacket) (rest put : List RadiusPacket) (ts : List Turn) (t : Turn)
      → t.packet ≡ x
      → packets ts ++ (x ∷ rest) ≡ put
      → packets (ts ++ (t ∷ [])) ++ rest ≡ put
  taken-order x rest put ts t e h =
      ap (λ y. y ++ rest) (map-append (λ u. u.packet) ts (t ∷ []))
      ∙ append_assoc (packets ts) (t.packet ∷ []) rest
      ∙ ap (λ y. packets ts ++ (y ∷ rest)) e
      ∙ h

  late-IsBounded :
      (m : Bool) (late : ℕ)
      → IsBounded m at_get late
      → IsBounded m at_test (if m then late + 1 else late)
  late-IsBounded true late h = omega arith
  late-IsBounded false late h = h

  late-le-one :
      (m : Bool) (late : ℕ) → IsBounded m at_get late → (if m then late + 1 else late) + 0 ≤ 1
  late-le-one true late h = omega arith
  late-le-one false late h = omega arith

  pub goes_on-IsThread :
      (m : Bool) (rest : List RadiusPacket) (w w' : Worker) (put : List RadiusPacket)
      (ts : List Turn) (late now monotonic : ℕ) (x : RadiusPacket)
      → process_packet c (turn_of x now monotonic) w ≡ ok (continue w')
      → IsThread m (x ∷ rest) w at_get put ts late
      → IsThread m rest w' at_test put
          (ts ++ (turn_of x now monotonic ∷ []))
          (if m then late + 1 else late)
  goes_on-IsThread m rest w w' put ts late now monotonic x step h =
      let (b, e, f) = h.run in
      let t = turn_of x now monotonic in
      record {
        order = taken-order x rest put ts t refl h.order;
        run = (
          false,
          process_packets-append c ts t new_worker w (continue w') refl (rw f at e) step,
          refl,
        );
        bound = late-IsBounded m late h.bound;
        stopped = tt;
      }

  pub finishes-IsThread :
      (m : Bool) (rest : List RadiusPacket) (w w' : Worker) (put : List RadiusPacket)
      (ts : List Turn) (late now monotonic : ℕ) (x : RadiusPacket)
      → process_packet c (turn_of x now monotonic) w ≡ ok (finish w')
      → IsThread m (x ∷ rest) w at_get put ts late
      → IsThread true rest w' ended put
          (ts ++ (turn_of x now monotonic ∷ []))
          (if m then late + 1 else late)
  finishes-IsThread m rest w w' put ts late now monotonic x step h =
      let (b, e, f) = h.run in
      let t = turn_of x now monotonic in
      record {
        order = taken-order x rest put ts t refl h.order;
        run = (
          true,
          process_packets-append c ts t new_worker w (finish w') refl (rw f at e) step,
          tt,
        );
        bound = late-le-one m late h.bound;
        stopped = refl;
      }

  -- Another thread sets the flag.
  pub stop-IsThread :
      (m : Bool) (q : List RadiusPacket) (w : Worker) (p : Place) (put : List RadiusPacket)
      (ts : List Turn) (late : ℕ)
      → IsThread m q w p put ts late
      → IsThread true q w p put ts late
  stop-IsThread m q w p put ts late h = record {
    order = h.order;
    run = h.run;
    bound = bounded m p late h.bound;
    stopped = is_stopped p;
  }
    where
      bounded : (m : Bool) (p : Place) (n : ℕ) → IsBounded m p n → IsBounded true p n
      bounded true p n e = e
      bounded false at_test n e = omega arith
      bounded false at_get n e = omega arith
      bounded false ended n e = omega arith

      is_stopped : (p : Place) → IsStopped p true
      is_stopped at_test = tt
      is_stopped at_get = tt
      is_stopped ended = refl
