-- ===== src/Worker/System.antt =====
-- The workers of a RADIUS processor, each with its queue, under any interleaving: the threads that the
-- constructor of include/PacketProcessor.hpp starts, and the join of its destructor.
pub mod Replay
pub mod Thread
pub mod Invariant
pub mod Order
pub mod Drain
pub mod Joined
mod Tests
use traffic_inspector.Base.{
  ℕ, zero, suc, ◌+◌, ◌<◌, ◌≡◌, ◌==◌, ◌&&◌, if◌then◌else◌, Bool, true, false, List, [], ◌∷◌, ◌++◌,
  Option, none, some, ok,
}
use traffic_inspector.Packets.Radius.{RadiusPacket}
use traffic_inspector.Worker.{Settings, Worker, Turn, new_worker, continue, finish, process_packet}
use traffic_inspector.Worker.Exchange.{turn_of}

-- A thread is before the test of the stop flag, in `getObject`, or has returned.
pub data Place : Type 0 where
  at_test at_get ended : Place

-- The queues, the threads' variables and places, and the flag that they share. The history: what was
-- put into each queue, the turns that each thread has had, and how many of them began to be processed
-- with the flag set.
pub record System : Type 0 where
  pub queue : ℕ → List RadiusPacket
  pub worker : ℕ → Worker
  pub place : ℕ → Place
  pub m_stop : Bool
  pub put : ℕ → List RadiusPacket
  pub turns : ℕ → List Turn
  pub late : ℕ → ℕ

abbrev pub update {ℓ} : {A : Type ℓ} → (ℕ → A) → ℕ → A → ℕ → A
update f i a j = if i == j then a else f j

-- The system behind the constructor.
abbrev pub new_system : System
new_system = record {
  queue = λ i. [];
  worker = λ i. new_worker;
  place = λ i. at_test;
  m_stop = false;
  put = λ i. [];
  turns = λ i. [];
  late = λ i. 0;
}

-- The state when thread `i` has had a turn, but for its place and the flag.
abbrev pub after_turn : System → ℕ → Turn → List RadiusPacket → Worker → System
after_turn s i t rest w = record s {
  queue = update s.queue i rest;
  worker = update s.worker i w;
  turns = update s.turns i (s.turns i ++ (t ∷ []));
  late = update s.late i (if s.m_stop then s.late i + 1 else s.late i);
}

module _ (c : Settings) (instances_count : ℕ) where
  pub data SystemStep (s : System) : System → Type 0 where
    -- `putObject`, of a packet or of a control message.
    puts :
        (i : ℕ) (p : RadiusPacket)
        → i < instances_count
        → SystemStep s (record s {
          queue = update s.queue i (s.queue i ++ (p ∷ []));
          put = update s.put i (s.put i ++ (p ∷ []));
        })
    enters :
        (i : ℕ)
        → i < instances_count
        → s.place i ≡ at_test
        → s.m_stop ≡ false
        → SystemStep s (record s { place = update s.place i at_get })
    leaves :
        (i : ℕ)
        → i < instances_count
        → s.place i ≡ at_test
        → s.m_stop ≡ true
        → SystemStep s (record s { place = update s.place i ended })
    goes_on :
        (i now monotonic : ℕ) (p : RadiusPacket) (rest : List RadiusPacket) (w : Worker)
        → i < instances_count
        → s.place i ≡ at_get
        → s.queue i ≡ p ∷ rest
        → process_packet c (turn_of p now monotonic) (s.worker i) ≡ ok (continue w)
        → SystemStep s (record (after_turn s i (turn_of p now monotonic) rest w) {
          place = update s.place i at_test;
        })
    finishes :
        (i now monotonic : ℕ) (p : RadiusPacket) (rest : List RadiusPacket) (w : Worker)
        → i < instances_count
        → s.place i ≡ at_get
        → s.queue i ≡ p ∷ rest
        → process_packet c (turn_of p now monotonic) (s.worker i) ≡ ok (finish w)
        → SystemStep s (record (after_turn s i (turn_of p now monotonic) rest w) {
          place = update s.place i ended;
          m_stop = true;
        })

  pub data SystemRun (s : System) : System → Type 0 where
    here : SystemRun s s
    next : {u v : System} → SystemRun s u → SystemStep u v → SystemRun s v

-- The destructor joins every thread; `none` while one has not returned.
unfoldable pub all_ended : ℕ → (ℕ → Place) → Bool
all_ended zero place = true
all_ended (suc n) place =
    (elim (place n) [ at_test ↦ false | at_get ↦ false | ended ↦ true ]) && all_ended n place

unfoldable pub destruct : ℕ → System → Option System
unfolding all_ended
destruct instances_count s = if all_ended instances_count s.place then some s else none
