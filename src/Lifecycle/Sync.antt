-- ===== src/Lifecycle/Sync.antt =====
-- `syncThread` of include/PacketDispatcher.hpp over a tree of processors.
use traffic_inspector.Base.{
  ℕ, zero, suc, ◌≡◌, ◌∙◌, refl, sym, ap, Bool, true, false, List, [], ◌∷◌, ◌++◌, map, length, ok,
  Bool-cases, inl, inr, ◌==◌, if◌then◌else◌, some, none,
}
use traffic_inspector.Packets.Types.{sync_timeout}
use traffic_inspector.Dispatcher.{Dispatcher}
use traffic_inspector.Dispatcher.Broadcast.{leaves}
use traffic_inspector.Processor.{PacketProcessor, processor_ops}
use traffic_inspector.Processor.Control.{notified, dispatch_broadcast-notified}
use traffic_inspector.Lifecycle.{Poll, timed_out, failed, ready, is_read, sync_thread_loop}

-- Some round reads a set stop flag.
abbrev pub stops : List (Bool × Poll) → Bool
stops [] = false
stops ((stop, p) ∷ rounds) = elim stop [ true ↦ true | false ↦ stops rounds ]

-- What a round's poll has read, where it has read the eight bytes of a number.
abbrev pub number_read : Poll → List ℕ
number_read timed_out = []
number_read failed = []
number_read (ready none) = []
number_read (ready (some r)) = if r.ret == 8 then r.expirations ∷ [] else []

-- The numbers of expirations that are read in front of the first set stop flag.
abbrev pub expirations : List (Bool × Poll) → List ℕ
expirations [] = []
expirations ((stop, p) ∷ rounds) = elim stop [
  | true ↦ []
  | false ↦ number_read p ++ expirations rounds
]

abbrev pub times {ℓ} : {A : Type ℓ} → ℕ → (A → A) → A → A
times zero f a = a
times (suc n) f a = times n f (f a)

pub expirations-read :
    (p : Poll) (rounds : List (Bool × Poll))
    → is_read p ≡ true
    → length (expirations ((false, p) ∷ rounds)) ≡ suc (length (expirations rounds))
unfolding is_read
expirations-read timed_out rounds e = absurd (cc)
expirations-read failed rounds e = absurd (cc)
expirations-read (ready none) rounds e = absurd (cc)
expirations-read (ready (some r)) rounds e = rw e refl

pub expirations-unread :
    (p : Poll) (rounds : List (Bool × Poll))
    → is_read p ≡ false
    → length (expirations ((false, p) ∷ rounds)) ≡ length (expirations rounds)
unfolding is_read
expirations-unread timed_out rounds e = refl
expirations-unread failed rounds e = refl
expirations-unread (ready none) rounds e = refl
expirations-unread (ready (some r)) rounds e = rw e refl

-- Whatever it has polled and read, no broadcast of `syncThread` fails: it has returned exactly if a
-- round has read a set stop flag, and is in its loop otherwise; and each processor of the tree has
-- been sent one SYNC_TIMEOUT for each number of expirations that was read in front of that flag,
-- whatever the number.
pub sync_thread_loop-notified :
    (ndebug : Bool) (depth : ℕ) (rounds : List (Bool × Poll)) (x : Dispatcher PacketProcessor)
    → (y : Dispatcher PacketProcessor) × (sync_thread_loop (processor_ops ndebug depth) rounds x
        ≡ ok (stops rounds, y))
      × (leaves y ≡ times (length (expirations rounds)) (map (notified sync_timeout)) (leaves x))
unfolding sync_thread_loop
sync_thread_loop-notified ndebug depth [] x = (x, refl, refl)
sync_thread_loop-notified ndebug depth ((true, p) ∷ rounds) x = (x, refl, refl)
sync_thread_loop-notified ndebug depth ((false, p) ∷ rounds) x = elim (Bool-cases (is_read p)) [
  | inr e ↦
      let (y, run, sent) = sync_thread_loop-notified ndebug depth rounds x in
      (
        y,
        rw (e, sync_thread_loop) run,
        sent
            ∙ ap (λ k. times k (map (notified sync_timeout)) (leaves x))
                (sym (expirations-unread p rounds e)),
      )
  | inl e ↦
      let (z, first, one) = dispatch_broadcast-notified ndebug depth sync_timeout x in
      let (y, run, sent) = sync_thread_loop-notified ndebug depth rounds z in
      (
        y,
        rw (e, sync_thread_loop) (rw first run),
        sent
            ∙ ap (λ q. times (length (expirations rounds)) (map (notified sync_timeout)) q) one
            ∙ ap (λ k. times k (map (notified sync_timeout)) (leaves x))
                (sym (expirations-read p rounds e)),
      )
]
