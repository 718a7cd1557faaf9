-- ===== src/Lifecycle.antt =====
-- PacketDispatcher: include/PacketDispatcher.h and include/PacketDispatcher.hpp. It is the root of
-- the tree of dispatchers, with a timer and a thread that sends SYNC_TIMEOUT.
pub mod Init
pub mod Sync
mod Tests
use traffic_inspector.Base.{
  ℕ, ◌+◌, ◌==◌, Bool, true, false, List, [], ◌∷◌, Option, none, some, Outcome, ok, ◌>>=◌,
  if◌then◌else◌, Text, codes,
}
use traffic_inspector.Packets.Types.{sync_timeout}
use traffic_inspector.Dispatcher.{LeafOps, Dispatcher, dispatch_broadcast}

-- A timer's first expiration and its interval, in seconds.
pub record Timer : Type 0 where
  pub first : ℕ
  pub interval : ℕ

-- `m_timer_handler` is `none` for -1; `sync_thread` says whether the thread is joinable. `armed` is
-- the setting of the timer in the kernel.
pub record Lifecycle : Type 0 where
  pub m_timer_handler : Option ℕ
  pub armed : Option Timer
  pub sync_thread : Bool
  pub m_stop_flag : Bool

unfoldable pub new_lifecycle : Lifecycle
new_lifecycle = record {
  m_timer_handler = none;
  armed = none;
  sync_thread = false;
  m_stop_flag = false;
}

-- What the system answers: `timerfd_create`, `clock_gettime` (seconds), `timerfd_settime`.
pub record Replies : Type 0 where
  pub timerfd_create : Option ℕ
  pub clock_gettime : Option ℕ
  pub timerfd_settime : Bool

-- The part of `initialize` behind `timerfd_create`, on a state that has the handler.
charge : Replies → ℕ → Lifecycle → Lifecycle × Bool
charge os timeout s = elim os.clock_gettime [
  | none ↦ (s, false)
  | some now ↦
      if os.timerfd_settime
      then (
        record s {
          armed = some (record { first = now + timeout; interval = timeout });
          sync_thread = true;
        },
        true,
      )
      else (s, false)
]

unfoldable pub initialize : Replies → ℕ → Lifecycle → Lifecycle × Bool
unfolding charge
initialize os timeout s = elim s.m_timer_handler [
  | some fd ↦ (s, true)
  | none ↦ elim os.timerfd_create [
    | none ↦ (s, false)
    | some fd ↦ charge os timeout (record s { m_timer_handler = some fd })
  ]
]

-- The lines that `initialize` logs.
unfoldable pub initialize_lines : Replies → Lifecycle → List Text
initialize_lines os s = codes "PacketDispatcher::initialize" ∷ (elim s.m_timer_handler [
  | some fd ↦ []
  | none ↦ elim os.timerfd_create [
    | none ↦ codes "PacketDispatcher::initialize Cannot create timer" ∷ []
    | some fd ↦ elim os.clock_gettime [
      | none ↦ codes "PacketDispatcher::initialize cannot get current time" ∷ []
      | some now ↦
          (if os.timerfd_settime
            then codes "PacketRouter::initialize Starting sync thread"
            else codes "PacketDispatcher::initialize Cannot charge the sync timer")
          ∷ []
    ]
  ]
])

-- `deinitialize`: a joinable thread is waited for.
unfoldable pub deinitialize : Lifecycle → Lifecycle
deinitialize s = record s { m_stop_flag = true; sync_thread = false }

-- A `read` of the timer: how many bytes it got, and the number of expirations that they say.
pub record Read : Type 0 where
  pub ret : ℕ
  pub expirations : ℕ

-- A result of `poll`, with what `read` returns where the timer is ready (`none` for -1).
pub data Poll : Type 0 where
  timed_out failed : Poll
  ready : Option Read → Poll

-- sizeof(uint64_t) bytes were read. The number in them is not looked at.
unfoldable pub is_read : Poll → Bool
is_read timed_out = false
is_read failed = false
is_read (ready none) = false
is_read (ready (some r)) = r.ret == 8

-- `syncThread` over the rounds that it has had: the stop flag as each round reads it, and its poll.
-- It has returned, `true`, once a round has read a set flag; otherwise it is in its loop.
unfoldable pub sync_thread_loop :
    {L : Type 0} → LeafOps L → List (Bool × Poll) → Dispatcher L → Outcome (Bool × Dispatcher L)
unfolding is_read
sync_thread_loop ops [] x = ok (false, x)
sync_thread_loop ops ((stop, p) ∷ rounds) x = elim stop [
  | true ↦ ok (true, x)
  | false ↦ elim (is_read p) [
    | true ↦ dispatch_broadcast ops x sync_timeout >>= λ y. sync_thread_loop ops rounds y
    | false ↦ sync_thread_loop ops rounds x
  ]
]
