-- ===== src/Notifier.antt =====
-- ResultNotifier: include/ResultNotifier.h and src/ResultNotifier.cpp. Workers put the data of
-- matched packets into its queue, and its thread logs them.
pub mod Order
mod Tests
use traffic_inspector.Base.{
  ℕ, ◌+◌, ◌≡◌, Bool, true, false, List, [], ◌∷◌, ◌++◌, Option, none, some, if◌then◌else◌,
}
use traffic_inspector.Packets.Avp.Storage.{AvpStorage}
use traffic_inspector.Worker.Notify.{NotificationData, provide_data}

-- Where the thread stands: not started, before the test of `m_stop`, in `getObject`, with the data
-- that it is about to log, or behind the loop.
pub data Stage : Type 0 where
  unstarted testing getting ended : Stage
  logging : NotificationData → Stage

-- `stage` is the thread's; `joinable` is that of the std::thread. The history: the data that were
-- provided and that were logged, in order, and how many were logged once `m_stop` was set.
pub record ResultNotifier : Type 0 where
  pub m_queue : List NotificationData
  pub m_source_id : List ℕ
  pub m_stop : Bool
  pub joinable : Bool
  pub stage : Stage
  pub provided : List NotificationData
  pub logged : List NotificationData
  pub late : ℕ

-- The instance is static: its members are zero before the constructor, which sets none, runs.
abbrev pub new_notifier : ResultNotifier
new_notifier = record {
  m_queue = [];
  m_source_id = [];
  m_stop = false;
  joinable = false;
  stage = unstarted;
  provided = [];
  logged = [];
  late = 0;
}

-- `initialize`: a name that is set stays, and so does a thread that is joinable.
abbrev pub or_source : List ℕ → List ℕ → List ℕ
or_source [] source = source
or_source (b ∷ bs) source = b ∷ bs

unfoldable pub initialize : List ℕ → ResultNotifier → ResultNotifier
initialize source n = record n {
  m_source_id = or_source n.m_source_id source;
  joinable = true;
  stage = if n.joinable then n.stage else testing;
}

abbrev pub set_stop : ResultNotifier → ResultNotifier
set_stop n = record n { m_stop = true }

-- `deinitialize` sets the flag and calls `join`, which throws on a thread that is not joinable, and
-- waits on one that has not ended: both are `none`.
unfoldable pub deinitialize : ResultNotifier → Option ResultNotifier
deinitialize n =
    let stopped = set_stop n in
    if stopped.joinable
    then (elim stopped.stage [
      | ended ↦ some (record stopped { joinable = false })
      | unstarted ↦ none
      | testing ↦ none
      | getting ↦ none
      | logging x ↦ none
    ])
    else none

-- `provideDataForNotifier`, with the clock of the constructor of NotificationData.
unfoldable pub provide_data_for_notifier :
    ℕ → AvpStorage → AvpStorage → ResultNotifier → ResultNotifier
unfolding provide_data
provide_data_for_notifier monotonic resp req n =
    let x = provide_data monotonic n.m_source_id resp req in
    record n { m_queue = n.m_queue ++ (x ∷ []); provided = n.provided ++ (x ∷ []) }

-- The steps of the thread (`notifierThread`) and of its callers, in any order.
pub data NotifierStep (n : ResultNotifier) : ResultNotifier → Type 0 where
  initializes : (source : List ℕ) → NotifierStep n (initialize source n)
  provides :
      (monotonic : ℕ) (resp req : AvpStorage)
      → NotifierStep n (provide_data_for_notifier monotonic resp req n)
  stops : NotifierStep n (set_stop n)
  joins : (m : ResultNotifier) → deinitialize n ≡ some m → NotifierStep n m
  enters : n.stage ≡ testing → n.m_stop ≡ false → NotifierStep n (record n { stage = getting })
  leaves : n.stage ≡ testing → n.m_stop ≡ true → NotifierStep n (record n { stage = ended })
  takes :
      (x : NotificationData) (rest : List NotificationData)
      → n.stage ≡ getting
      → n.m_queue ≡ x ∷ rest
      → NotifierStep n (record n { stage = logging x; m_queue = rest })
  logs :
      (x : NotificationData)
      → n.stage ≡ logging x
      → NotifierStep n (record n {
        stage = testing;
        logged = n.logged ++ (x ∷ []);
        late = if n.m_stop then n.late + 1 else n.late;
      })

pub data NotifierRun (n : ResultNotifier) : ResultNotifier → Type 0 where
  here : NotifierRun n n
  next : {u v : ResultNotifier} → NotifierRun n u → NotifierStep u v → NotifierRun n v
