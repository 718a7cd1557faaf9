-- ===== src/Notifier/Order.antt =====
-- The order in which the thread of the ResultNotifier logs, and its end.
use traffic_inspector.Base.{
  ℕ, ◌+◌, ◌≤◌, ◌≡◌, refl, sym, ap, ◌∙◌, Bool, true, false, List, [], ◌∷◌, ◌++◌, some, append_assoc,
  arith, subst, if◌then◌else◌,
}
use traffic_inspector.Packets.Avp.Storage.{AvpStorage}
use traffic_inspector.Worker.Notify.{NotificationData, provide_data}
use traffic_inspector.Notifier.{
  Stage, unstarted, testing, getting, ended, logging, ResultNotifier, new_notifier, initialize,
  deinitialize, or_source, provide_data_for_notifier, NotifierStep, initializes, provides, stops,
  joins, enters, leaves, takes, logs, NotifierRun, here, next,
}

-- What the thread has taken and not yet logged.
abbrev pub in_hand : Stage → List NotificationData
in_hand unstarted = []
in_hand testing = []
in_hand getting = []
in_hand ended = []
in_hand (logging x) = x ∷ []

-- How many data the thread may still log once the flag is set.
abbrev pub allowance : Stage → ℕ
allowance unstarted = 0
allowance testing = 0
allowance getting = 1
allowance ended = 0
allowance (logging x) = 1

-- How many were logged late, and may still be.
abbrev IsBounded : Bool → Stage → ℕ → Type 0
IsBounded true s n = n + allowance s ≤ 1
IsBounded false s n = n ≡ 0

-- A thread that is not joinable has not started or has ended.
abbrev is_idle : Stage → Bool
is_idle unstarted = true
is_idle testing = false
is_idle getting = false
is_idle ended = true
is_idle (logging x) = false

abbrev IsIdle : Bool → Stage → Type 0
IsIdle true s = Unit {0}
IsIdle false s = is_idle s ≡ true

in_hand-is_idle : (s : Stage) → is_idle s ≡ true → in_hand s ≡ []
in_hand-is_idle unstarted h = refl
in_hand-is_idle ended h = refl
in_hand-is_idle testing h = refl
in_hand-is_idle getting h = refl
in_hand-is_idle (logging x) h = absurd (cc)

-- A thread that is in its loop is joinable, wherever it goes next.
IsIdle-next : (b : Bool) (s t : Stage) → is_idle s ≡ false → IsIdle b s → IsIdle b t
IsIdle-next true s t e h = tt
IsIdle-next false s t e h = absurd (cc)

record IsOrderly (n : ResultNotifier) : Type 0 where
  order : n.logged ++ (in_hand n.stage ++ n.m_queue) ≡ n.provided
  bound : IsBounded n.m_stop n.stage n.late
  idle : IsIdle n.joinable n.stage

allowance-le-one : (s : Stage) → allowance s ≤ 1
allowance-le-one unstarted = omega arith
allowance-le-one testing = omega arith
allowance-le-one getting = omega arith
allowance-le-one ended = omega arith
allowance-le-one (logging x) = omega arith

IsBounded-testing : (b : Bool) (s : Stage) (n : ℕ) → IsBounded b s n → IsBounded b testing n
IsBounded-testing true s n h = omega arith
IsBounded-testing false s n h = h

initialize-IsOrderly :
    (source : List ℕ) (n : ResultNotifier) → IsOrderly n → IsOrderly (initialize source n)
unfolding initialize
initialize-IsOrderly source n o = go n.joinable n.stage o.order o.bound o.idle
  where
    go :
        (b : Bool) (s : Stage)
        → n.logged ++ (in_hand s ++ n.m_queue) ≡ n.provided
        → IsBounded n.m_stop s n.late
        → IsIdle b s
        → IsOrderly (record n {
          m_source_id = or_source n.m_source_id source;
          joinable = true;
          stage = if b then s else testing;
        })
    go true s order bound idle = record { order = order; bound = bound; idle = tt }
    go false s order bound idle = record {
      order = ap (λ q. n.logged ++ (q ++ n.m_queue)) (sym (in_hand-is_idle s idle)) ∙ order;
      bound = IsBounded-testing n.m_stop s n.late bound;
      idle = tt;
    }

stop-IsBounded : (b : Bool) (s : Stage) (n : ℕ) → IsBounded b s n → IsBounded true s n
stop-IsBounded true s n h = h
stop-IsBounded false s n h = omega (arith, allowance-le-one s)

deinitialize-IsOrderly :
    (n m : ResultNotifier) → deinitialize n ≡ some m → IsOrderly n → IsOrderly m
unfolding deinitialize
deinitialize-IsOrderly n m e o = go n.joinable n.stage refl refl
  where
    go : (b : Bool) (s : Stage) → n.joinable ≡ b → n.stage ≡ s → IsOrderly m
    go true ended p q =
        let r : record n { m_stop = true; joinable = false } ≡ m = ground arith in
        subst IsOrderly r (record {
          order = o.order;
          bound = stop-IsBounded n.m_stop n.stage n.late o.bound;
          idle = rw q refl;
        })
    go true unstarted p q = absurd (ground arith)
    go true testing p q = absurd (ground arith)
    go true getting p q = absurd (ground arith)
    go true (logging x) p q = absurd (ground arith)
    go false s p q = absurd (ground arith)

provide-IsOrderly :
    (monotonic : ℕ) (resp req : AvpStorage) (n : ResultNotifier)
    → IsOrderly n
    → IsOrderly (provide_data_for_notifier monotonic resp req n)
unfolding provide_data_for_notifier
provide-IsOrderly monotonic resp req n o =
    let x = provide_data monotonic n.m_source_id resp req in
    record {
      order =
          ap (λ q. n.logged ++ q) (sym (append_assoc (in_hand n.stage) n.m_queue (x ∷ [])))
          ∙ sym (append_assoc n.logged (in_hand n.stage ++ n.m_queue) (x ∷ []))
          ∙ ap (λ q. q ++ (x ∷ [])) o.order;
      bound = o.bound;
      idle = o.idle;
    }

IsBounded-logging :
    (b : Bool) (x : NotificationData) (n : ℕ) → IsBounded b getting n → IsBounded b (logging x) n
IsBounded-logging true x n h = h
IsBounded-logging false x n h = h

log-IsBounded :
    (b : Bool) (x : NotificationData) (n : ℕ)
    → IsBounded b (logging x) n
    → IsBounded b testing (if b then n + 1 else n)
log-IsBounded true x n h = omega arith
log-IsBounded false x n h = h

NotifierStep-IsOrderly : {n m : ResultNotifier} → NotifierStep n m → IsOrderly n → IsOrderly m
NotifierStep-IsOrderly {n} (initializes source) o = initialize-IsOrderly source n o
NotifierStep-IsOrderly {n} (provides monotonic resp req) o =
    provide-IsOrderly monotonic resp req n o
NotifierStep-IsOrderly {n} stops o = record {
  order = o.order;
  bound = stop-IsBounded n.m_stop n.stage n.late o.bound;
  idle = o.idle;
}
NotifierStep-IsOrderly {n} (joins m e) o = deinitialize-IsOrderly n m e o
NotifierStep-IsOrderly {n} (enters e f) o = record {
  order = rw e at o.order;
  bound = rw f (rw f at o.bound);
  idle = IsIdle-next n.joinable n.stage getting (rw e refl) o.idle;
}
NotifierStep-IsOrderly {n} (leaves e f) o = record {
  order = rw e at o.order;
  bound = rw f (rw (e, f) at o.bound);
  idle = IsIdle-next n.joinable n.stage ended (rw e refl) o.idle;
}
NotifierStep-IsOrderly {n} (takes x rest e f) o = record {
  order = rw (e, f) at o.order;
  bound = IsBounded-logging n.m_stop x n.late (rw e at o.bound);
  idle = IsIdle-next n.joinable n.stage (logging x) (rw e refl) o.idle;
}
NotifierStep-IsOrderly {n} (logs x e) o = record {
  order = append_assoc n.logged (x ∷ []) n.m_queue ∙ (rw e at o.order);
  bound = log-IsBounded n.m_stop x n.late (rw e at o.bound);
  idle = IsIdle-next n.joinable n.stage testing (rw e refl) o.idle;
}

NotifierRun-IsOrderly : {n m : ResultNotifier} → NotifierRun n m → IsOrderly n → IsOrderly m
NotifierRun-IsOrderly here o = o
NotifierRun-IsOrderly (next r st) o = NotifierStep-IsOrderly st (NotifierRun-IsOrderly r o)

IsBounded-le : (b : Bool) (s : Stage) (n : ℕ) → IsBounded b s n → n ≤ 1
IsBounded-le true s n h = omega arith
IsBounded-le false s n h = omega arith

-- In every interleaving from the new notifier on, what was logged, what the thread has in hand and
-- what is queued is, in this order, what was provided; and at most one item is logged after
-- `m_stop` was set.
pub NotifierRun_lem :
    {n : ResultNotifier}
    → NotifierRun new_notifier n
    → (n.logged ++ (in_hand n.stage ++ n.m_queue) ≡ n.provided) × (n.late ≤ 1)
NotifierRun_lem {n} r =
    let o = NotifierRun-IsOrderly r (record { order = refl; bound = refl; idle = refl }) in
    (o.order, IsBounded-le n.m_stop n.stage n.late o.bound)
