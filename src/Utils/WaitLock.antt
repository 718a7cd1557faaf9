-- ===== src/Utils/WaitLock.antt =====
-- ObjectQueue under WaitLockPolicy (include/Utils/ObjectQueue.h, include/Utils/LockPolicies.h): a
-- mutex and a condition variable, as the standard library specifies them. The threads are not told
-- apart: the state counts them by the place where they are.
pub mod Wakeups
use traffic_inspector.Base.{ℕ, zero, suc, ◌+◌, ◌≡◌, List, [], ◌∷◌, ◌++◌}

-- Who holds the mutex: nobody; a caller of `getObject` at the predicate of `wait`, or with the
-- front taken; a caller of `putObject` at `push_back`, at `notify_one`, or behind it.
pub data Holder : Type 0 where
  nobody testing taken notifying notified : Holder
  pushing : ℕ → Holder

-- `entering` are at `lock()` of `getObject`, `asleep` are in `m_cond.wait`, `woken` are woken and
-- have not locked the mutex again.
pub record WaitQueue : Type 0 where
  pub container : List ℕ
  pub entering : ℕ
  pub asleep : ℕ
  pub woken : ℕ
  pub holder : Holder

pub data WaitStep (s : WaitQueue) : WaitQueue → Type 0 where
  arrive_get : WaitStep s (record s { entering = suc s.entering })
  lock_get :
      (n : ℕ)
      → s.holder ≡ nobody
      → s.entering ≡ suc n
      → WaitStep s (record s { entering = n; holder = testing })
  lock_again :
      (n : ℕ)
      → s.holder ≡ nobody
      → s.woken ≡ suc n
      → WaitStep s (record s { woken = n; holder = testing })
  -- The predicate fails: the mutex is released and the thread sleeps, in one step.
  sleep :
      s.holder ≡ testing
      → s.container ≡ []
      → WaitStep s (record s { asleep = suc s.asleep; holder = nobody })
  take_front :
      (v : ℕ) (rest : List ℕ)
      → s.holder ≡ testing
      → s.container ≡ v ∷ rest
      → WaitStep s (record s { container = rest; holder = taken })
  unlock_get : s.holder ≡ taken → WaitStep s (record s { holder = nobody })
  lock_put : (v : ℕ) → s.holder ≡ nobody → WaitStep s (record s { holder = pushing v })
  push_back :
      (v : ℕ)
      → s.holder ≡ pushing v
      → WaitStep s (record s { container = s.container ++ (v ∷ []); holder = notifying })
  notify_one :
      (n : ℕ)
      → s.holder ≡ notifying
      → s.asleep ≡ suc n
      → WaitStep s (record s { asleep = n; woken = suc s.woken; holder = notified })
  notify_nobody : s.holder ≡ notifying → s.asleep ≡ 0 → WaitStep s (record s { holder = notified })
  unlock_put : s.holder ≡ notified → WaitStep s (record s { holder = nobody })
  -- A thread may wake without a notification.
  wake : (n : ℕ) → s.asleep ≡ suc n → WaitStep s (record s { asleep = n; woken = suc s.woken })

pub data WaitRun (s : WaitQueue) : WaitQueue → Type 0 where
  here : WaitRun s s
  next : {u v : WaitQueue} → WaitRun s u → WaitStep u v → WaitRun s v

abbrev pub unused : WaitQueue
unused = record { container = []; entering = 0; asleep = 0; woken = 0; holder = nobody }
