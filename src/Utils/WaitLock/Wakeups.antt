-- ===== src/Utils/WaitLock/Wakeups.antt =====
-- `wait` and `notifyWait` of WaitLockPolicy (include/Utils/LockPolicies.h).
use traffic_inspector.Base.{
  ℕ, ◌+◌, ◌≤◌, ◌≡◌, ◌≢◌, ◌⊎◌, inl, inr, refl, List, [], ◌∷◌, length, length-append, arith,
}
use traffic_inspector.Utils.WaitLock.{
  Holder, nobody, testing, taken, notifying, notified, pushing, WaitQueue, WaitStep, arrive_get,
  lock_get, lock_again, sleep, take_front, unlock_get, lock_put, push_back, notify_one,
  notify_nobody, unlock_put, wake, WaitRun, here, next, unused,
}

-- The holder is about to take an object, or to wake a thread that may.
abbrev pub pending : Holder → ℕ
pending nobody = 0
pending testing = 1
pending taken = 0
pending notifying = 1
pending notified = 0
pending (pushing v) = 0

-- Where a thread sleeps, there are no more objects than threads on their way to take one.
abbrev IsCovered : WaitQueue → Type 0
IsCovered s = (s.asleep ≡ 0) ⊎ (length s.container ≤ s.entering + s.woken + pending s.holder)

WaitStep-IsCovered : {s t : WaitQueue} → WaitStep s t → IsCovered s → IsCovered t
WaitStep-IsCovered {s} arrive_get (inl c) = inl c
WaitStep-IsCovered {s} arrive_get (inr c) = inr (omega arith)
WaitStep-IsCovered {s} (lock_get n e f) (inl c) = inl c
WaitStep-IsCovered {s} (lock_get n e f) (inr c) = inr (omega (arith, rw e at c))
WaitStep-IsCovered {s} (lock_again n e f) (inl c) = inl c
WaitStep-IsCovered {s} (lock_again n e f) (inr c) = inr (omega (arith, rw e at c))
WaitStep-IsCovered {s} (sleep e f) c = inr (rw f (omega arith))
WaitStep-IsCovered {s} (take_front v rest e f) (inl c) = inl c
WaitStep-IsCovered {s} (take_front v rest e f) (inr c) = inr (omega (arith, rw (e, f) at c))
WaitStep-IsCovered {s} (unlock_get e) (inl c) = inl c
WaitStep-IsCovered {s} (unlock_get e) (inr c) = inr (omega (arith, rw e at c))
WaitStep-IsCovered {s} (lock_put v e) (inl c) = inl c
WaitStep-IsCovered {s} (lock_put v e) (inr c) = inr (omega (arith, rw e at c))
WaitStep-IsCovered {s} (push_back v e) (inl c) = inl c
WaitStep-IsCovered {s} (push_back v e) (inr c) =
    inr (omega (arith, rw e at c, length-append s.container (v ∷ [])))
WaitStep-IsCovered {s} (notify_one n e f) (inl c) = absurd (omega arith)
WaitStep-IsCovered {s} (notify_one n e f) (inr c) = inr (omega (arith, rw e at c))
WaitStep-IsCovered {s} (notify_nobody e f) c = inl f
WaitStep-IsCovered {s} (unlock_put e) (inl c) = inl c
WaitStep-IsCovered {s} (unlock_put e) (inr c) = inr (omega (arith, rw e at c))
WaitStep-IsCovered {s} (wake n e) (inl c) = absurd (omega arith)
WaitStep-IsCovered {s} (wake n e) (inr c) = inr (omega arith)

WaitRun-IsCovered : {s t : WaitQueue} → WaitRun s t → IsCovered s → IsCovered t
WaitRun-IsCovered here c = c
WaitRun-IsCovered (next r st) c = WaitStep-IsCovered st (WaitRun-IsCovered r c)

-- In every interleaving from an unused queue, a thread sleeps beside an object only while another
-- caller of `getObject` is on its way, or the mutex is held.
pub asleep_empty :
    {s : WaitQueue}
    → WaitRun unused s
    → s.holder ≡ nobody
    → s.entering ≡ 0
    → s.woken ≡ 0
    → s.asleep ≢ 0
    → s.container ≡ []
asleep_empty {s} r e f g h = go s.container (WaitRun-IsCovered r (inl refl))
  where
    go :
        (c : List ℕ)
        → (s.asleep ≡ 0) ⊎ (length c ≤ s.entering + s.woken + pending s.holder)
        → c ≡ []
    go [] k = refl
    go (v ∷ c) (inl k) = absurd (h k)
    go (v ∷ c) (inr k) = absurd (omega (arith, rw e at k))
