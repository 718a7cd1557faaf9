-- ===== src/Lifecycle/Init.antt =====
-- `initialize` of include/PacketDispatcher.hpp.
use traffic_inspector.Base.{
  ℕ, ◌+◌, ◌≡◌, ◌≢◌, ◌⊎◌, inl, inr, true, false, none, some, arith, Option-cases, Bool-cases,
}
use traffic_inspector.Lifecycle.{Replies, new_lifecycle, initialize}

-- Every call has succeeded.
abbrev pub AllSucceed : Replies → Type 0
AllSucceed os = (os.timerfd_create ≢ none) × (os.clock_gettime ≢ none) × (os.timerfd_settime ≡ true)

-- From the new state there are two cases. All calls succeed: `initialize` returns true, the thread
-- runs, and the timer fires after `timeout` seconds and every `timeout` seconds. Or some call
-- fails: it returns false, there is no thread, and no timer is armed.
pub initialize_new :
    (os : Replies) (timeout : ℕ)
    → let r = initialize os timeout new_lifecycle in
      (AllSucceed os
        × (r.1 ≡ true)
        × (r.0.sync_thread ≡ true)
        × ((now : ℕ) × (os.clock_gettime ≡ some now)
            × (r.0.armed ≡ some (record { first = now + timeout; interval = timeout }))))
      ⊎ (¬ AllSucceed os × (r.1 ≡ false) × (r.0.sync_thread ≡ false) × (r.0.armed ≡ none))
unfolding initialize new_lifecycle
initialize_new os timeout = elim (Option-cases os.timerfd_create) [
  | inl e ↦ inr (λ h. h.0 e, ground arith, ground arith, ground arith)
  | inr (fd, e) ↦ elim (Option-cases os.clock_gettime) [
    | inl c ↦ inr (λ h. h.1 c, ground arith, ground arith, ground arith)
    | inr (now, c) ↦ elim (Bool-cases os.timerfd_settime) [
      | inl t ↦ inl ((λ n. cc, λ n. cc, t), ground arith, ground arith, (now, c, ground arith))
      | inr t ↦ inr (λ h. cc, ground arith, ground arith, ground arith)
    ]
  ]
]

-- A failure behind `timerfd_create` leaves the handler set, so that the next call returns true,
-- whatever the system answers, and starts no thread.
pub initialize_retry :
    (os os' : Replies) (timeout timeout' : ℕ)
    → os.timerfd_create ≢ none
    → (os.clock_gettime ≡ none) ⊎ (os.timerfd_settime ≡ false)
    → let r = initialize os timeout new_lifecycle in
      let r' = initialize os' timeout' r.0 in
      (r.1 ≡ false) × (r'.1 ≡ true) × (r'.0.sync_thread ≡ false) × (r'.0.armed ≡ none)
unfolding initialize new_lifecycle
initialize_retry os os' timeout timeout' c f = ground arith
