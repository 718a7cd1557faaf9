-- ===== src/Utils/Interrupt.antt =====
-- InterruptWrapper of include/Utils/StaticHelpers.h, for a call of `f` that may change a state.
use traffic_inspector.Base.{Bool, true, false, not, ◌≡◌, refl}

-- Its result, `needInterrupt` and the state.
unfoldable pub interrupt_wrapper : {S : Type 0} → (S → Bool × S) → Bool → S → Bool × Bool × S
interrupt_wrapper f true s = (false, true, s)
interrupt_wrapper f false s = let (res, s') = f s in (res, not res, s')

-- A call behind one that failed is not made.
behind_failure :
    interrupt_wrapper (λ n. (true, not n)) (interrupt_wrapper (λ n. (false, n)) false true).1 true
    ≡ (false, true, true)
unfolding interrupt_wrapper
behind_failure = refl
