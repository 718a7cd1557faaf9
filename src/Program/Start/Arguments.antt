-- ===== src/Program/Start/Arguments.antt =====
-- The number on the command line of src/main.cpp.
use traffic_inspector.Base.{
  ℕ, zero, suc, ◌+◌, ◌-◌, ◌^◌, ◌%◌, ◌/◌, ◌<◌, ◌≡◌, refl, ap, ltb, Bool, true, false, [], ◌∷◌, ◌++◌,
  ok, Text, codes, digits, decimal, is_digit, take_digits-decimal, IsNoDigit, arith,
}
use traffic_inspector.Program.Start.{skip_spaces, take_sign, atoll_size}

-- The text begins with a digit.
abbrev BeginsWithDigit : Text → Type 0
BeginsWithDigit s = (c : ℕ) × (t : Text) × (s ≡ c ∷ t) × (is_digit c ≡ true)

digit-BeginsWithDigit : (n : ℕ) (out : Text) → BeginsWithDigit ((b'0' + n % 10) ∷ out)
digit-BeginsWithDigit n out = (b'0' + n % 10, out, refl, ground arith)

either-BeginsWithDigit :
    (b : Bool) (s t : Text)
    → BeginsWithDigit s
    → BeginsWithDigit t
    → BeginsWithDigit (elim b [ true ↦ s | false ↦ t ])
either-BeginsWithDigit true s t p q = p
either-BeginsWithDigit false s t p q = q

digits-BeginsWithDigit :
    (fuel n : ℕ) (out : Text) → BeginsWithDigit out → BeginsWithDigit (digits fuel n out)
unfolding digits
digits-BeginsWithDigit zero n out h = h
digits-BeginsWithDigit (suc fuel) n out h =
    let d = digit-BeginsWithDigit n out in
    either-BeginsWithDigit (ltb n 10) ((b'0' + n % 10) ∷ out)
      (digits fuel (n / 10) ((b'0' + n % 10) ∷ out)) d
      (digits-BeginsWithDigit fuel (n / 10) ((b'0' + n % 10) ∷ out) d)

-- With fuel for one digit, the digits are not none.
some_digits-BeginsWithDigit :
    (fuel n : ℕ) (out : Text) → 0 < fuel → BeginsWithDigit (digits fuel n out)
unfolding digits
some_digits-BeginsWithDigit zero n out h = absurd (omega arith)
some_digits-BeginsWithDigit (suc fuel) n out h =
    let d = digit-BeginsWithDigit n out in
    either-BeginsWithDigit (ltb n 10) ((b'0' + n % 10) ∷ out)
      (digits fuel (n / 10) ((b'0' + n % 10) ∷ out)) d
      (digits-BeginsWithDigit fuel (n / 10) ((b'0' + n % 10) ∷ out) d)

decimal-BeginsWithDigit : (n : ℕ) (s : Text) → BeginsWithDigit (decimal n ++ s)
unfolding decimal
decimal-BeginsWithDigit n s =
    let (c, t, e, h) = some_digits-BeginsWithDigit (n + 1) n [] (omega arith) in
    (c, t ++ s, ap (λ x. x ++ s) e, h)

skip_spaces-digit :
    (s : Text) → BeginsWithDigit s → (skip_spaces s ≡ s) × (take_sign s ≡ (false, s))
unfolding skip_spaces take_sign
skip_spaces-digit s (c, t, e, h) = rw e (ground arith, ground arith)

-- A number below 2 ^ 63 that is printed in decimal, whatever follows it but a digit, is the size of
-- the pool; with a minus in front of it, the size wraps around.
pub atoll_size-decimal :
    (n : ℕ) (s : Text)
    → n < 2 ^ 63
    → IsNoDigit s
    → (atoll_size (decimal n ++ s) ≡ ok n)
      × (atoll_size (codes "-" ++ (decimal n ++ s)) ≡ ok ((2 ^ 64 - n) % 2 ^ 64))
unfolding atoll_size
atoll_size-decimal n s fits stop =
    let (e₁, e₂) = skip_spaces-digit (decimal n ++ s) (decimal-BeginsWithDigit n s) in
    let e₃ = take_digits-decimal n s stop in (ground arith, ground arith)
