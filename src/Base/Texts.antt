-- ===== src/Base/Texts.antt =====
-- Texts as lists of character codes, and the functions of the C++ library that write and read
-- numbers in them.
use Prim.Native.Char.{code}
use Prim.Native.String.{String}
use Prim.Native.Nat.{ℕ, zero, suc, ◌+◌, ◌-◌, ◌*◌, ◌/◌, ◌%◌, ◌<◌}
use mathlib.Core.Path.{◌≡◌, refl, sym, ap, ◌∙◌}
use mathlib.Core.Bool.{Bool, true, false, ◌&&◌}
use mathlib.Core.List.{List, [], ◌∷◌, ◌++◌}
use native.Mathlib.Omega.{arith}
use traffic_inspector.Base.Tests.{ltb, leb, if◌then◌else◌}

abbrev pub Text : Type 0
Text = List ℕ

abbrev pub codes : String → Text
codes String.[] = []
codes (String.◌∷◌ c s) = code c ∷ codes s

abbrev pub is_digit : ℕ → Bool
is_digit c = leb b'0' c && leb c b'9'

-- `std::to_string` of a number that is not negative: the digits of `n` in front of `out`. The fuel
-- is at least the number of digits.
unfoldable pub digits : ℕ → ℕ → Text → Text
digits zero n out = out
digits (suc fuel) n out = elim (ltb n 10) [
  | true ↦ (b'0' + n % 10) ∷ out
  | false ↦ digits fuel (n / 10) ((b'0' + n % 10) ∷ out)
]

unfoldable pub decimal : ℕ → Text
unfolding digits
decimal n = digits (n + 1) n []

-- The number that the digits in front spell behind `n`, and what follows them.
unfoldable pub take_digits : ℕ → Text → ℕ × Text
take_digits n [] = (n, [])
take_digits n (c ∷ s) =
    let rest = take_digits (n * 10 + (c - b'0')) s in if is_digit c then rest else (n, c ∷ s)

take_digits_digit :
    (n k : ℕ) (s : Text) → k < 10 → take_digits n ((b'0' + k) ∷ s) ≡ take_digits (n * 10 + k) s
unfolding take_digits
take_digits_digit n k s h = ground arith

take_digits-digits :
    (fuel n : ℕ) (out : Text) → n < fuel → take_digits 0 (digits fuel n out) ≡ take_digits n out
unfolding digits
take_digits-digits zero n out h = absurd (omega arith)
take_digits-digits (suc fuel) n out h =
    go (ltb n 10) refl λ lt. take_digits-digits fuel (n / 10) ((b'0' + n % 10) ∷ out) lt
  where
    go :
        (b : Bool)
        → ltb n 10 ≡ b
        → (n / 10 < fuel
            → take_digits 0 (digits fuel (n / 10) ((b'0' + n % 10) ∷ out))
              ≡ take_digits (n / 10) ((b'0' + n % 10) ∷ out))
        → take_digits 0 (elim b [
          | true ↦ (b'0' + n % 10) ∷ out
          | false ↦ digits fuel (n / 10) ((b'0' + n % 10) ∷ out)
        ])
          ≡ take_digits n out
    go true e ih =
        let small : 0 * 10 + n % 10 ≡ n = ground arith in
        take_digits_digit 0 (n % 10) out (omega arith) ∙ ap (λ k. take_digits k out) small
    go false e ih =
        let whole : n / 10 * 10 + n % 10 ≡ n = omega arith in
        ih (ground arith)
        ∙ take_digits_digit (n / 10) (n % 10) out (omega arith)
        ∙ ap (λ k. take_digits k out) whole

-- Digits are read up to the first character that is none.
abbrev pub IsNoDigit : Text → Type 0
IsNoDigit [] = Unit {0}
IsNoDigit (c ∷ s) = is_digit c ≡ false

pub take_digits-stop : (n : ℕ) (s : Text) → IsNoDigit s → take_digits n s ≡ (n, s)
unfolding take_digits
take_digits-stop n [] h = refl
take_digits-stop n (c ∷ s) h = rw h refl

digits-append : (fuel n : ℕ) (out s : Text) → digits fuel n (out ++ s) ≡ digits fuel n out ++ s
unfolding digits
digits-append zero n out s = refl
digits-append (suc fuel) n out s =
    go (ltb n 10) _ (digits fuel (n / 10) ((b'0' + n % 10) ∷ out))
      (digits-append fuel (n / 10) ((b'0' + n % 10) ∷ out) s)
  where
    go :
        (b : Bool) (l r : Text)
        → l ≡ r ++ s
        → (elim b [ true ↦ (b'0' + n % 10) ∷ (out ++ s) | false ↦ l ])
          ≡ (elim b [ true ↦ (b'0' + n % 10) ∷ out | false ↦ r ]) ++ s
    go true l r h = refl
    go false l r h = h

pub take_digits-decimal : (n : ℕ) (s : Text) → IsNoDigit s → take_digits 0 (decimal n ++ s) ≡ (n, s)
unfolding decimal
take_digits-decimal n s h =
    ap (take_digits 0) (sym (digits-append (n + 1) n [] s))
    ∙ take_digits-digits (n + 1) n s (omega arith)
    ∙ take_digits-stop n s h
