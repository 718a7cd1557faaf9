-- ===== src/Packets/Avp/Memory.antt =====
-- Reads through the `payload` pointer. A read past the end of the receive buffer is a fault.
use traffic_inspector.Base.{
  ℕ, zero, suc, ◌+◌, ◌≤◌, ◌≡◌, refl, none, some, List, [], ◌∷◌, ◌++◌, length, get_elem?,
  get_elem?-lt, Outcome, ok, fault, out_of_bounds, ◌>>=◌, arith, subst, Option-cases, >>=-eq-ok,
  ◌⊎◌, inl, inr, length-append, append_assoc, ◌<◌, get_elem?-none, get_elem?-middle,
}
use traffic_inspector.Packets.Wire.{Buffer}

unfoldable pub load : Buffer → ℕ → Outcome ℕ
load d p = elim (get_elem? d p) [ none ↦ fault out_of_bounds | some b ↦ ok b ]

-- `memcpy(value.data(), payload, length)`.
unfoldable pub load_bytes : Buffer → ℕ → ℕ → Outcome (List ℕ)
unfolding load
load_bytes d p zero = ok []
load_bytes d p (suc n) = load d p >>= λ b. load_bytes d (p + 1) n >>= λ bs. ok (b ∷ bs)

-- The buffer holds the bytes of the list from offset `p` on.
abbrev pub HasAt : Buffer → ℕ → List ℕ → Type 0
HasAt d p [] = Unit {0}
HasAt d p (x ∷ xs) = (get_elem? d p ≡ some x) × HasAt d (p + 1) xs

pub load_ok : (d : Buffer) (p b : ℕ) → get_elem? d p ≡ some b → load d p ≡ ok b
unfolding load
load_ok d p b e = rw (e, load)

pub load_inv : (d : Buffer) (p b : ℕ) → load d p ≡ ok b → get_elem? d p ≡ some b
unfolding load
load_inv d p b e = ground arith

-- A read ends with a byte inside the buffer, and with a fault outside.
pub load_cases :
    (d : Buffer) (p : ℕ)
    → ((b : ℕ) × (load d p ≡ ok b) × (p < length d))
      ⊎ ((load d p ≡ fault out_of_bounds) × (length d ≤ p))
unfolding load
load_cases d p = elim (Option-cases (get_elem? d p)) [
  | inl e ↦ inr (rw (e, load), get_elem?-none d p e)
  | inr (b, e) ↦ inl (b, rw (e, load), get_elem?-lt d p b e)
]

pub load_bytes_cases :
    (d : Buffer) (p n : ℕ)
    → ((v : List ℕ) × (load_bytes d p n ≡ ok v) × (length v ≡ n))
      ⊎ ((load_bytes d p n ≡ fault out_of_bounds) × (length d < p + n))
unfolding load_bytes
load_bytes_cases d p zero = inl ([], refl, refl)
load_bytes_cases d p (suc n) = elim (load_cases d p) [
  | inr (e, h) ↦ inr (rw e, omega arith)
  | inl (b, e, h) ↦ elim (load_bytes_cases d (p + 1) n) [
    | inl (v, e', h') ↦ inl (b ∷ v, rw (e, e'), omega arith)
    | inr (e', h') ↦ inr (rw (e, e'), omega arith)
  ]
]

pub load_bytes_ok :
    (d : Buffer) (p : ℕ) (v : List ℕ) → HasAt d p v → load_bytes d p (length v) ≡ ok v
unfolding load_bytes
load_bytes_ok d p [] h = refl
load_bytes_ok d p (x ∷ v) h = rw (load_ok d p x h.0, load_bytes_ok d (p + 1) v h.1)

pub load_bytes_inv :
    (d : Buffer) (p n : ℕ) (v : List ℕ) → load_bytes d p n ≡ ok v → HasAt d p v × (length v ≡ n)
unfolding load_bytes
load_bytes_inv d p zero v e = ground arith
load_bytes_inv d p (suc n) v e =
    let (b, e₁, rest) = >>=-eq-ok (load d p) _ e in
    let (bs, e₂, e₃) = >>=-eq-ok (load_bytes d (p + 1) n) _ rest in
    let ih = load_bytes_inv d (p + 1) n bs e₂ in ground (arith, load_inv d p b e₁, ih)

pub HasAt-append :
    (d : Buffer) (p : ℕ) (xs ys : List ℕ)
    → HasAt d p (xs ++ ys)
    → HasAt d p xs × HasAt d (p + length xs) ys
HasAt-append d p [] ys h = (tt, subst (λ q. HasAt d q ys) (omega arith) h)
HasAt-append d p (x ∷ xs) ys h =
    let ih = HasAt-append d (p + 1) xs ys h.1 in
    ((h.0, ih.0), subst (λ q. HasAt d q ys) (omega arith) ih.1)

pub append-HasAt :
    (d : Buffer) (p : ℕ) (xs ys : List ℕ)
    → HasAt d p xs
    → HasAt d (p + length xs) ys
    → HasAt d p (xs ++ ys)
append-HasAt d p [] ys h k = subst (λ q. HasAt d q ys) (omega arith) k
append-HasAt d p (x ∷ xs) ys h k =
    (h.0, append-HasAt d (p + 1) xs ys h.1 (subst (λ q. HasAt d q ys) (omega arith) k))

-- A list stands at the place where it was put in.
pub HasAt-here :
    (front xs back : List ℕ) (p : ℕ) → length front ≡ p → HasAt (front ++ (xs ++ back)) p xs
HasAt-here front [] back p e = tt
HasAt-here front (x ∷ xs) back p e = (
  get_elem?-middle front x (xs ++ back) p e,
  subst (λ d. HasAt d (p + 1) xs) (append_assoc front (x ∷ []) (xs ++ back))
      (HasAt-here (front ++ (x ∷ [])) xs back (p + 1)
        (omega (arith, length-append front (x ∷ [])))),
)

pub HasAt-end :
    (d : Buffer) (p : ℕ) (x : ℕ) (xs : List ℕ) → HasAt d p (x ∷ xs) → p + suc (length xs) ≤ length d
HasAt-end d p x [] h = omega (arith, get_elem?-lt d p x h.0)
HasAt-end d p x (y ∷ xs) h = omega (arith, HasAt-end d (p + 1) y xs h.1)

pub HasAt-length : (d : Buffer) (p : ℕ) (xs : List ℕ) → HasAt d p xs → length xs ≤ length d
HasAt-length d p [] h = omega arith
HasAt-length d p (x ∷ xs) h = omega (arith, HasAt-end d p x xs h)
