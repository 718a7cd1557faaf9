-- ===== src/Packets/Avp/Bounds.antt =====
-- The reads of the loop of RADIUSPacket(RawPacketsPoolItem &&) and the end of the receive buffer
-- (src/Packets/RADIUSPacket.cpp).
use traffic_inspector.Base.{
  ℕ, zero, suc, ◌+◌, ◌%◌, ◌≤◌, ◌<◌, ◌≡◌, refl, length, Bool, true, false, ok, stuck, Outcome, fault,
  null_dereference, out_of_bounds, assertion, stack_overflow, division_by_zero, number_out_of_range,
  arith, ltb, ◌>>=◌, assert, Bool-cases, inl, inr, ◌⊎◌, ◌==◌, Option, none, some, get_elem?-lt,
}
use traffic_inspector.Packets.Wire.{Buffer}
use traffic_inspector.Packets.Avp.Memory.{load_cases, load_bytes_cases}
use traffic_inspector.Packets.Avp.{
  Scan, Round, next, break, parse_type, parse_length, take_value, raw_value, raw_round, raw_loop,
  parse_raw, start_scan, pack_length,
}
use traffic_inspector.Packets.Avp.Total.{raw_round_inv}

-- The outcome is a value, or a failed assertion in a build that has them.
abbrev pub IsSafe {ℓ} : {A : Type ℓ} → Bool → Outcome A → Type 0
IsSafe ndebug (ok a) = Unit {0}
IsSafe ndebug (fault null_dereference) = ⊥
IsSafe ndebug (fault out_of_bounds) = ⊥
IsSafe ndebug (fault assertion) = ndebug ≡ false
IsSafe ndebug (fault stack_overflow) = ⊥
IsSafe ndebug (fault division_by_zero) = ⊥
IsSafe ndebug (fault number_out_of_range) = ⊥
IsSafe ndebug stuck = ⊥

>>=-IsSafe {ℓ κ} :
    {A : Type ℓ} {B : Type κ} (ndebug : Bool) (m : Outcome A) (f : A → Outcome B)
    → IsSafe ndebug m
    → ((a : A) → m ≡ ok a → IsSafe ndebug (f a))
    → IsSafe ndebug (m >>= f)
>>=-IsSafe ndebug (ok a) f s k = k a refl
>>=-IsSafe ndebug (fault null_dereference) f s k = s
>>=-IsSafe ndebug (fault out_of_bounds) f s k = s
>>=-IsSafe ndebug (fault assertion) f s k = s
>>=-IsSafe ndebug (fault stack_overflow) f s k = s
>>=-IsSafe ndebug (fault division_by_zero) f s k = s
>>=-IsSafe ndebug (fault number_out_of_range) f s k = s
>>=-IsSafe ndebug stuck f s k = s

assert-IsSafe : (ndebug b : Bool) → IsSafe ndebug (assert ndebug b)
assert-IsSafe ndebug true = tt
assert-IsSafe true false = tt
assert-IsSafe false false = refl

-- The pointer and the offset go together, and `size` bytes from the header on leave 254 behind.
record InBuffer (h size : ℕ) (d : Buffer) (s : Scan) : Type 0 where
  pointer : s.payload ≡ h + s.data_offset
  spare : h + size + 254 ≤ length d
  small : size + 257 ≤ 65536

parse_type-IsSafe :
    (ndebug : Bool) (h size : ℕ) (d : Buffer) (s : Scan)
    → InBuffer h size d s
    → IsSafe ndebug (parse_type size d s)
      × ((o : Option ℕ) (s' : Scan) → parse_type size d s ≡ ok (o, s') → InBuffer h size d s')
unfolding parse_type
parse_type-IsSafe ndebug h size d s b = elim (load_cases d s.payload) [
  | inl (t, e, lt) ↦ (ground arith, λ o s' e'. ground arith)
  | inr (e, ge) ↦ (ground arith, λ o s' e'. ground arith)
]

parse_length-IsSafe :
    (ndebug : Bool) (h size : ℕ) (d : Buffer) (o : Option ℕ) (s : Scan)
    → InBuffer h size d s
    → IsSafe ndebug (parse_length size d o s)
      × ((r : Option (ℕ × ℕ)) (s' : Scan)
          → parse_length size d o s ≡ ok (r, s')
          → InBuffer h size d s' × ((r ≡ none) ⊎ (s'.data_offset < size)))
unfolding parse_length
parse_length-IsSafe ndebug h size d none s b = (tt, λ r s' e. ground arith)
parse_length-IsSafe ndebug h size d (some t) s b = elim (load_cases d s.payload) [
  | inl (n, e, lt) ↦ (ground arith, λ r s' e'. ground arith)
  | inr (e, ge) ↦ (ground arith, λ r s' e'. ground arith)
]

-- The round's result, where it goes on, is a scan that satisfies the invariant again.
abbrev GoesOn : ℕ → ℕ → Buffer → Outcome Round → Type 0
GoesOn h size d (ok (next s)) = InBuffer h size d s
GoesOn h size d (ok (break s)) = Unit {0}
GoesOn h size d (fault e) = Unit {0}
GoesOn h size d stuck = Unit {0}

raw_value-IsSafe :
    (ndebug : Bool) (h size : ℕ) (d : Buffer) (o : Option (ℕ × ℕ)) (s : Scan)
    → InBuffer h size d s
    → (o ≡ none) ⊎ (s.data_offset < size)
    → IsSafe ndebug (raw_value ndebug size d o s) × GoesOn h size d (raw_value ndebug size d o s)
unfolding raw_value take_value
raw_value-IsSafe true h size d none s b room = (tt, tt)
raw_value-IsSafe false h size d none s b room = (refl, tt)
raw_value-IsSafe ndebug h size d (some (t, n)) s b (inl e) = absurd (cc)
raw_value-IsSafe true h size d (some (t, n)) s b (inr room) =
    ground (arith, load_bytes_cases d s.payload ((n + 254) % 256))
raw_value-IsSafe false h size d (some (t, n)) s b (inr room) =
    ground (arith, load_bytes_cases d s.payload ((n + 254) % 256))

>>=-GoesOn {ℓ} :
    {A : Type ℓ} (h size : ℕ) (d : Buffer) (m : Outcome A) (f : A → Outcome Round)
    → ((a : A) → m ≡ ok a → GoesOn h size d (f a))
    → GoesOn h size d (m >>= f)
>>=-GoesOn h size d (ok a) f k = k a refl
>>=-GoesOn h size d (fault e) f k = tt
>>=-GoesOn h size d stuck f k = tt

raw_round-IsSafe :
    (ndebug : Bool) (h size : ℕ) (d : Buffer) (s : Scan)
    → InBuffer h size d s
    → IsSafe ndebug (raw_round ndebug size d s) × GoesOn h size d (raw_round ndebug size d s)
unfolding raw_round
raw_round-IsSafe ndebug h size d s b =
    let p = parse_type-IsSafe ndebug h size d s b in
    let q = λ (x : Option ℕ × Scan) (e : parse_type size d s ≡ ok x).
      parse_length-IsSafe ndebug h size d x.0 x.1 (p.1 x.0 x.1 e) in
    (
      >>=-IsSafe ndebug (parse_type size d s) _ p.0 λ x e.
          >>=-IsSafe ndebug (parse_length size d x.0 x.1) _ (q x e).0 λ y e'.
            let r = (q x e).1 y.0 y.1 e' in (raw_value-IsSafe ndebug h size d y.0 y.1 r.0 r.1).0,
      >>=-GoesOn h size d (parse_type size d s) _ λ x e.
          >>=-GoesOn h size d (parse_length size d x.0 x.1) _ λ y e'.
            let r = (q x e).1 y.0 y.1 e' in (raw_value-IsSafe ndebug h size d y.0 y.1 r.0 r.1).1,
    )

raw_loop_step-IsSafe :
    (ndebug : Bool) (h size : ℕ) (d : Buffer) (fuel : ℕ) (s : Scan) (r : Outcome Round)
    → raw_round ndebug size d s ≡ r
    → IsSafe ndebug r
    → GoesOn h size d r
    → ((s' : Scan)
        → r ≡ ok (next s')
        → InBuffer h size d s'
        → IsSafe ndebug (raw_loop ndebug size d fuel s'))
    → IsSafe ndebug (raw_loop ndebug size d (suc fuel) s)
unfolding raw_loop
raw_loop_step-IsSafe ndebug h size d fuel s r e safe on ih =
    elim (Bool-cases (ltb s.data_offset size)) [
      | inr t ↦ rw (t, raw_loop) tt
      | inl t ↦ rw (t, raw_loop) (rw e (after r safe on ih))
    ]
  where
    after :
        (r : Outcome Round)
        → IsSafe ndebug r
        → GoesOn h size d r
        → ((s' : Scan)
            → r ≡ ok (next s')
            → InBuffer h size d s'
            → IsSafe ndebug (raw_loop ndebug size d fuel s'))
        → IsSafe ndebug
            (r >>= λ x. elim x [ next s' ↦ raw_loop ndebug size d fuel s' | break s' ↦ ok s'.avps ])
    after (ok (next s')) safe on ih = ih s' refl on
    after (ok (break s')) safe on ih = tt
    after (fault null_dereference) safe on ih = safe
    after (fault out_of_bounds) safe on ih = safe
    after (fault assertion) safe on ih = safe
    after (fault stack_overflow) safe on ih = safe
    after (fault division_by_zero) safe on ih = safe
    after (fault number_out_of_range) safe on ih = safe
    after stuck safe on ih = safe

raw_loop-IsSafe :
    (ndebug : Bool) (h size : ℕ) (d : Buffer) (fuel : ℕ) (s : Scan)
    → InBuffer h size d s
    → length d < s.payload + fuel
    → 0 < fuel
    → IsSafe ndebug (raw_loop ndebug size d fuel s)
raw_loop-IsSafe ndebug h size d zero s b enough pos = absurd (omega arith)
raw_loop-IsSafe ndebug h size d (suc fuel) s b enough pos =
    let r = raw_round-IsSafe ndebug h size d s b in
    raw_loop_step-IsSafe ndebug h size d fuel s (raw_round ndebug size d s) refl r.0 r.1 λ s' e b'.
      let v = raw_round_inv ndebug size d s s' e in
      raw_loop-IsSafe ndebug h size d fuel s' b' (omega (arith, v.pointer))
        (omega (arith, get_elem?-lt d (s.payload + 1) v.length_byte v.length_at))

-- A packet of at most 65279 bytes that leaves 254 bytes of the buffer behind it is parsed to a map,
-- or, in a build with assertions only, fails one; it never reads past the buffer, and parsing ends.
pub parse_raw-IsSafe :
    (ndebug : Bool) (d : Buffer) (h packet_size : ℕ)
    → h + packet_size + 254 ≤ length d
    → packet_size ≤ 65279
    → IsSafe ndebug (parse_raw ndebug d h packet_size)
unfolding parse_raw
parse_raw-IsSafe ndebug d h packet_size spare small =
    >>=-IsSafe ndebug (assert ndebug (pack_length d h == packet_size)) _
      (assert-IsSafe ndebug (pack_length d h == packet_size))
      λ _ _.
        raw_loop-IsSafe ndebug h _ d (length d + 1) (start_scan h)
          (record { pointer = omega arith; spare = omega arith; small = omega arith }) (omega arith)
          (omega arith)

-- What follows a safe computation and only wraps its value is safe.
pub then-IsSafe {ℓ κ} :
    {A : Type ℓ} {B : Type κ} (ndebug : Bool) (m : Outcome A) (f : A → B)
    → IsSafe ndebug m
    → IsSafe ndebug (m >>= λ a. ok (f a))
then-IsSafe ndebug m f s = >>=-IsSafe ndebug m _ s (λ a e. tt)
