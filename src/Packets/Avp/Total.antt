-- ===== src/Packets/Avp/Total.antt =====
-- A round of the loop of RADIUSPacket(RawPacketsPoolItem &&), and its fuel
-- (src/Packets/RADIUSPacket.cpp).
use traffic_inspector.Base.{
  ℕ, zero, suc, ◌+◌, ◌-◌, ◌%◌, ◌^◌, ◌≤◌, ◌<◌, ◌≡◌, ◌≢◌, refl, ap, ◌∙◌, List, length, Bool, true,
  false, ok, stuck, Outcome, Option, none, some, arith, get_elem?, get_elem?-lt, >>=-eq-ok, ltb,
  leb, ◌>>=◌, ◌>>◌, assert, Bool-cases, inl, inr, fault, ◌==◌, subst,
}
use traffic_inspector.Packets.Wire.{Buffer}
use traffic_inspector.Packets.Avp.Storage.{insert}
use traffic_inspector.Packets.Avp.Memory.{
  load_bytes, HasAt, load_inv, load_bytes_inv, load_cases, load_bytes_cases,
}
use traffic_inspector.Packets.Avp.{
  Scan, Round, next, break, advance, parse_type, parse_length, raw_value, raw_round, raw_loop,
  take_value, parse_raw, start_scan, pack_length,
}

pub parse_type_inv :
    (size : ℕ) (d : Buffer) (s s₁ : Scan) (t : ℕ)
    → parse_type size d s ≡ ok (some t, s₁)
    → (s.data_offset + 1 < size) × (get_elem? d s.payload ≡ some t) × (s₁ ≡ advance 1 s)
unfolding parse_type
parse_type_inv size d s s₁ t e = ground (arith, load_cases d s.payload, load_inv d s.payload t)

pub parse_length_inv :
    (size : ℕ) (d : Buffer) (o : Option ℕ) (s s₁ : Scan) (t n : ℕ)
    → parse_length size d o s ≡ ok (some (t, n), s₁)
    → (o ≡ some t)
      × (s.data_offset + 1 < size)
      × (get_elem? d s.payload ≡ some n)
      × (s₁ ≡ advance 1 s)
unfolding parse_length
parse_length_inv size d none s s₁ t n e = absurd (cc)
parse_length_inv size d (some t') s s₁ t n e =
    ground (arith, load_cases d s.payload, load_inv d s.payload n)

pub take_value_inv :
    (d : Buffer) (t n : ℕ) (s s' : Scan)
    → take_value d t n s ≡ ok s'
    → (v : List ℕ) × HasAt d s.payload v
      × (length v ≡ (n + 254) % 256)
      × (s'.data_offset ≡ (s.data_offset + (n + 254) % 256) % 65536)
      × (s'.payload ≡ s.payload + (n + 254) % 256)
      × (s'.avps ≡ insert t v s.avps)
unfolding take_value
take_value_inv d t n s s' e =
    let (v, e₁, e₂) = >>=-eq-ok (load_bytes d s.payload ((n + 254) % 256)) _ e in
    let h = load_bytes_inv d s.payload ((n + 254) % 256) v e₁ in
    (v, h.0, h.1, ground arith, ground arith, ground arith)

-- What a round that goes on has read, and where it leaves the loop's variables.
pub record HasRead (size : ℕ) (d : Buffer) (s s' : Scan) : Type 0 where
  pub kind : ℕ
  pub length_byte : ℕ
  pub value : List ℕ
  pub room_for_type : s.data_offset + 1 < size
  pub room_for_length : (s.data_offset + 1) % 65536 + 1 < size
  pub kind_at : get_elem? d s.payload ≡ some kind
  pub length_at : get_elem? d (s.payload + 1) ≡ some length_byte
  pub value_at : HasAt d (s.payload + 1 + 1) value
  pub value_length : length value ≡ (length_byte + 254) % 256
  pub fits : (((s.data_offset + 1) % 65536 + 1) % 65536 + length_byte + 2 ^ 64 - 2) % 2 ^ 64 ≤ size
  pub offset :
      s'.data_offset
      ≡ (((s.data_offset + 1) % 65536 + 1) % 65536 + (length_byte + 254) % 256) % 65536
  pub pointer : s'.payload ≡ s.payload + 1 + 1 + (length_byte + 254) % 256
  pub stored : s'.avps ≡ insert kind value s.avps

break-ne-next :
    (ndebug : Bool) (s s' : Scan) → ((assert ndebug false >> ok (break s)) ≡ ok (next s')) → ⊥
break-ne-next true s s' e = cc
break-ne-next false s s' e = cc

raw_value_inv :
    (ndebug : Bool) (size : ℕ) (d : Buffer) (o : Option (ℕ × ℕ)) (s s' : Scan)
    → raw_value ndebug size d o s ≡ ok (next s')
    → (t : ℕ) × (n : ℕ) × (o ≡ some (t, n))
      × ((s.data_offset + n + 2 ^ 64 - 2) % 2 ^ 64 ≤ size)
      × (take_value d t n s ≡ ok s')
unfolding raw_value
raw_value_inv true size d none s s' e = absurd (cc)
raw_value_inv false size d none s s' e = absurd (cc)
raw_value_inv ndebug size d (some (t, n)) s s' e =
    elim (Bool-cases (leb ((s.data_offset + n + 2 ^ 64 - 2) % 2 ^ 64) size)) [
      | inl yes' ↦
          let (s'', e₁, e₂) = >>=-eq-ok (take_value d t n s) _ (rw yes' at e) in
          (t, n, refl, ground arith, ground arith)
      | inr no' ↦ absurd (break-ne-next ndebug s s' (rw no' at e))
    ]

assemble :
    (size : ℕ) (d : Buffer) (s s₁ s₂ s' : Scan) (t n : ℕ)
    → (s.data_offset + 1 < size) × (get_elem? d s.payload ≡ some t) × (s₁ ≡ advance 1 s)
    → (s₁.data_offset + 1 < size) × (get_elem? d s₁.payload ≡ some n) × (s₂ ≡ advance 1 s₁)
    → (s₂.data_offset + n + 2 ^ 64 - 2) % 2 ^ 64 ≤ size
    → take_value d t n s₂ ≡ ok s'
    → HasRead size d s s'
assemble size d s s₁ s₂ s' t n (room, at, e₁) (room', at', e₂) fit e =
    let (v, held, len, off, ptr, st) = take_value_inv d t n s₂ s' e in
    let o₁ : s₁.data_offset ≡ (s.data_offset + 1) % 65536 = ap (λ (q : Scan). q.data_offset) e₁ in
    let o₂ : s₂.data_offset ≡ (s₁.data_offset + 1) % 65536 = ap (λ (q : Scan). q.data_offset) e₂ in
    let p₁ : s₁.payload ≡ s.payload + 1 = ap (λ (q : Scan). q.payload) e₁ in
    let p₂ : s₂.payload ≡ s₁.payload + 1 = ap (λ (q : Scan). q.payload) e₂ in
    let m : s₂.avps ≡ s.avps = ap (λ (q : Scan). q.avps) e₂ ∙ ap (λ (q : Scan). q.avps) e₁ in
    record {
      kind = t;
      length_byte = n;
      value = v;
      room_for_type = room;
      room_for_length = subst (λ q. q + 1 < size) o₁ room';
      kind_at = at;
      length_at = subst (λ q. get_elem? d q ≡ some n) p₁ at';
      value_at = subst (λ q. HasAt d q v) (p₂ ∙ ap (λ q. q + 1) p₁) held;
      value_length = len;
      fits =
          subst (λ q. (q + n + 2 ^ 64 - 2) % 2 ^ 64 ≤ size) (o₂ ∙ ap (λ q. (q + 1) % 65536) o₁) fit;
      offset = off ∙ ap (λ q. (q + (n + 254) % 256) % 65536) (o₂ ∙ ap (λ q. (q + 1) % 65536) o₁);
      pointer = ptr ∙ ap (λ q. q + (n + 254) % 256) (p₂ ∙ ap (λ q. q + 1) p₁);
      stored = st ∙ ap (λ q. insert t v q) m;
    }

pub raw_round_inv :
    (ndebug : Bool) (size : ℕ) (d : Buffer) (s s' : Scan)
    → raw_round ndebug size d s ≡ ok (next s')
    → HasRead size d s s'
unfolding raw_round
raw_round_inv ndebug size d s s' e =
    let ((o, s₁), e₁, r₁) = >>=-eq-ok (parse_type size d s) _ e in
    let ((p, s₂), e₂, r₂) = >>=-eq-ok (parse_length size d o s₁) _ r₁ in
    let (t, n, e₃, fit, e₄) = raw_value_inv ndebug size d p s₂ s' r₂ in
    let b = parse_length_inv size d o s₁ s₂ t n (e₂ ∙ ap (λ q. ok (q, s₂)) e₃) in
    let a = parse_type_inv size d s s₁ t (e₁ ∙ ap (λ q. ok (q, s₁)) b.0) in
    assemble size d s s₁ s₂ s' t n a (b.1, b.2, b.3) fit e₄

raw_value-ne-stuck :
    (ndebug : Bool) (size : ℕ) (d : Buffer) (o : Option (ℕ × ℕ)) (s : Scan)
    → raw_value ndebug size d o s ≢ stuck
unfolding raw_value take_value
raw_value-ne-stuck true size d none s = λ e. cc
raw_value-ne-stuck false size d none s = λ e. cc
raw_value-ne-stuck ndebug size d (some (t, n)) s =
    ground (arith, load_bytes_cases d s.payload ((n + 254) % 256))

parse_length-ne-stuck :
    (size : ℕ) (d : Buffer) (o : Option ℕ) (s : Scan) → parse_length size d o s ≢ stuck
unfolding parse_length
parse_length-ne-stuck size d none s = λ e. cc
parse_length-ne-stuck size d (some t) s = ground (arith, load_cases d s.payload)

parse_type-ne-stuck : (size : ℕ) (d : Buffer) (s : Scan) → parse_type size d s ≢ stuck
unfolding parse_type
parse_type-ne-stuck size d s = ground (arith, load_cases d s.payload)

>>=-ne-stuck {ℓ κ} :
    {A : Type ℓ} {B : Type κ} (m : Outcome A) (f : A → Outcome B)
    → m ≢ stuck
    → ((a : A) → f a ≢ stuck)
    → (m >>= f) ≢ stuck
>>=-ne-stuck (ok a) f h k = k a
>>=-ne-stuck (fault e) f h k = λ p. cc
>>=-ne-stuck stuck f h k = λ p. h refl

raw_round-ne-stuck :
    (ndebug : Bool) (size : ℕ) (d : Buffer) (s : Scan) → raw_round ndebug size d s ≢ stuck
unfolding raw_round
raw_round-ne-stuck ndebug size d s =
    >>=-ne-stuck (parse_type size d s) _ (parse_type-ne-stuck size d s) λ a.
      >>=-ne-stuck (parse_length size d a.0 a.1) _ (parse_length-ne-stuck size d a.0 a.1)
        λ b. raw_value-ne-stuck ndebug size d b.0 b.1

after_round :
    (ndebug : Bool) (size : ℕ) (d : Buffer) (fuel : ℕ) (s : Scan) (r : Outcome Round)
    → raw_round ndebug size d s ≡ r
    → ltb s.data_offset size ≡ true
    → ((s' : Scan) → r ≡ ok (next s') → raw_loop ndebug size d fuel s' ≢ stuck)
    → raw_loop ndebug size d (suc fuel) s ≢ stuck
unfolding raw_loop
after_round ndebug size d fuel s (ok (next s')) e t h = rw (t, raw_loop) (rw e (h s' refl))
after_round ndebug size d fuel s (ok (break s')) e t h = ground arith
after_round ndebug size d fuel s (fault x) e t h = ground arith
after_round ndebug size d fuel s stuck e t h = absurd (raw_round-ne-stuck ndebug size d s e)

raw_loop-ne-stuck :
    (ndebug : Bool) (size : ℕ) (d : Buffer) (fuel : ℕ) (s : Scan)
    → length d < s.payload + fuel
    → 0 < fuel
    → raw_loop ndebug size d fuel s ≢ stuck
raw_loop-ne-stuck ndebug size d zero s h pos = absurd (omega arith)
raw_loop-ne-stuck ndebug size d (suc fuel) s h pos = elim (Bool-cases (ltb s.data_offset size)) [
  | inr no' ↦ unfold raw_loop in rw (no', raw_loop) (λ e. cc)
  | inl yes' ↦ after_round ndebug size d fuel s (raw_round ndebug size d s) refl yes' λ s' e.
      let r = raw_round_inv ndebug size d s s' e in
      raw_loop-ne-stuck ndebug size d fuel s' (omega (arith, r.pointer))
        (omega (arith, get_elem?-lt d (s.payload + 1) r.length_byte r.length_at))
]

assert-ne-stuck : (ndebug b : Bool) → assert ndebug b ≢ stuck
assert-ne-stuck ndebug true = λ e. cc
assert-ne-stuck true false = λ e. cc
assert-ne-stuck false false = λ e. cc

-- Parsing ends on every buffer, with or without assertions, whatever the sizes are.
pub parse_raw-ne-stuck :
    (ndebug : Bool) (d : Buffer) (h packet_size : ℕ) → parse_raw ndebug d h packet_size ≢ stuck
unfolding parse_raw
parse_raw-ne-stuck ndebug d h packet_size =
    >>=-ne-stuck (assert ndebug (pack_length d h == packet_size)) _
      (assert-ne-stuck ndebug (pack_length d h == packet_size))
      λ _. raw_loop-ne-stuck ndebug _ d (length d + 1) (start_scan h) (omega arith) (omega arith)
