-- ===== src/Packets/Avp/Sound.antt =====
-- What the loop of RADIUSPacket(RawPacketsPoolItem &&) has accepted when it returns
-- (src/Packets/RADIUSPacket.cpp).
use traffic_inspector.Base.{
  ℕ, zero, suc, ◌+◌, ◌-◌, ◌%◌, ◌^◌, ◌≤◌, ◌<◌, ◌≡◌, ◌≢◌, refl, ap, ◌∙◌, List, [], ◌∷◌, length, false,
  ok, stuck, Outcome, arith, get_elem?, >>=-eq-ok, ltb, ◌>>=◌, ◌>>◌, assert, if◌then◌else◌, min,
  All, some, Option, none, leb, ==_iff, assert_inv, sym, Bool-cases, inl, inr, ◌⊎◌, fault, ◌==◌,
  subst, length-append,
}
use traffic_inspector.Packets.Wire.{Buffer, IsByte}
use traffic_inspector.Packets.Avp.Storage.{AvpStorage}
use traffic_inspector.Packets.Avp.Memory.{HasAt, append-HasAt}
use traffic_inspector.Packets.Avp.Encoding.{Attribute, encode, encode_attribute, store}
use traffic_inspector.Packets.Avp.{
  parse_type, parse_length, take_value, Scan, Round, next, break, raw_round, raw_value, raw_loop,
  parse_raw, start_scan, pack_length,
}
use traffic_inspector.Packets.Avp.Total.{HasRead, raw_round_inv}

-- Some attribute has a value longer than a length byte can announce.
abbrev pub HasOverlong : List Attribute → Type 0
HasOverlong [] = ⊥
HasOverlong (a ∷ as') = (254 ≤ length a.value) ⊎ HasOverlong as'

-- The attributes end at `size`, or one is overlong, or the loop began past `size`.
abbrev pub Ends : ℕ → ℕ → List Attribute → Type 0
Ends size off as' = (off + length (encode as') ≡ size) ⊎ HasOverlong as' ⊎ (size < off)

pub record Parsed (size : ℕ) (d : Buffer) (s : Scan) (m : AvpStorage) : Type 0 where
  pub attributes : List Attribute
  pub held : HasAt d s.payload (encode attributes)
  pub ends : Ends size s.data_offset attributes
  pub stored : m ≡ store attributes s.avps

get_elem?-IsByte : (d : Buffer) (i b : ℕ) → All IsByte d → get_elem? d i ≡ some b → b < 256
get_elem?-IsByte [] i b h e = absurd (cc)
get_elem?-IsByte (x ∷ d) zero b h e = ground arith
get_elem?-IsByte (x ∷ d) (suc i) b h e = get_elem?-IsByte d i b h.1 e

raw_value-ne-break :
    (size : ℕ) (d : Buffer) (o : Option (ℕ × ℕ)) (s s' : Scan)
    → raw_value false size d o s ≢ ok (break s')
unfolding raw_value
raw_value-ne-break size d none s s' = λ e. cc
raw_value-ne-break size d (some (t, n)) s s' = go (take_value d t n s)
  where
    go :
        (r : Outcome Scan)
        → (if leb ((s.data_offset + n + 2 ^ 64 - 2) % 2 ^ 64) size
            then (r >>= λ x. ok (next x))
            else (assert false false >> ok (break s)))
          ≢ ok (break s')
    go (ok x) = ground arith
    go (fault x) = ground arith
    go stuck = ground arith

raw_round-ne-break :
    (size : ℕ) (d : Buffer) (s s' : Scan) → raw_round false size d s ≢ ok (break s')
unfolding raw_round
raw_round-ne-break size d s s' e =
    let ((o, s₁), e₁, r₁) = >>=-eq-ok (parse_type size d s) _ e in
    let ((p, s₂), e₂, r₂) = >>=-eq-ok (parse_length size d o s₁) _ r₁ in
    raw_value-ne-break size d p s₂ s' r₂

extend :
    (size : ℕ) (d : Buffer) (s s' : Scan) (m : AvpStorage)
    → All IsByte d
    → size + 257 ≤ 65536
    → s.data_offset < size
    → HasRead size d s s'
    → Parsed size d s' m
    → Parsed size d s m
unfolding store
extend size d s s' m bytes small low r p =
    let a : Attribute = record { kind = r.kind; value = r.value } in
    let n = get_elem?-IsByte d (s.payload + 1) r.length_byte bytes r.length_at in
    let len : (length r.value + 2) % 256 ≡ r.length_byte = omega (arith, r.value_length) in
    let off : s'.data_offset ≡ s.data_offset + 2 + length r.value =
      omega (arith, r.offset, r.value_length, r.room_for_type) in
    let whole = length-append r.value (encode p.attributes) in
    record {
      attributes = a ∷ p.attributes;
      held =
          append-HasAt d s.payload (encode_attribute a) (encode p.attributes)
            (r.kind_at, (r.length_at ∙ ap some (sym len), r.value_at))
            (subst (λ q. HasAt d q (encode p.attributes)) (omega (arith, r.pointer, r.value_length))
              p.held);
      ends = elim p.ends [
        | inl e ↦ inl (omega (arith, whole))
        | inr (inl o) ↦ inr (inl (inr o))
        | inr (inr o) ↦ inr (inl (inl (omega (arith, r.fits, r.value_length, r.room_for_length))))
      ];
      stored = p.stored ∙ ap (λ q. store p.attributes q) r.stored;
    }

-- A loop that returned has made a round and gone on, or has met its end.
raw_loop_inv :
    (size : ℕ) (d : Buffer) (fuel : ℕ) (s : Scan) (m : AvpStorage) (r : Outcome Round)
    → raw_round false size d s ≡ r
    → raw_loop false size d (suc fuel) s ≡ ok m
    → ((size ≤ s.data_offset) × (m ≡ s.avps))
      ⊎ ((s' : Scan) × (s.data_offset < size)
          × (raw_round false size d s ≡ ok (next s'))
          × (raw_loop false size d fuel s' ≡ ok m))
unfolding raw_loop
raw_loop_inv size d fuel s m (ok (break s')) e h = absurd (raw_round-ne-break size d s s' e)
raw_loop_inv size d fuel s m (ok (next s')) e h = elim (Bool-cases (ltb s.data_offset size)) [
  | inl t ↦ inr (s', ground arith, e, ground arith)
  | inr t ↦ inl (ground arith, ground arith)
]
raw_loop_inv size d fuel s m (fault x) e h = inl (ground arith, ground arith)
raw_loop_inv size d fuel s m stuck e h = inl (ground arith, ground arith)

raw_loop-Parsed :
    (size : ℕ) (d : Buffer) (fuel : ℕ) (s : Scan) (m : AvpStorage)
    → All IsByte d
    → size + 257 ≤ 65536
    → raw_loop false size d fuel s ≡ ok m
    → Parsed size d s m
unfolding store
raw_loop-Parsed size d zero s m bytes small e = absurd (unfold raw_loop in cc)
raw_loop-Parsed size d (suc fuel) s m bytes small e =
    elim (raw_loop_inv size d fuel s m (raw_round false size d s) refl e) [
      | inl (end, same) ↦ record { attributes = []; held = tt; ends = ground arith; stored = same }
      | inr (s', low, step, rest) ↦
          extend size d s s' m bytes small low (raw_round_inv false size d s s' step)
            (raw_loop-Parsed size d fuel s' m bytes small rest)
    ]

-- If the buffer holds bytes, the packet has 20 to 65279 of them, assertions are on and parsing
-- returns, then the Length field is the size of the UDP payload,
-- and the map stores the attributes whose encoding stands behind the header. They end where the
-- packet ends, unless one of them has 254 or 255 bytes of value.
pub parse_raw_sound :
    (d : Buffer) (h packet_size : ℕ) (m : AvpStorage)
    → All IsByte d
    → 20 ≤ packet_size
    → packet_size ≤ 65279
    → parse_raw false d h packet_size ≡ ok m
    → (pack_length d h ≡ packet_size)
      × ((as' : List Attribute) × HasAt d (h + 20) (encode as')
          × (m ≡ store as' [])
          × ((20 + length (encode as') ≡ packet_size) ⊎ HasOverlong as'))
unfolding parse_raw
parse_raw_sound d h packet_size m bytes lo hi e =
    let (t, run) = assert_inv (pack_length d h == packet_size) _ e in
    let eq : pack_length d h ≡ packet_size = (==_iff _ _).0 t in
    let n : min packet_size (pack_length d h) % 65536 ≡ packet_size = omega arith in
    let p : Parsed packet_size d (start_scan h) m =
      raw_loop-Parsed packet_size d (length d + 1) (start_scan h) m bytes (omega arith)
        (rw n at run) in
    (eq, (p.attributes, p.held, p.stored, ends_inside p.attributes p.ends))
  where
    ends_inside :
        (as' : List Attribute)
        → Ends packet_size 20 as'
        → (20 + length (encode as') ≡ packet_size) ⊎ HasOverlong as'
    ends_inside as' (inl e) = inl e
    ends_inside as' (inr (inl o)) = inr o
    ends_inside as' (inr (inr h)) = absurd (omega arith)
