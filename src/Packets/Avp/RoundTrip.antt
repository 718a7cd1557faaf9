-- ===== src/Packets/Avp/RoundTrip.antt =====
-- The loop of RADIUSPacket(RawPacketsPoolItem &&) on attributes that were encoded
-- (src/Packets/RADIUSPacket.cpp).
use traffic_inspector.Base.{
  ℕ, zero, suc, ◌+◌, ◌%◌, ◌≤◌, ◌<◌, ◌≡◌, refl, ap, ◌∙◌, List, [], ◌∷◌, length, All, Bool, ok, arith,
  subst, length-append, ==_refl, min, get_elem?, some,
}
use traffic_inspector.Packets.Wire.{Buffer}
use traffic_inspector.Packets.Avp.Storage.{AvpStorage, insert, find, IsSorted}
use traffic_inspector.Packets.Avp.Memory.{HasAt, load_ok, load_bytes_ok, HasAt-append, HasAt-length}
use traffic_inspector.Packets.Avp.Encoding.{
  Attribute, IsProper, encode, encode_attribute, store, store-IsSorted, first_value, find-store,
}
use traffic_inspector.Packets.Avp.{
  parse_type, parse_length, raw_value, Scan, next, raw_round, raw_loop, take_value, parse_raw,
  pack_length, start_scan,
}

-- What a round leaves behind when it has read the attribute.
pub record Took (a : Attribute) (s s' : Scan) : Type 0 where
  pub offset : s'.data_offset ≡ s.data_offset + (length a.value + 2)
  pub pointer : s'.payload ≡ s.payload + (length a.value + 2)
  pub stored : s'.avps ≡ insert a.kind a.value s.avps

take_value_step :
    (d : Buffer) (a : Attribute) (s : Scan)
    → IsProper a
    → s.data_offset + length a.value < 65536
    → HasAt d s.payload a.value
    → take_value d a.kind (length a.value + 2) s
      ≡ ok (record {
        data_offset = s.data_offset + length a.value;
        payload = s.payload + length a.value;
        avps = insert a.kind a.value s.avps;
      })
unfolding take_value
take_value_step d a s proper low h =
    let e : (length a.value + 2 + 254) % 256 ≡ length a.value = omega arith in
    rw (e, load_bytes_ok d s.payload a.value h) (ground arith)

-- The scan `n` bytes on, where the offset does not wrap.
abbrev moved : ℕ → Scan → Scan
moved n s = record s { data_offset = s.data_offset + n; payload = s.payload + n }

parse_type_step :
    (size : ℕ) (d : Buffer) (s : Scan) (t : ℕ)
    → s.data_offset + 1 < size
    → size < 65536
    → get_elem? d s.payload ≡ some t
    → parse_type size d s ≡ ok (some t, moved 1 s)
unfolding parse_type
parse_type_step size d s t h small e = ground (arith, load_ok d s.payload t)

parse_length_step :
    (size : ℕ) (d : Buffer) (s : Scan) (t n : ℕ)
    → s.data_offset + 1 < size
    → size < 65536
    → get_elem? d s.payload ≡ some n
    → parse_length size d (some t) s ≡ ok (some (t, n), moved 1 s)
unfolding parse_length
parse_length_step size d s t n h small e = ground (arith, load_ok d s.payload n)

raw_round_step :
    (ndebug : Bool) (size : ℕ) (d : Buffer) (a : Attribute) (s : Scan)
    → IsProper a
    → size < 65536
    → s.data_offset + (length a.value + 2) ≤ size
    → HasAt d s.payload (a.kind ∷ ((length a.value + 2) % 256) ∷ a.value)
    → (s' : Scan) × (raw_round ndebug size d s ≡ ok (next s')) × Took a s s'
unfolding raw_round raw_value
raw_round_step ndebug size d a s proper small fits (ht, (hn, hv)) =
    let n : (length a.value + 2) % 256 ≡ length a.value + 2 = omega arith in
    (
      record {
        data_offset = s.data_offset + 1 + 1 + length a.value;
        payload = s.payload + 1 + 1 + length a.value;
        avps = insert a.kind a.value s.avps;
      },
      rw
          (
            parse_type_step size d s a.kind (omega arith) small ht,
            parse_length_step size d (moved 1 s) a.kind _ (omega arith) small hn,
            n,
          )
          (ground (arith, take_value_step d a (moved 1 (moved 1 s)) proper (omega arith) hv)),
      record { offset = omega arith; pointer = omega arith; stored = refl },
    )

raw_loop_step :
    (ndebug : Bool) (size : ℕ) (d : Buffer) (fuel : ℕ) (s s' : Scan)
    → s.data_offset < size
    → raw_round ndebug size d s ≡ ok (next s')
    → raw_loop ndebug size d (suc fuel) s ≡ raw_loop ndebug size d fuel s'
unfolding raw_loop
raw_loop_step ndebug size d fuel s s' h e = ground arith

raw_loop_done :
    (ndebug : Bool) (size : ℕ) (d : Buffer) (fuel : ℕ) (s : Scan)
    → size ≤ s.data_offset
    → raw_loop ndebug size d (suc fuel) s ≡ ok s.avps
unfolding raw_loop
raw_loop_done ndebug size d fuel s h = ground arith

-- From any round on, the loop stores all the attributes that end where the packet ends.
pub raw_loop-encode :
    (ndebug : Bool) (size : ℕ) (d : Buffer) (as' : List Attribute) (fuel : ℕ) (s : Scan)
    → All IsProper as'
    → size < 65536
    → s.data_offset + length (encode as') ≡ size
    → HasAt d s.payload (encode as')
    → length as' < fuel
    → raw_loop ndebug size d fuel s ≡ ok (store as' s.avps)
unfolding store
raw_loop-encode ndebug size d as' zero s proper small fits h enough = absurd (omega arith)
raw_loop-encode ndebug size d [] (suc fuel) s proper small fits h enough =
    raw_loop_done ndebug size d fuel s (omega arith)
raw_loop-encode ndebug size d (a ∷ as') (suc fuel) s proper small fits h enough =
    let split = HasAt-append d s.payload (encode_attribute a) (encode as') h in
    let len = length-append a.value (encode as') in
    let (s', e, took) =
      raw_round_step ndebug size d a s proper.0 small (omega (arith, len)) split.0 in
    let at : HasAt d s'.payload (encode as') =
      subst (λ q. HasAt d q (encode as')) (omega (arith, took.pointer)) split.1 in
    raw_loop_step ndebug size d fuel s s' (omega (arith, len)) e
    ∙ raw_loop-encode ndebug size d as' fuel s' proper.1 small (omega (arith, len, took.offset)) at
        (omega arith)
    ∙ ap (λ m. ok (store as' m)) took.stored

length-le-encode : (as' : List Attribute) → length as' ≤ length (encode as')
length-le-encode [] = omega arith
length-le-encode (a ∷ as') = omega (arith, length-le-encode as', length-append a.value (encode as'))

-- A RADIUS packet at offset `h` of less than 65536 bytes, whose Length field is the UDP payload's
-- size and whose attributes are an encoding of values of 1 to 253 bytes, is parsed to exactly
-- these: each type has the value of its first attribute, and types that do not occur have none.
pub parse_raw-encode :
    (ndebug : Bool) (d : Buffer) (h packet_size : ℕ) (as' : List Attribute)
    → All IsProper as'
    → packet_size < 65536
    → packet_size ≡ 20 + length (encode as')
    → pack_length d h ≡ packet_size
    → HasAt d (h + 20) (encode as')
    → (m : AvpStorage) × (parse_raw ndebug d h packet_size ≡ ok m)
      × IsSorted m
      × ((k : ℕ) → find k m ≡ first_value k as')
unfolding parse_raw find
parse_raw-encode ndebug d h packet_size as' proper small fits len at = (
  store as' [],
  rw (len, ==_refl packet_size)
      (let n : min packet_size packet_size % 65536 ≡ packet_size = omega arith in
        rw n (
          raw_loop-encode ndebug packet_size d as' (length d + 1) (start_scan h) proper small
            (omega arith) at
            (omega (arith, length-le-encode as', HasAt-length d (h + 20) (encode as') at)))),
  store-IsSorted as' [] tt,
  λ k. find-store k as' [] tt refl,
)
