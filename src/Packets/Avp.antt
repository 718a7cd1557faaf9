-- ===== src/Packets/Avp.antt =====
-- The attribute loops of the RADIUSPacket constructors (src/Packets/RADIUSPacket.cpp) and the map
-- that they fill (`AVPStorage`, include/Packets/RADIUSPacket.h).
pub mod Storage
pub mod Memory
pub mod Encoding
pub mod Total
pub mod Bounds
pub mod RoundTrip
pub mod Sound
pub mod Endless
pub mod Print
mod Tests
use traffic_inspector.Base.{
  ℕ, zero, suc, ◌+◌, ◌-◌, ◌%◌, ◌^◌, min, Option, none, some, List, [], ltb, leb, ◌==◌, length,
  if◌then◌else◌, Bool, true, false, Outcome, ok, stuck, ◌>>=◌, ◌>>◌, assert,
}
use traffic_inspector.Packets.Wire.{Buffer, u16_at, ntohs}
use Storage.{AvpStorage, insert}
use Memory.{load, load_bytes}

-- The variables that a round of the loop changes: the `uint16_t` offset, the pointer, the map.
pub record Scan : Type 0 where
  pub data_offset : ℕ
  pub payload : ℕ
  pub avps : AvpStorage

-- How a round ends: with the next test of the loop, or by `break`.
pub data Round : Type 0 where
  next : Scan → Round
  break : Scan → Round

-- `dataOffset += n; payload += n`.
abbrev pub advance : ℕ → Scan → Scan
advance n s = record s { data_offset = (s.data_offset + n) % 65536; payload = s.payload + n }

-- The first block of a round; the type is `none` while `atrParsed` is false.
unfoldable pub parse_type : ℕ → Buffer → Scan → Outcome (Option ℕ × Scan)
unfolding load
parse_type size d s =
    if ltb (s.data_offset + 1) size
    then (load d s.payload >>= λ t. ok (some t, advance 1 s))
    else ok (none, s)

-- The second block; the length is `none` while `lenParsed` is false.
unfoldable pub parse_length : ℕ → Buffer → Option ℕ → Scan → Outcome (Option (ℕ × ℕ) × Scan)
unfolding load
parse_length size d none s = ok (none, s)
parse_length size d (some t) s =
    if ltb (s.data_offset + 1) size
    then (load d s.payload >>= λ n. ok (some (t, n), advance 1 s))
    else ok (none, s)

-- The body of the third block: `length -= 2` on a `uint8_t`, the copy, and the insertion.
unfoldable pub take_value : Buffer → ℕ → ℕ → Scan → Outcome Scan
unfolding load_bytes
take_value d t n s =
    let length' = (n + 254) % 256 in
    load_bytes d s.payload length' >>= λ v.
    let s' = advance length' s in ok (record s' { avps = insert t v s'.avps })

-- RADIUSPacket(RawPacketsPoolItem &&): the value must end by `size`; the sum is a `size_t`.
unfoldable pub raw_value : Bool → ℕ → Buffer → Option (ℕ × ℕ) → Scan → Outcome Round
unfolding take_value
raw_value ndebug size d none s = assert ndebug false >> ok (break s)
raw_value ndebug size d (some (t, n)) s =
    if leb ((s.data_offset + n + 2 ^ 64 - 2) % 2 ^ 64) size
    then (take_value d t n s >>= λ s'. ok (next s'))
    else (assert ndebug false >> ok (break s))

unfoldable pub raw_round : Bool → ℕ → Buffer → Scan → Outcome Round
unfolding parse_type parse_length raw_value
raw_round ndebug size d s = do
  (t, s₁) ← parse_type size d s
  (tn, s₂) ← parse_length size d t s₁
  raw_value ndebug size d tn s₂

unfoldable pub raw_loop : Bool → ℕ → Buffer → ℕ → Scan → Outcome AvpStorage
unfolding raw_round
raw_loop ndebug size d zero s = stuck
raw_loop ndebug size d (suc fuel) s = elim (ltb s.data_offset size) [
  | true ↦ raw_round ndebug size d s >>= λ r. elim r [
    | next s' ↦ raw_loop ndebug size d fuel s'
    | break s' ↦ ok s'.avps
  ]
  | false ↦ ok s.avps
]

-- RADIUSPacket(UDPPacket &&): the value must end before `size`, on `int`; nothing ends the loop
-- where the round makes no progress.
unfoldable pub udp_value : ℕ → Buffer → Option (ℕ × ℕ) → Scan → Outcome Scan
unfolding take_value
udp_value size d none s = ok s
udp_value size d (some (t, n)) s =
    if ltb (s.data_offset + n) (size + 2) then take_value d t n s else ok s

unfoldable pub udp_round : ℕ → Buffer → Scan → Outcome Scan
unfolding parse_type parse_length udp_value
udp_round size d s = do
  (t, s₁) ← parse_type size d s
  (tn, s₂) ← parse_length size d t s₁
  udp_value size d tn s₂

unfoldable pub udp_loop : ℕ → Buffer → ℕ → Scan → Outcome AvpStorage
unfolding udp_round
udp_loop size d zero s = stuck
udp_loop size d (suc fuel) s = elim (ltb s.data_offset size) [
  | true ↦ udp_round size d s >>= λ s'. udp_loop size d fuel s'
  | false ↦ ok s.avps
]

-- The values before the loop, for a RADIUS header at offset `h`: `size` is a `uint16_t`,
-- `dataOffset` starts at sizeof(radiusheader).
abbrev pub start_scan : ℕ → Scan
start_scan h = record { data_offset = 20; payload = h + 20; avps = [] }

abbrev pub pack_length : Buffer → ℕ → ℕ
pack_length d h = ntohs (u16_at d (h + 2))

-- The constructors' bodies from `pack_lenght` on. Each round reads the buffer at `payload` and
-- moves it on, so the length of the buffer is enough fuel for the first.
unfoldable pub parse_raw : Bool → Buffer → ℕ → ℕ → Outcome AvpStorage
unfolding raw_loop
parse_raw ndebug d h packet_size = do
  assert ndebug (pack_length d h == packet_size)
  raw_loop ndebug (min packet_size (pack_length d h) % 65536) d (length d + 1) (start_scan h)

unfoldable pub parse_udp : Bool → ℕ → Buffer → ℕ → ℕ → Outcome AvpStorage
unfolding udp_loop
parse_udp ndebug fuel d h packet_size = do
  assert ndebug (pack_length d h == packet_size)
  udp_loop (min packet_size (pack_length d h) % 65536) d fuel (start_scan h)
