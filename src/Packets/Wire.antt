-- ===== src/Packets/Wire.antt =====
-- Loads from the receive buffer and the byte order functions that the packet classes call.
-- The host is little-endian: a `uint16_t` at an address has its low byte first.
use traffic_inspector.Base.{
  ℕ, ◌+◌, ◌*◌, ◌/◌, ◌%◌, ◌-◌, ◌^◌, ◌<◌, ◌≡◌, List, All, get_or, arith, [], ◌∷◌, zero, suc,
}

-- The bytes that `ETHPacket::m_data` points to.
abbrev pub Buffer : Type 0
Buffer = List ℕ

-- BasePacket::MAX_PACKET_SIZE, the length of every buffer.
abbrev pub max_packet_size : ℕ
max_packet_size = 4096

abbrev pub IsByte : ℕ → Type 0
IsByte b = b < 256

-- Header fields lie inside the buffer, so the default is not met there.
abbrev pub byte_at : Buffer → ℕ → ℕ
byte_at d i = get_or d i 0

abbrev pub u16_at : Buffer → ℕ → ℕ
u16_at d i = byte_at d i + 256 * byte_at d (i + 1)

abbrev pub u32_at : Buffer → ℕ → ℕ
u32_at d i =
    byte_at d i + 256 * byte_at d (i + 1) + 65536 * byte_at d (i + 2) + 16777216 * byte_at d (i + 3)

-- On a `uint16_t` and on a `uint32_t`.
abbrev pub ntohs : ℕ → ℕ
ntohs v = v % 256 * 256 + v / 256 % 256

abbrev pub ntohl : ℕ → ℕ
ntohl v = v % 256 * 16777216 + v / 256 % 256 * 65536 + v / 65536 % 256 * 256 + v / 16777216 % 256

pub byte_at-IsByte : (d : Buffer) (i : ℕ) → All IsByte d → byte_at d i < 256
byte_at-IsByte [] i h = omega arith
byte_at-IsByte (x ∷ d) zero h = h.0
byte_at-IsByte (x ∷ d) (suc i) h = byte_at-IsByte d i h.1

-- `ntohs` of a loaded field reads the two bytes in network order.
pub ntohs-u16_at :
    (d : Buffer) (i : ℕ) → All IsByte d → ntohs (u16_at d i) ≡ byte_at d i * 256 + byte_at d (i + 1)
ntohs-u16_at d i h = omega (arith, byte_at-IsByte d i h, byte_at-IsByte d (i + 1) h)

-- `a - b` on a `size_t`.
abbrev pub sub64 : ℕ → ℕ → ℕ
sub64 a b = (a + 2 ^ 64 - b) % 2 ^ 64
