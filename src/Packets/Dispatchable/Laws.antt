-- ===== src/Packets/Dispatchable/Laws.antt =====
-- The tests of Dispatchable against a reading of the bytes of the frame.
use traffic_inspector.Base.{
  Bool, ◌&&◌, ◌||◌, ◌==◌, if◌then◌else◌, ℕ, zero, suc, ◌+◌, ◌*◌, ◌≡◌, ◌≢◌, ◌⊎◌, ◌↔◌, refl, All,
  arith, fault, stack_overflow,
}
use traffic_inspector.Packets.Wire.{Buffer, byte_at, IsByte, ntohs-u16_at, byte_at-IsByte}
use traffic_inspector.Packets.Types.{eth}
use traffic_inspector.Packets.Dispatchable.{
  Verdict, rejects, accepts, udp_is_dispatchable, tcp_is_dispatchable, radius_is_dispatchable,
  eth_is_dispatchable, is_dispatchable_type,
}

abbrev pub IsRadiusPort : ℕ → ℕ → Type 0
IsRadiusPort hi lo = (hi * 256 + lo ≡ 1812) ⊎ (hi * 256 + lo ≡ 1813)

pub udp_accepts :
    (d : Buffer)
    → All IsByte d
    → (udp_is_dispatchable d ≡ accepts 34)
      ↔ ((byte_at d 12 ≡ 8) × (byte_at d 13 ≡ 0) × (byte_at d 23 ≡ 17))
unfolding udp_is_dispatchable
udp_accepts d h = ground (arith, byte_at-IsByte d 12 h, byte_at-IsByte d 13 h)

pub tcp_accepts :
    (d : Buffer)
    → All IsByte d
    → (tcp_is_dispatchable d ≡ accepts 34)
      ↔ ((byte_at d 12 ≡ 8) × (byte_at d 13 ≡ 0) × (byte_at d 23 ≡ 6))
unfolding tcp_is_dispatchable
tcp_accepts d h = ground (arith, byte_at-IsByte d 12 h, byte_at-IsByte d 13 h)

pub radius_accepts :
    (d : Buffer)
    → All IsByte d
    → (radius_is_dispatchable d ≢ rejects) ↔ (
        (udp_is_dispatchable d ≡ accepts 34)
        × (IsRadiusPort (byte_at d 34) (byte_at d 35) ⊎ IsRadiusPort (byte_at d 36) (byte_at d 37)))
unfolding radius_is_dispatchable
radius_accepts d h = ground (arith, ntohs-u16_at d 34 h, ntohs-u16_at d 36 h)

pub eth_is_dispatchable_overflows :
    (depth : ℕ) (d : Buffer) → is_dispatchable_type eth depth d ≡ fault stack_overflow
unfolding is_dispatchable_type eth_is_dispatchable
eth_is_dispatchable_overflows zero d = refl
eth_is_dispatchable_overflows (suc depth) d = eth_is_dispatchable_overflows depth d

-- The kind of traffic that a frame carries, read off its bytes: Ethernet type 0x0800, IP protocol
-- 17 or 6, and a RADIUS port on either side.
pub data Traffic : Type 0 where
  radius_traffic udp_traffic tcp_traffic other_traffic : Traffic

abbrev pub is_radius_port : ℕ → ℕ → Bool
is_radius_port hi lo = hi * 256 + lo == 1812 || hi * 256 + lo == 1813

unfoldable pub classify : Buffer → Traffic
classify d =
    if byte_at d 12 == 8 && byte_at d 13 == 0
    then (if byte_at d 23 == 17
        then (if is_radius_port (byte_at d 34) (byte_at d 35)
              || is_radius_port (byte_at d 36) (byte_at d 37)
            then radius_traffic
            else udp_traffic)
        else (if byte_at d 23 == 6 then tcp_traffic else other_traffic))
    else other_traffic

-- The answers that the four tests give to a kind of traffic.
abbrev pub udp_answer : Traffic → Verdict
udp_answer radius_traffic = accepts 34
udp_answer udp_traffic = accepts 34
udp_answer tcp_traffic = rejects
udp_answer other_traffic = rejects

abbrev pub tcp_answer : Traffic → Verdict
tcp_answer radius_traffic = rejects
tcp_answer udp_traffic = rejects
tcp_answer tcp_traffic = accepts 34
tcp_answer other_traffic = rejects

-- The offset that is 20 behind the UDP header, where the RADIUS header is at 42.
abbrev pub radius_answer : Traffic → Verdict
radius_answer radius_traffic = accepts 54
radius_answer udp_traffic = rejects
radius_answer tcp_traffic = rejects
radius_answer other_traffic = rejects

-- Every frame gets from the three tests the answers of its kind of traffic.
pub dispatchable_answers :
    (d : Buffer)
    → All IsByte d
    → (udp_is_dispatchable d ≡ udp_answer (classify d))
      × (tcp_is_dispatchable d ≡ tcp_answer (classify d))
      × (radius_is_dispatchable d ≡ radius_answer (classify d))
unfolding udp_is_dispatchable tcp_is_dispatchable radius_is_dispatchable classify
dispatchable_answers d h =
    let a = byte_at-IsByte d 12 h in
    let b = byte_at-IsByte d 13 h in
    let s = ntohs-u16_at d 34 h in
    let t = ntohs-u16_at d 36 h in (ground arith, ground arith, ground arith)
