-- ===== src/Packets/Ip/Laws.antt =====
-- The address that `inetIpToString` prints (src/Packets/IPPacket.cpp).
use traffic_inspector.Base.{ℕ, ◌+◌, ◌≡◌, All, arith}
use traffic_inspector.Packets.Wire.{Buffer, byte_at, byte_at-IsByte, u32_at, IsByte}
use traffic_inspector.Packets.Ip.{inet_ip_octets}

-- An address in the frame is printed as its four bytes, in the order of the frame.
pub inet_ip_octets-u32_at :
    (d : Buffer) (i : ℕ)
    → All IsByte d
    → inet_ip_octets (u32_at d i)
      ≡ (byte_at d i, byte_at d (i + 1), byte_at d (i + 2), byte_at d (i + 3))
unfolding inet_ip_octets
inet_ip_octets-u32_at d i h =
    let a = byte_at-IsByte d i h in
    let b = byte_at-IsByte d (i + 1) h in
    let c = byte_at-IsByte d (i + 2) h in let e = byte_at-IsByte d (i + 3) h in ground arith
