-- ===== src/Packets/Texts.antt =====
-- The texts of the packets: `to_string` of include/Packets/BasePacket.h and the `to_stringImpl` of
-- src/Packets/*.cpp. The headers of a packet point into the buffer that its pool item owns.
pub mod Moves
pub mod Address
mod Tests
use traffic_inspector.Base.{
  ℕ, ◌+◌, List, [], ◌∷◌, ◌++◌, Option, none, some, Outcome, ok, ◌>>=◌, deref, Text, codes, decimal,
}
use traffic_inspector.Packets.Types.{
  PacketType, udp, tcp, radius_udp, ControlMessageId, packet_type_to_string,
  control_message_id_to_string,
}
use traffic_inspector.Packets.Wire.{Buffer, byte_at, u16_at, u32_at, ntohs}
use traffic_inspector.Packets.Eth.{EthPacket}
use traffic_inspector.Packets.Ip.{IpPacket, inet_ip_octets}
use traffic_inspector.Packets.Udp.{UdpPacket}
use traffic_inspector.Packets.Tcp.{TcpPacket}
use traffic_inspector.Packets.Radius.{RadiusPacket, packet_buffer}

-- `ether_type` is printed as it is stored.
unfoldable pub eth_to_string : EthPacket → Outcome Text
eth_to_string p = deref p.eth_header >>= λ h.
    deref p.m_data >>= λ d. ok (codes "ether_type: " ++ decimal (u16_at d (h + 12)))

-- `inetIpToString`.
unfoldable pub octets_to_string : ℕ × ℕ × ℕ × ℕ → Text
octets_to_string (i1, i2, i3, i4) =
    decimal i1
    ++ (codes "." ++ (decimal i2 ++ (codes "." ++ (decimal i3 ++ (codes "." ++ decimal i4)))))

unfoldable pub inet_ip_to_string : ℕ → Text
unfolding octets_to_string inet_ip_octets
inet_ip_to_string ip = octets_to_string (inet_ip_octets ip)

-- `tot_len` is at 2 in the header, `saddr` at 12 and `daddr` at 16.
ip_fields : Buffer → ℕ → Text
unfolding inet_ip_to_string
ip_fields d h =
    codes ", ip total size: "
    ++ (decimal (ntohs (u16_at d (h + 2)))
        ++ (codes ", src ip: "
            ++ (inet_ip_to_string (u32_at d (h + 12))
                ++ (codes ", dst ip: " ++ inet_ip_to_string (u32_at d (h + 16))))))

unfoldable pub ip_to_string : IpPacket → Outcome Text
unfolding eth_to_string ip_fields
ip_to_string p = elim p.m_prev_layer_packet [
  | none ↦ ok (codes "EMPTY")
  | some raw ↦ eth_to_string raw >>= λ ret.
      deref p.m_ip_header >>= λ h. deref raw.m_data >>= λ d. ok (ret ++ ip_fields d h)
]

-- Source and destination port are at 0 and 2 in the headers of UDP and of TCP.
port_fields : Buffer → ℕ → Text
port_fields d h =
    codes ", src_port: "
    ++ (decimal (ntohs (u16_at d h)) ++ (codes ", dst_port:" ++ decimal (ntohs (u16_at d (h + 2)))))

-- The buffer of the pool item behind an IP packet.
abbrev ip_buffer : IpPacket → Outcome Buffer
ip_buffer p = deref p.m_prev_layer_packet >>= λ raw. deref raw.m_data

unfoldable pub udp_to_string : UdpPacket → Outcome Text
unfolding ip_to_string port_fields
udp_to_string p = ip_to_string p.m_prev_layer_packet >>= λ ret. elim p.udp_header [
  | none ↦ ok ret
  | some h ↦ ip_buffer p.m_prev_layer_packet >>= λ d. ok (ret ++ port_fields d h)
]

unfoldable pub tcp_to_string : TcpPacket → Outcome Text
unfolding ip_to_string port_fields
tcp_to_string p = ip_to_string p.m_prev_layer_packet >>= λ ret. elim p.tcp_header [
  | none ↦ ok ret
  | some h ↦ ip_buffer p.m_prev_layer_packet >>= λ d. ok (ret ++ port_fields d h)
]

-- The code is at 0 in the header, the identifier at 1 and the length at 2.
radius_fields : Buffer → ℕ → Text
radius_fields d h =
    codes ", code: "
    ++ (decimal (byte_at d h)
        ++ (codes ", packetIdentifier: "
            ++ (decimal (byte_at d (h + 1))
                ++ (codes ", length: " ++ decimal (ntohs (u16_at d (h + 2)))))))

unfoldable pub radius_to_string : RadiusPacket → Outcome Text
unfolding udp_to_string radius_fields
radius_to_string p = udp_to_string p.m_prev_layer_packet >>= λ ret. elim p.radius_header [
  | none ↦ ok ret
  | some h ↦ packet_buffer p.m_prev_layer_packet >>= λ d. ok (ret ++ radius_fields d h)
]

-- `BasePacket::to_string`.
unfoldable pub base_to_string : PacketType → ControlMessageId → Outcome Text → Outcome Text
base_to_string t m impl = impl >>= λ ret. ok (
    codes (packet_type_to_string t)
    ++ (codes ",  ControlMessageId: "
        ++ (codes (control_message_id_to_string m) ++ (codes ", " ++ ret))))
