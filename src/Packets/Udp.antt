-- ===== src/Packets/Udp.antt =====
-- UDPPacket: include/Packets/UDPPacket.h and src/Packets/UDPPacket.cpp.
use traffic_inspector.Base.{ℕ, ◌+◌, Option, none, some, Outcome, ok, ◌>>=◌}
use traffic_inspector.Packets.Types.{ControlMessageId, processing}
use traffic_inspector.Packets.Wire.{Buffer, u16_at, sub64}
use traffic_inspector.Packets.Dispatchable.{ip_header_size, udp_header_size}
use traffic_inspector.Packets.Eth.{EthPacket}
use traffic_inspector.Packets.Ip.{
  IpPacket, ip_control, ip_from_raw, ip_move, ip_assign, ip_payload_data, ip_packet_size, ip_hash,
}

pub record UdpPacket : Type 0 where
  pub ctrl_message_id : ControlMessageId
  pub m_timestamp : Option ℕ
  pub m_prev_layer_packet : IpPacket
  pub udp_header : Option ℕ

-- UDPPacket(ControlMessageId).
unfoldable pub udp_control : ControlMessageId → UdpPacket
unfolding ip_control
udp_control id = record {
  ctrl_message_id = id;
  m_timestamp = none;
  m_prev_layer_packet = ip_control id;
  udp_header = none;
}

-- The part that the constructors from a lower layer share: the header follows the IP header.
udp_over_ip : IpPacket → Outcome UdpPacket
unfolding ip_payload_data
udp_over_ip prev = do
  h ← ip_payload_data prev
  ok (record {
    ctrl_message_id = processing;
    m_timestamp = prev.m_timestamp;
    m_prev_layer_packet = prev;
    udp_header = some h;
  })

-- UDPPacket(IPPacket &&): the packet and the source.
unfoldable pub udp_from_ip : IpPacket → Outcome (UdpPacket × IpPacket)
unfolding ip_move udp_over_ip
udp_from_ip orig = do (prev, rest) ← ip_move orig; p ← udp_over_ip prev; ok (p, rest)

-- UDPPacket(RawPacketsPoolItem &&).
unfoldable pub udp_from_raw : Option EthPacket → Outcome (UdpPacket × Option EthPacket)
unfolding ip_from_raw udp_over_ip
udp_from_raw orig = do (prev, rest) ← ip_from_raw orig; p ← udp_over_ip prev; ok (p, rest)

-- UDPPacket(UDPPacket &&).
unfoldable pub udp_move : UdpPacket → Outcome (UdpPacket × UdpPacket)
unfolding ip_move
udp_move orig = do
  (prev, rest) ← ip_move orig.m_prev_layer_packet
  ok (
    record orig {
      ctrl_message_id = processing;
      m_timestamp = prev.m_timestamp;
      m_prev_layer_packet = prev;
    },
    record orig { m_prev_layer_packet = rest; udp_header = none },
  )

-- operator=(UDPPacket &&): the target and the source.
unfoldable pub udp_assign : UdpPacket → UdpPacket → Outcome (UdpPacket × UdpPacket)
unfolding ip_assign
udp_assign dst orig = do
  (prev, rest) ← ip_assign dst.m_prev_layer_packet orig.m_prev_layer_packet
  ok (
    record orig {
      ctrl_message_id = dst.ctrl_message_id;
      m_timestamp = prev.m_timestamp;
      m_prev_layer_packet = prev;
    },
    record orig { m_prev_layer_packet = rest; udp_header = none },
  )

unfoldable pub udp_payload_data : UdpPacket → Outcome ℕ
unfolding ip_payload_data
udp_payload_data p = ip_payload_data p.m_prev_layer_packet >>= λ q. ok (q + udp_header_size)

unfoldable pub udp_packet_size : UdpPacket → Outcome ℕ
unfolding ip_packet_size
udp_packet_size p = ip_packet_size p.m_prev_layer_packet >>= λ n. ok (sub64 n ip_header_size)

-- `uh_sport` is at 0 in the header and `uh_dport` at 2; both are added as they are stored.
unfoldable pub udp_hash : UdpPacket → Buffer → ℕ
unfolding ip_hash
udp_hash p d =
    let hash = ip_hash p.m_prev_layer_packet d in
    elim p.udp_header [ none ↦ hash | some h ↦ hash + u16_at d (h + 2) + u16_at d h ]
