-- ===== src/Packets/Tcp.antt =====
-- TCPPacket: include/Packets/TCPPacket.h and src/Packets/TCPPacket.cpp.
use traffic_inspector.Base.{ℕ, ◌+◌, Option, none, some, Outcome, ok, ◌>>=◌}
use traffic_inspector.Packets.Types.{ControlMessageId, processing}
use traffic_inspector.Packets.Wire.{Buffer, u16_at, sub64}
use traffic_inspector.Packets.Dispatchable.{ip_header_size, tcp_header_size}
use traffic_inspector.Packets.Eth.{EthPacket}
use traffic_inspector.Packets.Ip.{
  IpPacket, ip_control, ip_from_raw, ip_move, ip_assign, ip_payload_data, ip_packet_size, ip_hash,
}

pub record TcpPacket : Type 0 where
  pub ctrl_message_id : ControlMessageId
  pub m_timestamp : Option ℕ
  pub m_prev_layer_packet : IpPacket
  pub tcp_header : Option ℕ

-- TCPPacket(ControlMessageId).
unfoldable pub tcp_control : ControlMessageId → TcpPacket
unfolding ip_control
tcp_control id = record {
  ctrl_message_id = id;
  m_timestamp = none;
  m_prev_layer_packet = ip_control id;
  tcp_header = none;
}

-- The part that the constructors from a lower layer share: the header follows the IP header.
tcp_over_ip : IpPacket → Outcome TcpPacket
unfolding ip_payload_data
tcp_over_ip prev = do
  h ← ip_payload_data prev
  ok (record {
    ctrl_message_id = processing;
    m_timestamp = prev.m_timestamp;
    m_prev_layer_packet = prev;
    tcp_header = some h;
  })

-- TCPPacket(IPPacket &&): the packet and the source.
unfoldable pub tcp_from_ip : IpPacket → Outcome (TcpPacket × IpPacket)
unfolding ip_move tcp_over_ip
tcp_from_ip orig = do (prev, rest) ← ip_move orig; p ← tcp_over_ip prev; ok (p, rest)

-- TCPPacket(RawPacketsPoolItem &&).
unfoldable pub tcp_from_raw : Option EthPacket → Outcome (TcpPacket × Option EthPacket)
unfolding ip_from_raw tcp_over_ip
tcp_from_raw orig = do (prev, rest) ← ip_from_raw orig; p ← tcp_over_ip prev; ok (p, rest)

-- TCPPacket(TCPPacket &&).
unfoldable pub tcp_move : TcpPacket → Outcome (TcpPacket × TcpPacket)
unfolding ip_move
tcp_move orig = do
  (prev, rest) ← ip_move orig.m_prev_layer_packet
  ok (
    record orig {
      ctrl_message_id = processing;
      m_timestamp = prev.m_timestamp;
      m_prev_layer_packet = prev;
    },
    record orig { m_prev_layer_packet = rest; tcp_header = none },
  )

-- operator=(TCPPacket &&): the target and the source.
unfoldable pub tcp_assign : TcpPacket → TcpPacket → Outcome (TcpPacket × TcpPacket)
unfolding ip_assign
tcp_assign dst orig = do
  (prev, rest) ← ip_assign dst.m_prev_layer_packet orig.m_prev_layer_packet
  ok (
    record orig {
      ctrl_message_id = dst.ctrl_message_id;
      m_timestamp = prev.m_timestamp;
      m_prev_layer_packet = prev;
    },
    record orig { m_prev_layer_packet = rest; tcp_header = none },
  )

unfoldable pub tcp_payload_data : TcpPacket → Outcome ℕ
unfolding ip_payload_data
tcp_payload_data p = ip_payload_data p.m_prev_layer_packet >>= λ q. ok (q + tcp_header_size)

unfoldable pub tcp_packet_size : TcpPacket → Outcome ℕ
unfolding ip_packet_size
tcp_packet_size p = ip_packet_size p.m_prev_layer_packet >>= λ n. ok (sub64 n ip_header_size)

-- `th_sport` is at 0 in the header and `th_dport` at 2; both are added as they are stored.
unfoldable pub tcp_hash : TcpPacket → Buffer → ℕ
unfolding ip_hash
tcp_hash p d =
    let hash = ip_hash p.m_prev_layer_packet d in
    elim p.tcp_header [ none ↦ hash | some h ↦ hash + u16_at d (h + 2) + u16_at d h ]
