-- ===== src/Packets/Ip.antt =====
-- IPPacket: include/Packets/IPPacket.h and src/Packets/IPPacket.cpp.
pub mod Laws
use traffic_inspector.Base.{ℕ, ◌+◌, ◌/◌, ◌%◌, ◌^◌, Option, none, some, Outcome, ok, ◌>>=◌, deref}
use traffic_inspector.Packets.Types.{ControlMessageId, processing}
use traffic_inspector.Packets.Wire.{Buffer, u32_at, ntohl, sub64}
use traffic_inspector.Packets.Dispatchable.{ether_header_size, ip_header_size}
use traffic_inspector.Packets.Eth.{EthPacket, eth_payload}

-- `m_prev_layer_packet` is a unique_ptr to a pool item; `m_timestamp` is `none` until it is
-- written.
pub record IpPacket : Type 0 where
  pub ctrl_message_id : ControlMessageId
  pub m_timestamp : Option ℕ
  pub m_ip_header : Option ℕ
  pub m_prev_layer_packet : Option EthPacket

-- IPPacket(ControlMessageId).
unfoldable pub ip_control : ControlMessageId → IpPacket
ip_control id = record {
  ctrl_message_id = id;
  m_timestamp = none;
  m_ip_header = none;
  m_prev_layer_packet = none;
}

-- IPPacket(RawPacketsPoolItem &&): the packet, and the source pointer, which is null afterwards.
unfoldable pub ip_from_raw : Option EthPacket → Outcome (IpPacket × Option EthPacket)
ip_from_raw orig = do
  raw ← deref orig
  ok (
    record {
      ctrl_message_id = processing;
      m_timestamp = some raw.m_timestamp;
      m_ip_header = some eth_payload;
      m_prev_layer_packet = orig;
    },
    none,
  )

-- IPPacket(IPPacket &&). The source keeps its header pointer.
unfoldable pub ip_move : IpPacket → Outcome (IpPacket × IpPacket)
ip_move orig = do
  raw ← deref orig.m_prev_layer_packet
  ok (
    record orig { ctrl_message_id = processing; m_timestamp = some raw.m_timestamp },
    record orig { m_prev_layer_packet = none },
  )

-- operator=(IPPacket &&): the target and the source.
unfoldable pub ip_assign : IpPacket → IpPacket → Outcome (IpPacket × IpPacket)
ip_assign dst orig = do
  raw ← deref orig.m_prev_layer_packet
  ok (
    record orig { ctrl_message_id = dst.ctrl_message_id; m_timestamp = some raw.m_timestamp },
    record orig { m_prev_layer_packet = none; m_ip_header = none },
  )

unfoldable pub ip_data : IpPacket → Outcome ℕ
ip_data p = deref p.m_prev_layer_packet >>= λ raw. ok eth_payload

unfoldable pub ip_payload_data : IpPacket → Outcome ℕ
unfolding ip_data
ip_payload_data p = ip_data p >>= λ q. ok (q + ip_header_size)

-- The size of the previous layer less that layer's header, on `size_t`.
unfoldable pub ip_packet_size : IpPacket → Outcome ℕ
ip_packet_size p = deref p.m_prev_layer_packet >>= λ raw. ok (sub64 raw.m_size ether_header_size)

-- `saddr` is at 12 in the header and `daddr` at 16. Their sum is a `uint32_t`.
unfoldable pub ip_hash : IpPacket → Buffer → ℕ
ip_hash p d = elim p.m_ip_header [
  | none ↦ 0
  | some h ↦ (u32_at d (h + 12) + u32_at d (h + 16)) % 2 ^ 32
]

-- The numbers that `inetIpToString` prints between dots: masks and shifts of `ntohl(ip)`.
unfoldable pub inet_ip_octets : ℕ → ℕ × ℕ × ℕ × ℕ
inet_ip_octets ip =
    let iph = ntohl ip in (iph / 2 ^ 24 % 256, iph / 2 ^ 16 % 256, iph / 2 ^ 8 % 256, iph % 256)
