-- ===== src/Packets/Radius.antt =====
-- RADIUSPacket: include/Packets/RADIUSPacket.h and src/Packets/RADIUSPacket.cpp.
pub mod Receive
pub mod Hash
pub mod Moves
mod Tests
use traffic_inspector.Base.{
  ℕ, ◌+◌, ◌==◌, Bool, List, [], Option, none, some, Outcome, ok, ◌>>=◌, deref,
}
use traffic_inspector.Packets.Types.{ControlMessageId, processing}
use traffic_inspector.Packets.Wire.{Buffer, byte_at, sub64}
use traffic_inspector.Packets.Dispatchable.{udp_header_size, radius_header_size}
use traffic_inspector.Packets.Avp.Storage.{AvpStorage}
use traffic_inspector.Packets.Avp.{parse_raw, parse_udp}
use traffic_inspector.Packets.Eth.{EthPacket}
use traffic_inspector.Packets.Udp.{
  UdpPacket, udp_control, udp_from_raw, udp_move, udp_assign, udp_payload_data, udp_packet_size,
  udp_hash,
}

pub record RadiusPacket : Type 0 where
  pub ctrl_message_id : ControlMessageId
  pub m_timestamp : Option ℕ
  pub m_prev_layer_packet : UdpPacket
  pub radius_header : Option ℕ
  pub m_avps : AvpStorage

-- RADIUSPacket(ControlMessageId).
unfoldable pub radius_control : ControlMessageId → RadiusPacket
unfolding udp_control
radius_control id = record {
  ctrl_message_id = id;
  m_timestamp = none;
  m_prev_layer_packet = udp_control id;
  radius_header = none;
  m_avps = [];
}

-- The size of the previous layer less that layer's header.
radius_size_over : UdpPacket → Outcome ℕ
unfolding udp_packet_size
radius_size_over prev = udp_packet_size prev >>= λ n. ok (sub64 n udp_header_size)

unfoldable pub radius_packet_size : RadiusPacket → Outcome ℕ
unfolding radius_size_over
radius_packet_size p = radius_size_over p.m_prev_layer_packet

-- The buffer that the packet's pool item owns.
abbrev pub packet_buffer : UdpPacket → Outcome Buffer
packet_buffer p = deref p.m_prev_layer_packet.m_prev_layer_packet >>= λ raw. deref raw.m_data

-- RADIUSPacket(RawPacketsPoolItem &&): the packet and the source pointer.
unfoldable pub radius_from_raw : Bool → Option EthPacket → Outcome (RadiusPacket × Option EthPacket)
unfolding udp_from_raw udp_payload_data radius_size_over
radius_from_raw ndebug orig = do
  (prev, rest) ← udp_from_raw orig
  h ← udp_payload_data prev
  d ← packet_buffer prev
  size ← radius_size_over prev
  avps ← parse_raw ndebug d h size
  ok (
    record {
      ctrl_message_id = processing;
      m_timestamp = prev.m_timestamp;
      m_prev_layer_packet = prev;
      radius_header = some h;
      m_avps = avps;
    },
    rest,
  )

-- RADIUSPacket(UDPPacket &&), with fuel for its loop.
unfoldable pub radius_from_udp : Bool → ℕ → UdpPacket → Outcome (RadiusPacket × UdpPacket)
unfolding udp_move udp_payload_data radius_size_over
radius_from_udp ndebug fuel orig = do
  (prev, rest) ← udp_move orig
  h ← udp_payload_data prev
  d ← packet_buffer prev
  size ← radius_size_over prev
  avps ← parse_udp ndebug fuel d h size
  ok (
    record {
      ctrl_message_id = processing;
      m_timestamp = prev.m_timestamp;
      m_prev_layer_packet = prev;
      radius_header = some h;
      m_avps = avps;
    },
    rest,
  )

-- RADIUSPacket(RADIUSPacket &&): `m_avps` is not in the initializer list.
unfoldable pub radius_move : RadiusPacket → Outcome (RadiusPacket × RadiusPacket)
unfolding udp_move
radius_move orig = do
  (prev, rest) ← udp_move orig.m_prev_layer_packet
  ok (
    record {
      ctrl_message_id = processing;
      m_timestamp = prev.m_timestamp;
      m_prev_layer_packet = prev;
      radius_header = orig.radius_header;
      m_avps = [];
    },
    record orig { m_prev_layer_packet = rest; radius_header = none },
  )

-- operator=(RADIUSPacket &&): the target and the source. `m_avps` is not assigned.
unfoldable pub radius_assign : RadiusPacket → RadiusPacket → Outcome (RadiusPacket × RadiusPacket)
unfolding udp_assign
radius_assign dst orig = do
  (prev, rest) ← udp_assign dst.m_prev_layer_packet orig.m_prev_layer_packet
  ok (
    record dst {
      m_timestamp = prev.m_timestamp;
      m_prev_layer_packet = prev;
      radius_header = orig.radius_header;
    },
    record orig { m_prev_layer_packet = rest; radius_header = none },
  )

-- `m_packetIdentifier` is at 1 in the header. Without a header the result is not initialised:
-- `none`.
unfoldable pub radius_session_pair : RadiusPacket → Buffer → Option ℕ
radius_session_pair p d = elim p.radius_header [ none ↦ none | some h ↦ some (byte_at d (h + 1)) ]

unfoldable pub radius_hash : RadiusPacket → Buffer → ℕ
unfolding udp_hash
radius_hash p d =
    let hash = udp_hash p.m_prev_layer_packet d in
    elim p.radius_header [ none ↦ hash | some h ↦ hash + byte_at d (h + 1) ]
