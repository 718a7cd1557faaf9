-- ===== src/Packets/Radius/Moves.antt =====
-- The move constructor and the move assignment of src/Packets/RADIUSPacket.cpp.
use traffic_inspector.Base.{◌≡◌, refl, none, some, [], ok, Option}
use traffic_inspector.Packets.Types.{ControlMessageId, processing}
use traffic_inspector.Packets.Eth.{EthPacket}
use traffic_inspector.Packets.Udp.{UdpPacket}
use traffic_inspector.Packets.Radius.{RadiusPacket, radius_move, radius_assign}

-- The pool item that a packet owns, if it owns one.
abbrev pub owned : RadiusPacket → Option EthPacket
owned p = p.m_prev_layer_packet.m_prev_layer_packet.m_prev_layer_packet

-- The lower layers with the item's time and the given control ids, and without an item.
abbrev stamped : ControlMessageId → ControlMessageId → EthPacket → UdpPacket → UdpPacket
stamped u i raw p = record p {
  ctrl_message_id = u;
  m_timestamp = some raw.m_timestamp;
  m_prev_layer_packet = record p.m_prev_layer_packet {
    ctrl_message_id = i;
    m_timestamp = some raw.m_timestamp;
  };
}

-- Moving a packet that owns a pool item hands the item and the header over and leaves the source
-- without either. The new packet has no attributes, and the source keeps its own.
pub radius_move_lem :
    (p : RadiusPacket) (raw : EthPacket)
    → owned p ≡ some raw
    → (q : RadiusPacket) × (rest : RadiusPacket) × (radius_move p ≡ ok (q, rest))
      × (owned q ≡ some raw)
      × (q.m_timestamp ≡ some raw.m_timestamp)
      × (q.radius_header ≡ p.radius_header)
      × (q.m_avps ≡ [])
      × (owned rest ≡ none)
      × (rest.radius_header ≡ none)
      × (rest.m_avps ≡ p.m_avps)
unfolding radius_move
radius_move_lem p raw e = (
  record {
    ctrl_message_id = processing;
    m_timestamp = some raw.m_timestamp;
    m_prev_layer_packet = stamped processing processing raw p.m_prev_layer_packet;
    radius_header = p.radius_header;
    m_avps = [];
  },
  record p {
    m_prev_layer_packet = record p.m_prev_layer_packet {
      m_prev_layer_packet = record p.m_prev_layer_packet.m_prev_layer_packet {
        m_prev_layer_packet = none;
      };
      udp_header = none;
    };
    radius_header = none;
  },
  rw e,
  e,
  refl,
  refl,
  refl,
  refl,
  refl,
  refl,
)

-- Assigning such a packet hands over the same, and the target keeps the attributes that it had.
pub radius_assign_lem :
    (dst p : RadiusPacket) (raw : EthPacket)
    → owned p ≡ some raw
    → (q : RadiusPacket) × (rest : RadiusPacket) × (radius_assign dst p ≡ ok (q, rest))
      × (owned q ≡ some raw)
      × (q.m_timestamp ≡ some raw.m_timestamp)
      × (q.radius_header ≡ p.radius_header)
      × (q.m_avps ≡ dst.m_avps)
      × (owned rest ≡ none)
      × (rest.radius_header ≡ none)
unfolding radius_assign
radius_assign_lem dst p raw e = (
  record dst {
    m_timestamp = some raw.m_timestamp;
    m_prev_layer_packet =
        stamped dst.m_prev_layer_packet.ctrl_message_id
          dst.m_prev_layer_packet.m_prev_layer_packet.ctrl_message_id raw p.m_prev_layer_packet;
    radius_header = p.radius_header;
  },
  record p {
    m_prev_layer_packet = record p.m_prev_layer_packet {
      m_prev_layer_packet = record p.m_prev_layer_packet.m_prev_layer_packet {
        m_ip_header = none;
        m_prev_layer_packet = none;
      };
      udp_header = none;
    };
    radius_header = none;
  },
  rw e,
  e,
  refl,
  refl,
  refl,
  refl,
  refl,
)
