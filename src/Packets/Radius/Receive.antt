-- ===== src/Packets/Radius/Receive.antt =====
-- A RADIUSPacket that is built from a received frame: headers of 14, 20 and 8 bytes stand in front
-- of the RADIUS header, which is at 42.
use traffic_inspector.Base.{
  ℕ, ◌+◌, ◌≤◌, ◌<◌, ◌≡◌, refl, sym, length, Bool, false, List, All, Option, none, some, ok, fault,
  assertion, arith, ◌∙◌, ◌>>=◌, >>=-eq-ok,
}
use traffic_inspector.Packets.Types.{processing}
use traffic_inspector.Packets.Wire.{Buffer, byte_at, sub64, IsByte, byte_at-IsByte}
use traffic_inspector.Packets.Avp.Storage.{AvpStorage, find}
use traffic_inspector.Packets.Avp.Memory.{HasAt}
use traffic_inspector.Packets.Avp.Encoding.{Attribute, IsProper, encode, first_value}
use traffic_inspector.Packets.Avp.{parse_raw, pack_length}
use traffic_inspector.Packets.Avp.RoundTrip.{parse_raw-encode}
use traffic_inspector.Packets.Avp.Bounds.{IsSafe, parse_raw-IsSafe, then-IsSafe}
use traffic_inspector.Packets.Eth.{EthPacket}
use traffic_inspector.Packets.Radius.{RadiusPacket, radius_from_raw, radius_session_pair}

-- The packet that the constructor makes of a pool item once it has the attributes.
abbrev pub built : EthPacket → AvpStorage → RadiusPacket
built e avps = record {
  ctrl_message_id = processing;
  m_timestamp = some e.m_timestamp;
  m_prev_layer_packet = record {
    ctrl_message_id = processing;
    m_timestamp = some e.m_timestamp;
    m_prev_layer_packet = record {
      ctrl_message_id = processing;
      m_timestamp = some e.m_timestamp;
      m_ip_header = some 14;
      m_prev_layer_packet = some e;
    };
    udp_header = some 34;
  };
  radius_header = some 42;
  m_avps = avps;
}

-- `getPacketSizeImpl` of the RADIUS layer.
abbrev pub radius_size : ℕ → ℕ
radius_size n = sub64 (sub64 (sub64 n 14) 20) 8

-- The constructor is the parser at offset 42, and takes the pool item over.
pub radius_from_raw-parse :
    (ndebug : Bool) (e : EthPacket) (d : Buffer)
    → e.m_data ≡ some d
    → radius_from_raw ndebug (some e)
      ≡ (parse_raw ndebug d 42 (radius_size e.m_size) >>= λ avps. ok (built e avps, none))
unfolding radius_from_raw
radius_from_raw-parse ndebug e d h = rw (h, radius_from_raw)

pub radius_from_raw_inv :
    (ndebug : Bool) (e : EthPacket) (d : Buffer) (p : RadiusPacket) (rest : Option EthPacket)
    → e.m_data ≡ some d
    → radius_from_raw ndebug (some e) ≡ ok (p, rest)
    → (avps : AvpStorage) × (parse_raw ndebug d 42 (radius_size e.m_size) ≡ ok avps)
      × (p ≡ built e avps)
      × (rest ≡ none)
radius_from_raw_inv ndebug e d p rest h eq =
    let (avps, e₁, e₂) =
      >>=-eq-ok (parse_raw ndebug d 42 (radius_size e.m_size)) _
        (sym (radius_from_raw-parse ndebug e d h) ∙ eq) in
    (avps, e₁, ground arith, ground arith)

-- A frame of less than 65536 bytes with a RADIUS packet whose Length field is right and whose
-- attributes are an encoding of values of 1 to 253 bytes becomes a packet that carries the frame's
-- time, its identifier and exactly its attributes.
pub radius_from_raw-encode :
    (ndebug : Bool) (e : EthPacket) (d : Buffer) (as' : List Attribute)
    → e.m_data ≡ some d
    → e.m_size ≡ 62 + length (encode as')
    → e.m_size < 65536
    → All IsProper as'
    → pack_length d 42 ≡ 20 + length (encode as')
    → HasAt d 62 (encode as')
    → (p : RadiusPacket) × (radius_from_raw ndebug (some e) ≡ ok (p, none))
      × (p.m_timestamp ≡ some e.m_timestamp)
      × (radius_session_pair p d ≡ some (byte_at d 43))
      × ((k : ℕ) → find k p.m_avps ≡ first_value k as')
unfolding radius_session_pair
radius_from_raw-encode ndebug e d as' h size small proper len at =
    let n : radius_size e.m_size ≡ 20 + length (encode as') = omega arith in
    let (m, run, sorted, finds) =
      parse_raw-encode ndebug d 42 (radius_size e.m_size) as' proper (omega arith) n (len ∙ sym n)
        at in
    (built e m, radius_from_raw-parse ndebug e d h ∙ rw run, refl, refl, finds)

-- A frame of 42 to 3800 bytes in a full buffer is taken safely: the constructor returns, or fails
-- an assertion in a build that has them.
pub radius_from_raw-IsSafe :
    (ndebug : Bool) (e : EthPacket) (d : Buffer)
    → e.m_data ≡ some d
    → length d ≡ 4096
    → 42 ≤ e.m_size
    → e.m_size ≤ 3800
    → IsSafe ndebug (radius_from_raw ndebug (some e))
radius_from_raw-IsSafe ndebug e d h full lo hi = rw (radius_from_raw-parse ndebug e d h) (
    then-IsSafe ndebug _ _
      (parse_raw-IsSafe ndebug d 42 (radius_size e.m_size) (omega arith) (omega arith)))

-- The size of the RADIUS layer wraps on a frame that is shorter than the headers, so that such a
-- frame fails the first assertion whatever its Length field says.
pub radius_from_raw_short :
    (e : EthPacket) (d : Buffer)
    → e.m_data ≡ some d
    → All IsByte d
    → e.m_size < 42
    → radius_from_raw false (some e) ≡ fault assertion
unfolding parse_raw
radius_from_raw_short e d h bytes short =
    let a = byte_at-IsByte d 44 bytes in
    let b = byte_at-IsByte d 45 bytes in radius_from_raw-parse false e d h ∙ ground arith
