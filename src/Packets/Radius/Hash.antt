-- ===== src/Packets/Radius/Hash.antt =====
-- `getPacketSpecificHashImpl` of src/Packets/RADIUSPacket.cpp on the two directions of an exchange.
use traffic_inspector.Base.{◌+◌, ◌%◌, ◌^◌, ◌≡◌, refl, some, none, ok, arith, Bool}
use traffic_inspector.Packets.Wire.{Buffer, byte_at, u16_at, u32_at}
use traffic_inspector.Packets.Eth.{EthPacket}
use traffic_inspector.Packets.Radius.{RadiusPacket, radius_hash, radius_from_raw}
use traffic_inspector.Packets.Radius.Receive.{built, radius_from_raw_inv}
use traffic_inspector.Packets.Avp.Storage.{AvpStorage}

-- The second frame answers the first: addresses and ports are exchanged, the identifier is kept.
pub record IsResponse (d d' : Buffer) : Type 0 where
  pub source : u32_at d' 26 ≡ u32_at d 30
  pub destination : u32_at d' 30 ≡ u32_at d 26
  pub source_port : u16_at d' 34 ≡ u16_at d 36
  pub destination_port : u16_at d' 36 ≡ u16_at d 34
  pub identifier : byte_at d' 43 ≡ byte_at d 43

-- The hash of a packet that was built from a frame is the sum of its addresses, ports and
-- identifier; the sum of the addresses wraps at 2 ^ 32.
built_hash :
    (e : EthPacket) (m : AvpStorage) (d : Buffer)
    → radius_hash (built e m) d
      ≡ (u32_at d 26 + u32_at d 30) % 2 ^ 32 + u16_at d 36 + u16_at d 34 + byte_at d 43
unfolding radius_hash
built_hash e m d = refl

-- The packets that are built from a request's frame and from its response's have the same hash.
pub radius_hash_response :
    (ndebug : Bool) (e f : EthPacket) (d d' : Buffer) (p q : RadiusPacket)
    → e.m_data ≡ some d
    → f.m_data ≡ some d'
    → radius_from_raw ndebug (some e) ≡ ok (p, none)
    → radius_from_raw ndebug (some f) ≡ ok (q, none)
    → IsResponse d d'
    → radius_hash q d' ≡ radius_hash p d
radius_hash_response ndebug e f d d' p q he hf ep eq r =
    let (m, _, pe, _) = radius_from_raw_inv ndebug e d p none he ep in
    let (n, _, qe, _) = radius_from_raw_inv ndebug f d' q none hf eq in
    rw (pe, qe, built_hash e m d, built_hash f n d')
      (omega (arith, r.source, r.destination, r.source_port, r.destination_port, r.identifier))
