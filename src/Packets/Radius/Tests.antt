-- ===== src/Packets/Radius/Tests.antt =====
-- An Accounting-Request and its response, as frames and as packets.
use traffic_inspector.Base.{
  ℕ, ◌≡◌, refl, [], ◌∷◌, false, ok, some, none, fault, null_dereference, arith,
}
use traffic_inspector.Packets.Types.{sync_timeout}
use traffic_inspector.Packets.Wire.{byte_at}
use traffic_inspector.Packets.Avp.Storage.{insert, find}
use traffic_inspector.Packets.Avp.Encoding.{Attribute, first_value}
use traffic_inspector.Packets.Avp.{parse_raw}
use traffic_inspector.Packets.Radius.{
  radius_control, RadiusPacket, radius_from_raw, radius_session_pair, radius_move,
  radius_packet_size,
}
use traffic_inspector.Packets.Radius.Receive.{built, radius_from_raw-encode}
use traffic_inspector.Packets.Samples.{request_frame, response_frame, item}
use traffic_inspector.Base.{List}
use traffic_inspector.Packets.Eth.{EthPacket}

abbrev request_attributes : List Attribute
request_attributes =
    record { kind = 44; value = 65 ∷ 66 ∷ [] } ∷ record { kind = 1; value = 90 ∷ [] } ∷ []

abbrev request_item : EthPacket
request_item = item request_frame 69

abbrev response_item : EthPacket
response_item = item response_frame 69

abbrev request : RadiusPacket
request = built request_item ((1, 90 ∷ []) ∷ (44, 65 ∷ 66 ∷ []) ∷ [])

abbrev response : RadiusPacket
response = built response_item ((1, 90 ∷ []) ∷ (44, 65 ∷ 66 ∷ []) ∷ [])

request_parsed : radius_from_raw false (some request_item) ≡ ok (request, none)
unfolding radius_from_raw insert parse_raw
request_parsed = refl

response_parsed : radius_from_raw false (some response_item) ≡ ok (response, none)
unfolding radius_from_raw insert parse_raw
response_parsed = refl

request_size : radius_packet_size request ≡ ok 27
unfolding radius_packet_size
request_size = refl

radius_from_raw-encode_example :
    (p : RadiusPacket) × (radius_from_raw false (some request_item) ≡ ok (p, none))
    × (p.m_timestamp ≡ some 5000)
    × (radius_session_pair p request_frame ≡ some (byte_at request_frame 43))
    × ((k : ℕ) → find k p.m_avps ≡ first_value k request_attributes)
radius_from_raw-encode_example =
    radius_from_raw-encode false request_item request_frame request_attributes refl refl
      (omega arith) ((omega arith, omega arith), ((omega arith, omega arith), tt)) refl
      (refl, (refl, (refl, (refl, (refl, (refl, (refl, tt)))))))

-- A control packet owns no item: its move dereferences a null pointer.
control_move : radius_move (radius_control sync_timeout) ≡ fault null_dereference
unfolding radius_move radius_control
control_move = refl
