-- ===== src/Packets/Tests.antt =====
-- Frames through the packet classes below RADIUS.
use traffic_inspector.Base.{◌≡◌, refl}
use traffic_inspector.Packets.Types.{
  packet_type_to_string, control_message_id_to_string, radius_udp, max_packet_type, shutdown,
}
use traffic_inspector.Packets.Wire.{u32_at}
use traffic_inspector.Packets.Dispatchable.Laws.{classify, radius_traffic}
use traffic_inspector.Packets.Eth.{eth_hash}
use traffic_inspector.Packets.Ip.{inet_ip_octets}
use traffic_inspector.Packets.Samples.{request_frame, response_frame, item}

name_of_radius : packet_type_to_string radius_udp ≡ "RADIUS_UDP"
unfolding packet_type_to_string
name_of_radius = refl

name_of_count : packet_type_to_string max_packet_type ≡ "UNKNOWN"
unfolding packet_type_to_string
name_of_count = refl

name_of_shutdown : control_message_id_to_string shutdown ≡ "SHUTDOWN"
unfolding control_message_id_to_string
name_of_shutdown = refl

request_is_radius : classify request_frame ≡ radius_traffic
unfolding classify
request_is_radius = refl

-- Both frames hash to the sum of both addresses' bytes and the type.
hashes_agree :
    eth_hash (item response_frame 69) response_frame
    ≡ eth_hash (item request_frame 69) request_frame
unfolding eth_hash
hashes_agree = refl

source_octets : inet_ip_octets (u32_at request_frame 26) ≡ (10, 0, 0, 1)
unfolding inet_ip_octets
source_octets = refl
