-- ===== src/Packets/Texts/Tests.antt =====
-- The texts of the sample request (src/Packets/*.cpp).
use traffic_inspector.Base.{◌≡◌, ◌++◌, refl, none, ok, [], ◌∷◌, codes, digits, decimal}
use traffic_inspector.Packets.Types.{
  udp, radius_udp, sync_timeout, processing, packet_type_to_string, control_message_id_to_string,
}
use traffic_inspector.Packets.Wire.{u32_at}
use traffic_inspector.Packets.Samples.{request_frame, item, are_bytes-All}
use traffic_inspector.Packets.Ip.{inet_ip_octets}
use traffic_inspector.Packets.Udp.{udp_control}
use traffic_inspector.Packets.Radius.{RadiusPacket, radius_move}
use traffic_inspector.Packets.Radius.Receive.{built}
use traffic_inspector.Packets.Texts.{
  octets_to_string, inet_ip_to_string, eth_to_string, ip_to_string, udp_to_string, radius_to_string,
  base_to_string,
}
use traffic_inspector.Packets.Texts.Address.{read_address, read_address-inet_ip_to_string}

abbrev request : RadiusPacket
request = built (item request_frame 69) ((1, 90 ∷ []) ∷ [])

request_text :
    base_to_string radius_udp processing (radius_to_string request)
    ≡ ok (
        codes "RADIUS_UDP,  ControlMessageId: PROCESSING, ether_type: 8, ip total size: 55"
        ++ (codes ", src ip: 10.0.0.1, dst ip: 10.0.0.2, src_port: 50000, dst_port:1813"
            ++ codes ", code: 4, packetIdentifier: 77, length: 27"))
unfolding base_to_string radius_to_string udp_to_string ip_to_string eth_to_string inet_ip_to_string
    octets_to_string inet_ip_octets packet_type_to_string control_message_id_to_string decimal
    digits
request_text = refl

control_text :
    base_to_string udp sync_timeout (udp_to_string (udp_control sync_timeout))
    ≡ ok (codes "UDP,  ControlMessageId: SYNC_TIMEOUT, EMPTY")
unfolding base_to_string udp_to_string ip_to_string udp_control packet_type_to_string
    control_message_id_to_string
control_text = refl

abbrev moved : RadiusPacket
moved = record request { m_avps = [] }

abbrev source : RadiusPacket
source = record request {
  m_prev_layer_packet = record request.m_prev_layer_packet {
    m_prev_layer_packet = record request.m_prev_layer_packet.m_prev_layer_packet {
      m_prev_layer_packet = none;
    };
    udp_header = none;
  };
  radius_header = none;
}

request_moves : radius_move request ≡ ok (moved, source)
unfolding radius_move
request_moves = refl

read_address-inet_ip_to_string_example :
    read_address (inet_ip_to_string (u32_at request_frame 26) ++ codes ", dst ip: ")
    ≡ ((10, 0, 0, 1), codes ", dst ip: ")
read_address-inet_ip_to_string_example =
    read_address-inet_ip_to_string request_frame 26 (codes ", dst ip: ")
      (are_bytes-All request_frame refl) refl
