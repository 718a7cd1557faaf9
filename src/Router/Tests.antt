-- ===== src/Router/Tests.antt =====
-- The router with its three processors.
use traffic_inspector.Base.{
  ◌≡◌, refl, List, [], ◌∷◌, ok, fault, out_of_bounds, some, false, true, codes,
}
use traffic_inspector.Packets.Dispatchable.Laws.{classify}
use traffic_inspector.Packets.Types.{packet_type_to_string}
use traffic_inspector.Packets.Samples.{request_frame, are_bytes-All}
use traffic_inspector.Processor.{
  new_processor, to_string_impl, packet_type, PacketProcessor, Protocol, radius_protocol,
  udp_protocol, tcp_protocol,
}
use traffic_inspector.Lifecycle.{timed_out, ready, new_lifecycle}
use traffic_inspector.Router.{
  new_router, PacketRouter, conv_result, router_sync_thread, get_registered_protocol_names,
  join_names,
}
use traffic_inspector.Router.Select.{flags_of, conv_result-classify}

abbrev processor : Protocol → PacketProcessor
processor k = record {
  protocol = k;
  m_received_packet_queue = [] ∷ [];
  m_stop = false;
  m_response_timeout_msec = 1000;
}

abbrev processors : List PacketProcessor
processors = processor radius_protocol ∷ processor udp_protocol ∷ processor tcp_protocol ∷ []

conv_result-classify_example :
    conv_result 9 false processors request_frame ≡ ok (flags_of (classify request_frame))
conv_result-classify_example =
    conv_result-classify 9 request_frame (processor radius_protocol) (processor udp_protocol)
      (processor tcp_protocol) (are_bytes-All request_frame refl) refl refl refl

abbrev router : PacketRouter
router = record { m_current_processors = processors; lifecycle = new_lifecycle }

three_processors :
    new_router ((radius_protocol, 1) ∷ (udp_protocol, 1) ∷ (tcp_protocol, 1) ∷ []) ≡ router
unfolding new_router new_lifecycle new_processor
three_processors = refl

names : get_registered_protocol_names router ≡ ok (codes "RADIUS_UDP, UDP, TCP")
unfolding get_registered_protocol_names join_names to_string_impl packet_type packet_type_to_string
names = refl

no_names :
    get_registered_protocol_names (record router { m_current_processors = [] })
    ≡ fault out_of_bounds
unfolding get_registered_protocol_names
no_names = refl

-- Two polls that are no expiration do not reach the workers.
quiet_rounds :
    router_sync_thread
      ((false, timed_out) ∷ (true, ready (some (record { ret = 8; expirations = 1 }))) ∷ [])
      router
    ≡ ok (true, router)
unfolding router_sync_thread
quiet_rounds = refl
