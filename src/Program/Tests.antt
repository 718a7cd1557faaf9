-- ===== src/Program/Tests.antt =====
-- The dispatchers of the main program on a frame.
use traffic_inspector.Base.{
  ◌≡◌, refl, [], ◌∷◌, replicate, ok, some, none, fault, stack_overflow, false, true, arith,
}
use traffic_inspector.Packets.Wire.{max_packet_size}
use traffic_inspector.Packets.Dispatchable.Laws.{classify}
use traffic_inspector.Packets.Samples.{request_frame, item, are_bytes-All}
use traffic_inspector.Packets.Eth.{EthPacket}
use traffic_inspector.Dispatcher.{dispatch}
use traffic_inspector.Processor.{
  PacketProcessor, Protocol, radius_protocol, udp_protocol, tcp_protocol,
}
use traffic_inspector.Nic.{Nic, frame}
use traffic_inspector.Program.{udp_subtree, dispatcher_tree, main_round, has_right_arguments}
use traffic_inspector.Program.Subtree.{Handler, handling, handled, udp_subtree-handled}
use traffic_inspector.Program.Loop.{main_round_overflows}

abbrev processor : Protocol → PacketProcessor
processor k = record {
  protocol = k;
  m_received_packet_queue = [] ∷ [];
  m_stop = false;
  m_response_timeout_msec = 1000;
}

two_arguments : has_right_arguments 3 ≡ true
unfolding has_right_arguments
two_arguments = refl

-- A processor that says by its flag which one it was.
abbrev mark : Handler
mark p inst = ok (record p { m_stop = true }, none, true)

udp_subtree-handled_example :
    dispatch
      (handling false 9 mark)
      9
      (udp_subtree (processor radius_protocol) (processor udp_protocol))
      (some (item request_frame 69))
    ≡ handled mark
        (processor radius_protocol)
        (processor udp_protocol)
        (some (item request_frame 69))
        (classify request_frame)
udp_subtree-handled_example =
    udp_subtree-handled false 9 mark (item request_frame 69) request_frame
      (processor radius_protocol) (processor udp_protocol) refl (are_bytes-All request_frame refl)
      refl refl

abbrev free_item : EthPacket
free_item = item (replicate max_packet_size 0) 0

abbrev nic : Nic
nic = record { m_sniff_socket = some 3; bound = true; m_nic_recv_packets_pool = free_item ∷ [] }

main_round_overflows_example :
    main_round false 1000
      (frame request_frame)
      (record { tv_sec = 5; tv_nsec = 0 })
      (dispatcher_tree
        (processor radius_protocol)
        (processor udp_protocol)
        (processor tcp_protocol))
      nic
    ≡ fault stack_overflow
main_round_overflows_example =
    main_round_overflows false 1000 (record { tv_sec = 5; tv_nsec = 0 }) request_frame nic free_item
      [] (replicate max_packet_size 0) (processor radius_protocol) (processor udp_protocol)
      (processor tcp_protocol) refl refl (omega arith)
