-- ===== src/Processor/Tests.antt =====
-- A RADIUS processor with two workers.
use traffic_inspector.Base.{
  ◌≡◌, refl, [], ◌∷◌, map, length, All, ok, fault, null_dereference, division_by_zero, some, none,
  ◌>>=◌, false,
}
use traffic_inspector.Packets.Types.{sync_timeout}
use traffic_inspector.Packets.Samples.{request_frame, item}
use traffic_inspector.Dispatcher.{Dispatcher, leaf, dispatch_broadcast}
use traffic_inspector.Dispatcher.Broadcast.{leaves}
use traffic_inspector.Processor.{
  PacketProcessor, SpecificPacket, radius_protocol, udp_protocol, create_control_ptr,
  create_packet_ptr, on_dispatch_impl, processor_ops, worker_id, new_processor, move_processor,
  assign_processor,
}
use traffic_inspector.Processor.Control.{notified, dispatch_broadcast-notified, new_processor_lem}
use traffic_inspector.Processor.Crash.{on_dispatch_impl_crashes}

abbrev processor : PacketProcessor
processor = record {
  protocol = radius_protocol;
  m_received_packet_queue = [] ∷ [] ∷ [];
  m_stop = false;
  m_response_timeout_msec = 2000;
}

-- The source of a move has no queue left to choose, and is assigned to without harm.
moved_source :
    (worker_id (move_processor processor).1 (item request_frame 69) request_frame
      ≡ fault division_by_zero)
    × (assign_processor (move_processor processor).1 processor ≡ some (move_processor processor))
    × (assign_processor processor processor ≡ none)
unfolding worker_id move_processor assign_processor
moved_source = (refl, refl, refl)

abbrev control_packet : SpecificPacket
control_packet = create_control_ptr radius_protocol sync_timeout

dispatch_broadcast-notified_example :
    (y : Dispatcher PacketProcessor) × (dispatch_broadcast
        (processor_ops false 9)
        (leaf processor)
        sync_timeout
      ≡ ok y)
    × (leaves y ≡ map (notified sync_timeout) (leaves (leaf processor)))
dispatch_broadcast-notified_example =
    dispatch_broadcast-notified false 9 sync_timeout (leaf processor)

new_processor_lem_example :
    let p = new_processor udp_protocol 3 2000 in
    (length p.m_received_packet_queue ≡ 3)
    × All (λ q. q ≡ []) p.m_received_packet_queue
    × (p.m_response_timeout_msec ≡ 1000)
    × (p.m_stop ≡ false)
new_processor_lem_example = new_processor_lem udp_protocol 3 2000

on_dispatch_impl_crashes_example :
    on_dispatch_impl false processor (some (item request_frame 69)) ≡ (
      create_packet_ptr false radius_protocol (some (item request_frame 69)) >>= λ r.
      fault null_dereference)
on_dispatch_impl_crashes_example =
    on_dispatch_impl_crashes false processor (some (item request_frame 69))
