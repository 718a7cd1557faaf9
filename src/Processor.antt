-- ===== src/Processor.antt =====
-- PacketProcessor<SpecificPacket>: include/PacketProcessor.h and include/PacketProcessor.hpp, as a
-- leaf of the tree of dispatchers.
pub mod Routing
pub mod Control
pub mod Crash
pub mod Answers
mod Tests
use traffic_inspector.Base.{
  ℕ, zero, suc, ◌%◌, ◌==◌, Bool, true, false, List, [], ◌∷◌, ◌++◌, Option, none, some, map, length,
  get_or, set, replicate, Outcome, ok, fault, division_by_zero, ◌>>=◌, deref, if◌then◌else◌, Text,
  codes,
}
use traffic_inspector.Packets.Types.{
  PacketType, eth, ip, udp, tcp, radius_udp, control_event, max_packet_type, ControlMessageId,
  packet_type_to_string,
}
use traffic_inspector.Packets.Wire.{Buffer}
use traffic_inspector.Packets.Dispatchable.{Verdict, rejects, accepts, is_dispatchable_type}
use traffic_inspector.Packets.Eth.{EthPacket, eth_hash}
use traffic_inspector.Packets.Udp.{UdpPacket, udp_from_raw, udp_control}
use traffic_inspector.Packets.Tcp.{TcpPacket, tcp_from_raw, tcp_control}
use traffic_inspector.Packets.Radius.{RadiusPacket, radius_from_raw, radius_control}
use traffic_inspector.Dispatcher.{LeafOps}

-- The packet types for which the program has a processor.
pub data Protocol : Type 0 where
  udp_protocol tcp_protocol radius_protocol : Protocol

-- What a queue holds: a unique_ptr to the processor's packet type.
pub data SpecificPacket : Type 0 where
  udp_packet : UdpPacket → SpecificPacket
  tcp_packet : TcpPacket → SpecificPacket
  radius_packet : RadiusPacket → SpecificPacket

pub record PacketProcessor : Type 0 where
  pub protocol : Protocol
  pub m_received_packet_queue : List (List SpecificPacket)
  pub m_stop : Bool
  pub m_response_timeout_msec : ℕ

-- `SpecificPacket::getPacketType()`.
unfoldable pub packet_type : Protocol → PacketType
packet_type udp_protocol = udp
packet_type tcp_protocol = tcp
packet_type radius_protocol = radius_udp

-- `to_stringImpl`.
unfoldable pub to_string_impl : Protocol → Text
unfolding packet_type
to_string_impl p = codes (packet_type_to_string (packet_type p))

-- The constructor: `responseTimeoutMsec` is not used, and the member keeps its initializer.
unfoldable pub new_processor : Protocol → ℕ → ℕ → PacketProcessor
new_processor p instances_count response_timeout_msec = record {
  protocol = p;
  m_received_packet_queue = replicate instances_count [];
  m_stop = false;
  m_response_timeout_msec = 1000;
}

-- The defaulted move constructor: the new processor and the source. The new one's queues are the
-- same objects, and the threads go on with the address of the source.
unfoldable pub move_processor : PacketProcessor → PacketProcessor × PacketProcessor
move_processor p = (p, record p { m_received_packet_queue = [] })

-- The defaulted move assignment: the target and the source. It destroys the threads of the target,
-- one for each of its queues, which ends the program where there are any: `none`.
unfoldable pub assign_processor :
    PacketProcessor → PacketProcessor → Option (PacketProcessor × PacketProcessor)
unfolding move_processor
assign_processor dst src = elim dst.m_received_packet_queue [
  | [] ↦ some (move_processor src)
  | q ∷ qs ↦ none
]

-- `isStopped`.
abbrev pub is_stopped : PacketProcessor → Bool
is_stopped p = p.m_stop

unfoldable pub set_timeout_for_waiting_response : ℕ → PacketProcessor → PacketProcessor
set_timeout_for_waiting_response n p = record p { m_response_timeout_msec = n }

-- `createPacketPtr` from a pool item: the packet, and what the argument is afterwards.
unfoldable pub create_packet_ptr :
    Bool → Protocol → Option EthPacket → Outcome (SpecificPacket × Option EthPacket)
unfolding udp_from_raw tcp_from_raw radius_from_raw
create_packet_ptr ndebug udp_protocol inst = udp_from_raw inst >>= λ r. ok (udp_packet r.0, r.1)
create_packet_ptr ndebug tcp_protocol inst = tcp_from_raw inst >>= λ r. ok (tcp_packet r.0, r.1)
create_packet_ptr ndebug radius_protocol inst =
    radius_from_raw ndebug inst >>= λ r. ok (radius_packet r.0, r.1)

-- `createPacketPtr` from a ControlMessageId.
unfoldable pub create_control_ptr : Protocol → ControlMessageId → SpecificPacket
unfolding udp_control tcp_control radius_control
create_control_ptr udp_protocol m = udp_packet (udp_control m)
create_control_ptr tcp_protocol m = tcp_packet (tcp_control m)
create_control_ptr radius_protocol m = radius_packet (radius_control m)

-- `canBeDispatcheredImpl`: the instance's own index, 0.
unfoldable pub can_be_dispatchered_impl : ℕ → PacketProcessor → Buffer → Outcome (Option ℕ)
can_be_dispatchered_impl depth p d = is_dispatchable_type (packet_type p.protocol) depth d >>= λ v.
    elim v [ rejects ↦ ok none | accepts q ↦ ok (some 0) ]

-- `inst->getPacketSpecificHash() % m_receivedPacketQueue.size()`.
unfoldable pub worker_id : PacketProcessor → EthPacket → Buffer → Outcome ℕ
unfolding eth_hash
worker_id p raw d =
    let n = length p.m_received_packet_queue in
    if n == 0 then fault division_by_zero else ok (eth_hash raw d % n)

-- `m_receivedPacketQueue[workerId].putObject(...)`.
unfoldable pub put_packet : PacketProcessor → ℕ → SpecificPacket → PacketProcessor
put_packet p i x =
    let qs = p.m_received_packet_queue in
    record p { m_received_packet_queue = set qs i (get_or qs i [] ++ (x ∷ [])) }

-- `onDispatchImpl`: `inst` is asked for its hash after it has been moved into the packet.
unfoldable pub on_dispatch_impl :
    Bool → PacketProcessor → Option EthPacket → Outcome (PacketProcessor × Option EthPacket × Bool)
unfolding create_packet_ptr worker_id put_packet
on_dispatch_impl ndebug p inst = do
  (special_packet, inst') ← create_packet_ptr ndebug p.protocol inst
  raw ← deref inst'
  d ← deref raw.m_data
  i ← worker_id p raw d
  ok (put_packet p i special_packet, inst', true)

-- `onDispatchBroadcastImpl`: a control packet for every worker.
unfoldable pub on_dispatch_broadcast_impl :
    PacketProcessor → ControlMessageId → Outcome (PacketProcessor × Bool)
unfolding create_control_ptr
on_dispatch_broadcast_impl p m = ok (
  record p {
    m_received_packet_queue =
        map (λ q. q ++ (create_control_ptr p.protocol m ∷ [])) p.m_received_packet_queue;
  },
  true,
)

-- The processor as a leaf.
abbrev pub processor_ops : Bool → ℕ → LeafOps PacketProcessor
processor_ops ndebug depth = record {
  can = can_be_dispatchered_impl depth;
  on_dispatch = on_dispatch_impl ndebug;
  on_broadcast = on_dispatch_broadcast_impl;
}
