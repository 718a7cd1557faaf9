-- ===== src/Program.antt =====
-- The main program, src/main.cpp: the tree of dispatchers that it builds and its main loop.
pub mod Subtree
pub mod Loop
pub mod Start
mod Tests
use traffic_inspector.Base.{
  ℕ, ◌==◌, ◌&&◌, not, Bool, true, false, List, [], ◌∷◌, ◌++◌, Option, none, some, Outcome, ok,
  ◌>>=◌, deref,
}
use traffic_inspector.Packets.Types.{eth, udp}
use traffic_inspector.Packets.Eth.{EthPacket, Timespec}
use traffic_inspector.Dispatcher.{
  Dispatcher, leaf, node, last, more, can_be_dispatchered, dispatch_by_index,
}
use traffic_inspector.Processor.{
  PacketProcessor, udp_protocol, tcp_protocol, radius_protocol, new_processor, processor_ops,
}
use traffic_inspector.Nic.{Nic, Received, receive_packet}

-- The first test of `main`.
unfoldable pub has_right_arguments : ℕ → Bool
has_right_arguments argc = not (not (argc == 3) && not (argc == 4))

-- `IDispatcher<UDPPacket, PacketProcessor<RADIUSPacket>, PacketProcessor<UDPPacket>>`.
abbrev pub udp_subtree : PacketProcessor → PacketProcessor → Dispatcher PacketProcessor
udp_subtree r u = node udp (more (leaf r) (last (leaf u)))

abbrev pub dispatcher_tree :
    PacketProcessor → PacketProcessor → PacketProcessor → Dispatcher PacketProcessor
dispatcher_tree r u t = node eth (more (udp_subtree r u) (last (leaf t)))

-- `packetRouter`: one worker for each protocol.
unfoldable pub packet_router : Dispatcher PacketProcessor
packet_router =
    dispatcher_tree (new_processor radius_protocol 1 2000) (new_processor udp_protocol 1 2000)
      (new_processor tcp_protocol 1 2000)

-- A pool item that the loop still owns at the end of a round goes back to its pool.
abbrev pub give_back : Option EthPacket → Nic → Nic
give_back none n = n
give_back (some p) n = record n { m_nic_recv_packets_pool = n.m_nic_recv_packets_pool ++ (p ∷ []) }

-- One round of the main loop; `none` while it waits for a pool item.
unfoldable pub main_round :
    Bool
    → ℕ
    → Received
    → Timespec
    → Dispatcher PacketProcessor
    → Nic
    → Outcome (Option (Dispatcher PacketProcessor × Nic))
main_round ndebug depth r now x n = receive_packet r now n >>= λ o. elim o [
  | none ↦ ok none
  | some (p, n') ↦ deref p.m_data >>= λ d.
      can_be_dispatchered (processor_ops ndebug depth) depth x d >>= λ i. elim i [
        | none ↦ ok (some (x, give_back (some p) n'))
        | some k ↦ dispatch_by_index (processor_ops ndebug depth) depth x k (some p) >>= λ q.
            ok (some (q.0, give_back q.1 n'))
      ]
]
