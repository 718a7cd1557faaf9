-- ===== src/Program/Loop.antt =====
-- The main loop of src/main.cpp on a received frame.
use traffic_inspector.Base.{ℕ, ◌≡◌, ◌≤◌, Bool, List, ◌∷◌, some, length, fault, stack_overflow}
use traffic_inspector.Packets.Wire.{Buffer}
use traffic_inspector.Packets.Eth.{EthPacket, Timespec}
use traffic_inspector.Dispatcher.FirstMatch.{can_be_dispatchered_eth}
use traffic_inspector.Processor.{PacketProcessor, processor_ops}
use traffic_inspector.Nic.{Nic, frame}
use traffic_inspector.Nic.Receive.{receive_packet_frame}
use traffic_inspector.Program.{dispatcher_tree, main_round}

-- Any received frame overflows any stack, before it reaches a processor: the root of the tree tests
-- for ETHPacket.
pub main_round_overflows :
    (ndebug : Bool) (depth : ℕ) (now : Timespec) (bs : List ℕ) (n : Nic) (p : EthPacket)
    (rest : List EthPacket)
    → (d : Buffer) (r u t : PacketProcessor) → n.m_nic_recv_packets_pool ≡ p ∷ rest
    → p.m_data ≡ some d
    → length bs ≤ length d
    → main_round ndebug depth (frame bs) now (dispatcher_tree r u t) n ≡ fault stack_overflow
unfolding main_round
main_round_overflows ndebug depth now bs n p rest d r u t pool buf fits =
    let (q, d', run, buf', _, _, _, _) = receive_packet_frame bs now n p rest d pool buf fits in
    rw (run, main_round)
      (rw (buf', can_be_dispatchered_eth (processor_ops ndebug depth) depth _ d'))
