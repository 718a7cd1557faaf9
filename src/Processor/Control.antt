-- ===== src/Processor/Control.antt =====
-- Control messages in a tree of processors, and a processor's first state.
use traffic_inspector.Base.{
  ℕ, ◌≡◌, refl, Bool, true, false, List, [], ◌∷◌, ◌++◌, map, replicate, length, length-replicate,
  zero, suc, All, ok,
}
use traffic_inspector.Packets.Types.{ControlMessageId}
use traffic_inspector.Dispatcher.{Dispatcher, dispatch_broadcast}
use traffic_inspector.Dispatcher.Broadcast.{leaves, dispatch_broadcast-leaves}
use traffic_inspector.Processor.{
  PacketProcessor, Protocol, SpecificPacket, create_control_ptr, on_dispatch_broadcast_impl,
  processor_ops, new_processor,
}

-- The processor with one more control packet at the end of each worker's queue.
abbrev pub notified : ControlMessageId → PacketProcessor → PacketProcessor
notified m p = record p {
  m_received_packet_queue =
      map (λ q. q ++ (create_control_ptr p.protocol m ∷ [])) p.m_received_packet_queue;
}

-- `dispatchBroadcast` on any tree of processors returns, and puts one control packet of the
-- processor's type at the end of each worker's queue of each processor.
pub dispatch_broadcast-notified :
    (ndebug : Bool) (depth : ℕ) (m : ControlMessageId) (x : Dispatcher PacketProcessor)
    → (y : Dispatcher PacketProcessor) × (dispatch_broadcast (processor_ops ndebug depth) x m
        ≡ ok y)
      × (leaves y ≡ map (notified m) (leaves x))
unfolding on_dispatch_broadcast_impl
dispatch_broadcast-notified ndebug depth m x =
    dispatch_broadcast-leaves (processor_ops ndebug depth) m (notified m) (λ p. true) (λ p. refl) x

-- A new processor has the workers that it is told to have, and waits 1000 ms whatever timeout the
-- constructor is given.
pub new_processor_lem :
    (k : Protocol) (n timeout : ℕ)
    → let p = new_processor k n timeout in
      (length p.m_received_packet_queue ≡ n)
      × All (λ q. q ≡ []) p.m_received_packet_queue
      × (p.m_response_timeout_msec ≡ 1000)
      × (p.m_stop ≡ false)
unfolding new_processor
new_processor_lem k n timeout = (length-replicate n [], empty n, refl, refl)
  where
    empty : (n : ℕ) → All {A = List SpecificPacket} (λ q. q ≡ []) (replicate n [])
    empty zero = tt
    empty (suc n) = (refl, empty n)
