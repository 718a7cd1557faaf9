-- ===== src/Program/Subtree.antt =====
-- The part of the tree below UDP (src/main.cpp).
use traffic_inspector.Base.{
  ℕ, ◌≡◌, refl, ap, ◌∙◌, deref, Bool, true, false, Option, none, some, All, Outcome, ok, fault,
  stuck, ◌>>=◌,
}
use traffic_inspector.Packets.Types.{udp}
use traffic_inspector.Packets.Wire.{Buffer, IsByte}
use traffic_inspector.Packets.Dispatchable.{is_dispatchable_type}
use traffic_inspector.Packets.Dispatchable.Laws.{
  Traffic, radius_traffic, udp_traffic, tcp_traffic, other_traffic, classify, udp_answer,
  radius_answer,
}
use traffic_inspector.Packets.Eth.{EthPacket}
use traffic_inspector.Dispatcher.{
  LeafOps, Dispatcher, Dispatchers, leaf, node, last, more, can_be_dispatchered, dispatching_result,
  find_true, dispatch, dispatch_at,
}
use traffic_inspector.Processor.{
  PacketProcessor, udp_protocol, radius_protocol, processor_ops, can_be_dispatchered_impl,
  packet_type,
}
use traffic_inspector.Processor.Answers.{is_dispatchable_type-answer}
use traffic_inspector.Program.{udp_subtree}

-- The subtree's index for each kind of traffic.
abbrev pub index_of : Traffic → Option ℕ
index_of radius_traffic = some 0
index_of udp_traffic = some 1
index_of tcp_traffic = none
index_of other_traffic = none

-- What a processor may do with a packet that it is given.
abbrev pub Handler : Type 0
Handler = PacketProcessor → Option EthPacket → Outcome (PacketProcessor × Option EthPacket × Bool)

-- Processors that handle what they are given in any way, and test packets as they do.
abbrev pub handling : Bool → ℕ → Handler → LeafOps PacketProcessor
handling ndebug depth handle = record (processor_ops ndebug depth) { on_dispatch = handle }

subtree_at :
    (ndebug : Bool) (depth : ℕ)
    → (handle : Handler) → (d : Buffer) (c : Traffic) (r u : PacketProcessor)
    → is_dispatchable_type udp depth d ≡ ok (udp_answer c)
    → is_dispatchable_type (packet_type r.protocol) depth d ≡ ok (radius_answer c)
    → is_dispatchable_type (packet_type u.protocol) depth d ≡ ok (udp_answer c)
    → can_be_dispatchered (handling ndebug depth handle) depth (udp_subtree r u) d ≡ ok (index_of c)
unfolding can_be_dispatchered dispatching_result can_be_dispatchered_impl find_true
subtree_at ndebug depth handle d radius_traffic r u a b e = rw (a, b)
subtree_at ndebug depth handle d udp_traffic r u a b e = rw (a, b, e)
subtree_at ndebug depth handle d tcp_traffic r u a b e = rw a
subtree_at ndebug depth handle d other_traffic r u a b e = rw a

-- The index of the subtree that takes a frame, whatever the processors do with it.
udp_subtree-classify :
    (ndebug : Bool) (depth : ℕ)
    → (handle : Handler) → (d : Buffer) (r u : PacketProcessor) → All IsByte d
    → r.protocol ≡ radius_protocol
    → u.protocol ≡ udp_protocol
    → can_be_dispatchered (handling ndebug depth handle) depth (udp_subtree r u) d
      ≡ ok (index_of (classify d))
udp_subtree-classify ndebug depth handle d r u h hr hu =
    subtree_at ndebug depth handle d (classify d) r u
      (unfold packet_type in is_dispatchable_type-answer udp_protocol depth d h)
      (rw hr (is_dispatchable_type-answer radius_protocol depth d h))
      (rw hu (is_dispatchable_type-answer udp_protocol depth d h))

-- What becomes of the subtree when a processor has answered.
abbrev pub put_back :
    (PacketProcessor → Dispatcher PacketProcessor)
    → Outcome (PacketProcessor × Option EthPacket × Bool)
    → Outcome (Dispatcher PacketProcessor × Option EthPacket × Bool)
put_back f m = m >>= λ q. ok (f q.0, q.1, true)

-- What becomes of a packet of each kind of traffic.
abbrev pub handled :
    Handler
    → PacketProcessor
    → PacketProcessor
    → Option EthPacket
    → Traffic
    → Outcome (Dispatcher PacketProcessor × Option EthPacket × Bool)
handled handle r u inst radius_traffic = put_back (λ r'. udp_subtree r' u) (handle r inst)
handled handle r u inst udp_traffic = put_back (λ u'. udp_subtree r u') (handle u inst)
handled handle r u inst tcp_traffic = ok (udp_subtree r u, inst, false)
handled handle r u inst other_traffic = ok (udp_subtree r u, inst, false)

-- The steps back from the answer of a leaf to that of the subtree.
abbrev from_leaf :
    Outcome (PacketProcessor × Option EthPacket × Bool)
    → Outcome (Dispatcher PacketProcessor × Option EthPacket × Bool)
from_leaf m = m >>= λ q. ok (leaf q.0, q.1, q.2)

abbrev from_subtree :
    (Dispatcher PacketProcessor → Dispatchers PacketProcessor)
    → Outcome (Dispatcher PacketProcessor × Option EthPacket × Bool)
    → Outcome (Dispatchers PacketProcessor × Option EthPacket)
from_subtree g m = m >>= λ q. ok (g q.0, q.1)

abbrev from_behind :
    Dispatcher PacketProcessor
    → Outcome (Dispatchers PacketProcessor × Option EthPacket)
    → Outcome (Dispatchers PacketProcessor × Option EthPacket)
from_behind x m = m >>= λ q. ok (more x q.0, q.1)

abbrev from_all :
    Outcome (Dispatchers PacketProcessor × Option EthPacket)
    → Outcome (Dispatcher PacketProcessor × Option EthPacket × Bool)
from_all m = m >>= λ q. ok (node udp q.0, q.1, true)

first-put_back :
    (u : PacketProcessor) (m : Outcome (PacketProcessor × Option EthPacket × Bool))
    → from_all (from_subtree (λ x. more x (last (leaf u))) (from_leaf m))
      ≡ put_back (λ r. udp_subtree r u) m
first-put_back u (ok q) = refl
first-put_back u (fault e) = refl
first-put_back u stuck = refl

second-put_back :
    (r : PacketProcessor) (m : Outcome (PacketProcessor × Option EthPacket × Bool))
    → from_all (from_behind (leaf r) (from_subtree last (from_leaf m)))
      ≡ put_back (λ u. udp_subtree r u) m
second-put_back r (ok q) = refl
second-put_back r (fault e) = refl
second-put_back r stuck = refl

-- However a processor handles a packet: dispatch through the UDP subtree gives RADIUS traffic to the
-- RADIUS processor and other UDP traffic to the UDP processor, changes no other one, and reports that
-- it has; a frame of other traffic it leaves with the caller, and says so.
pub udp_subtree-handled :
    (ndebug : Bool) (depth : ℕ)
    → (handle : Handler) → (raw : EthPacket) (d : Buffer) (r u : PacketProcessor)
    → raw.m_data ≡ some d
    → All IsByte d
    → r.protocol ≡ radius_protocol
    → u.protocol ≡ udp_protocol
    → dispatch (handling ndebug depth handle) depth (udp_subtree r u) (some raw)
      ≡ handled handle r u (some raw) (classify d)
unfolding dispatch dispatch_at
udp_subtree-handled ndebug depth handle raw d r u full h hr hu =
    ap (λ m. deref m >>= answer) full
    ∙ go (classify d) (udp_subtree-classify ndebug depth handle d r u h hr hu)
  where
    answer : Buffer → Outcome (Dispatcher PacketProcessor × Option EthPacket × Bool)
    answer d' =
        can_be_dispatchered (handling ndebug depth handle) depth (udp_subtree r u) d' >>= λ i.
        elim i [
          | none ↦ ok (udp_subtree r u, some raw, false)
          | some k ↦
              dispatch_at (handling ndebug depth handle) depth (more (leaf r) (last (leaf u))) k
                (some raw)
              >>= λ q. ok (node udp q.0, q.1, true)
        ]

    go :
        (c : Traffic)
        → can_be_dispatchered (handling ndebug depth handle) depth (udp_subtree r u) d
          ≡ ok (index_of c)
        → answer d ≡ handled handle r u (some raw) c
    go radius_traffic e = rw e (first-put_back u (handle r (some raw)))
    go udp_traffic e = rw e (second-put_back r (handle u (some raw)))
    go tcp_traffic e = rw e refl
    go other_traffic e = rw e refl
