-- ===== src/Router/Select.antt =====
-- The flags that `route` of include/PacketRouter.hpp computes for a frame.
use traffic_inspector.Base.{ℕ, ◌≡◌, Bool, true, false, List, [], ◌∷◌, All, ok}
use traffic_inspector.Packets.Wire.{Buffer, IsByte}
use traffic_inspector.Packets.Dispatchable.{is_dispatchable_type}
use traffic_inspector.Packets.Dispatchable.Laws.{
  Traffic, radius_traffic, udp_traffic, tcp_traffic, other_traffic, classify, radius_answer,
  udp_answer, tcp_answer,
}
use traffic_inspector.Processor.{
  PacketProcessor, udp_protocol, tcp_protocol, radius_protocol, packet_type,
}
use traffic_inspector.Processor.Answers.{is_dispatchable_type-answer}
use traffic_inspector.Router.{conv_result}

-- The flags of a RADIUS, a UDP and a TCP processor, in this order.
abbrev pub flags_of : Traffic → List Bool
flags_of radius_traffic = true ∷ false ∷ false ∷ []
flags_of udp_traffic = false ∷ true ∷ false ∷ []
flags_of tcp_traffic = false ∷ false ∷ true ∷ []
flags_of other_traffic = false ∷ false ∷ false ∷ []

flags_at :
    (depth : ℕ) (d : Buffer) (c : Traffic) (r u t : PacketProcessor)
    → is_dispatchable_type (packet_type r.protocol) depth d ≡ ok (radius_answer c)
    → is_dispatchable_type (packet_type u.protocol) depth d ≡ ok (udp_answer c)
    → is_dispatchable_type (packet_type t.protocol) depth d ≡ ok (tcp_answer c)
    → conv_result depth false (r ∷ u ∷ t ∷ []) d ≡ ok (flags_of c)
unfolding conv_result
flags_at depth d radius_traffic r u t a b e = rw a
flags_at depth d udp_traffic r u t a b e = rw (a, b)
flags_at depth d tcp_traffic r u t a b e = rw (a, b, e)
flags_at depth d other_traffic r u t a b e = rw (a, b, e)

-- With processors for RADIUS, UDP and TCP in this order, each frame is flagged for the processor of
-- its kind of traffic and for no other, and other traffic for none.
pub conv_result-classify :
    (depth : ℕ) (d : Buffer) (r u t : PacketProcessor)
    → All IsByte d
    → r.protocol ≡ radius_protocol
    → u.protocol ≡ udp_protocol
    → t.protocol ≡ tcp_protocol
    → conv_result depth false (r ∷ u ∷ t ∷ []) d ≡ ok (flags_of (classify d))
conv_result-classify depth d r u t h hr hu ht =
    flags_at depth d (classify d) r u t
      (rw hr (is_dispatchable_type-answer radius_protocol depth d h))
      (rw hu (is_dispatchable_type-answer udp_protocol depth d h))
      (rw ht (is_dispatchable_type-answer tcp_protocol depth d h))
