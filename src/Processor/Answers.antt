-- ===== src/Processor/Answers.antt =====
-- The dispatch test of a processor's packet class, by kind of traffic.
use traffic_inspector.Base.{ℕ, ◌≡◌, ap, All, ok}
use traffic_inspector.Packets.Wire.{Buffer, IsByte}
use traffic_inspector.Packets.Dispatchable.{Verdict, is_dispatchable_type}
use traffic_inspector.Packets.Dispatchable.Laws.{
  Traffic, classify, dispatchable_answers, radius_answer, udp_answer, tcp_answer,
}
use traffic_inspector.Processor.{Protocol, udp_protocol, tcp_protocol, radius_protocol, packet_type}

-- The answer of a protocol's packet class to a kind of traffic.
abbrev pub answer : Protocol → Traffic → Verdict
answer udp_protocol c = udp_answer c
answer tcp_protocol c = tcp_answer c
answer radius_protocol c = radius_answer c

pub is_dispatchable_type-answer :
    (k : Protocol) (depth : ℕ) (d : Buffer)
    → All IsByte d
    → is_dispatchable_type (packet_type k) depth d ≡ ok (answer k (classify d))
unfolding is_dispatchable_type packet_type
is_dispatchable_type-answer udp_protocol depth d h = ap ok (dispatchable_answers d h).0
is_dispatchable_type-answer tcp_protocol depth d h = ap ok (dispatchable_answers d h).1
is_dispatchable_type-answer radius_protocol depth d h = ap ok (dispatchable_answers d h).2
