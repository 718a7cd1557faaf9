-- ===== src/Processor/Crash.antt =====
-- `onDispatchImpl` of include/PacketProcessor.hpp as a whole.
use traffic_inspector.Base.{
  ◌≡◌, refl, Bool, Option, none, some, Outcome, ok, fault, stuck, null_dereference, ◌>>=◌,
  >>=-eq-ok, deref, arith,
}
use traffic_inspector.Packets.Avp.{parse_raw}
use traffic_inspector.Packets.Eth.{EthPacket}
use traffic_inspector.Packets.Ip.{IpPacket, ip_from_raw}
use traffic_inspector.Packets.Udp.{UdpPacket, udp_from_raw}
use traffic_inspector.Packets.Tcp.{TcpPacket, tcp_from_raw}
use traffic_inspector.Packets.Radius.{RadiusPacket, radius_from_raw}
use traffic_inspector.Processor.{
  Protocol, udp_protocol, tcp_protocol, radius_protocol, SpecificPacket, PacketProcessor,
  create_packet_ptr, on_dispatch_impl,
}

ip_from_raw_rest :
    (inst rest : Option EthPacket) (p : IpPacket) → ip_from_raw inst ≡ ok (p, rest) → rest ≡ none
unfolding ip_from_raw
ip_from_raw_rest none rest p e = absurd (cc)
ip_from_raw_rest (some raw) rest p e = ground arith

udp_from_raw_rest :
    (inst rest : Option EthPacket) (p : UdpPacket) → udp_from_raw inst ≡ ok (p, rest) → rest ≡ none
unfolding udp_from_raw
udp_from_raw_rest none rest p e = absurd (cc)
udp_from_raw_rest (some raw) rest p e = ground arith

tcp_from_raw_rest :
    (inst rest : Option EthPacket) (p : TcpPacket) → tcp_from_raw inst ≡ ok (p, rest) → rest ≡ none
unfolding tcp_from_raw
tcp_from_raw_rest none rest p e = absurd (cc)
tcp_from_raw_rest (some raw) rest p e = ground arith

radius_from_raw_rest :
    (ndebug : Bool) (inst rest : Option EthPacket) (p : RadiusPacket)
    → radius_from_raw ndebug inst ≡ ok (p, rest)
    → rest ≡ none
unfolding radius_from_raw
radius_from_raw_rest ndebug none rest p e = absurd (cc)
radius_from_raw_rest ndebug (some raw) rest p e =
    let (d, e₁, r₁) = >>=-eq-ok (deref raw.m_data) _ e in
    let (m, e₂, r₂) = >>=-eq-ok (parse_raw ndebug d 42 _) _ r₁ in ground arith

-- Every processor's packet takes the pool item over.
create_packet_ptr_rest :
    (ndebug : Bool) (k : Protocol) (inst rest : Option EthPacket) (x : SpecificPacket)
    → create_packet_ptr ndebug k inst ≡ ok (x, rest)
    → rest ≡ none
unfolding create_packet_ptr
create_packet_ptr_rest ndebug udp_protocol inst rest x e =
    let ((p, r), e₁, e₂) = >>=-eq-ok (udp_from_raw inst) _ e in
    let q = udp_from_raw_rest inst r p e₁ in ground arith
create_packet_ptr_rest ndebug tcp_protocol inst rest x e =
    let ((p, r), e₁, e₂) = >>=-eq-ok (tcp_from_raw inst) _ e in
    let q = tcp_from_raw_rest inst r p e₁ in ground arith
create_packet_ptr_rest ndebug radius_protocol inst rest x e =
    let ((p, r), e₁, e₂) = >>=-eq-ok (radius_from_raw ndebug inst) _ e in
    let q = radius_from_raw_rest ndebug inst r p e₁ in ground arith

-- Whatever the processor and the item, `onDispatchImpl` makes the packet, and where that returns it
-- dereferences null: no call of it returns.
pub on_dispatch_impl_crashes :
    (ndebug : Bool) (p : PacketProcessor) (inst : Option EthPacket)
    → on_dispatch_impl ndebug p inst
      ≡ (create_packet_ptr ndebug p.protocol inst >>= λ r. fault null_dereference)
unfolding on_dispatch_impl
on_dispatch_impl_crashes ndebug p inst = go (create_packet_ptr ndebug p.protocol inst) refl
  where
    go :
        (m : Outcome (SpecificPacket × Option EthPacket))
        → create_packet_ptr ndebug p.protocol inst ≡ m
        → on_dispatch_impl ndebug p inst
          ≡ (create_packet_ptr ndebug p.protocol inst >>= λ r. fault null_dereference)
    go (ok (x, rest)) e = rw (e, create_packet_ptr_rest ndebug p.protocol inst rest x e)
    go (fault f) e = rw e
    go stuck e = rw e
