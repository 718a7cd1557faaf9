-- ===== src/Packets/Dispatchable.antt =====
-- The static tests `isDispatchableTypeImpl` of the packet classes, and the forwarding through
-- IDispatchable (include/Dispatcher/IDispatchable.h) and BasePacket.
-- A pointer into the frame is its offset in the buffer.
pub mod Laws
use traffic_inspector.Base.{
  ℕ, zero, suc, ◌+◌, ◌==◌, if◌then◌else◌, ◌||◌, Outcome, ok, fault, stack_overflow, ◌>>=◌,
}
use traffic_inspector.Packets.Wire.{Buffer, byte_at, u16_at, ntohs}
use traffic_inspector.Packets.Types.{
  PacketType, eth, ip, udp, tcp, radius_udp, control_event, max_packet_type,
}

-- `false`, or `true` with `*next_level_header` set.
pub data Verdict : Type 0 where
  rejects : Verdict
  accepts : ℕ → Verdict

-- sizeof(ether_header), sizeof(iphdr), sizeof(udphdr), sizeof(tcphdr), sizeof(radiusheader).
abbrev pub ether_header_size : ℕ
ether_header_size = 14

abbrev pub ip_header_size : ℕ
ip_header_size = 20

abbrev pub udp_header_size : ℕ
udp_header_size = 8

abbrev pub tcp_header_size : ℕ
tcp_header_size = 20

abbrev pub radius_header_size : ℕ
radius_header_size = 20

abbrev pub ethertype_ip : ℕ
ethertype_ip = 0x0800

-- The payload of the Ethernet header starts at 14; `ether_type` is at 12.
unfoldable pub ip_is_dispatchable : Buffer → Verdict
ip_is_dispatchable d =
    if ntohs (u16_at d 12) == ethertype_ip then accepts ether_header_size else rejects

-- `protocol` is at offset 9 of the IP header.
udp_over : Buffer → Verdict → Verdict
udp_over d rejects = rejects
udp_over d (accepts p) = if byte_at d (p + 9) == 17 then accepts (p + ip_header_size) else rejects

unfoldable pub udp_is_dispatchable : Buffer → Verdict
unfolding udp_over ip_is_dispatchable
udp_is_dispatchable d = udp_over d (ip_is_dispatchable d)

tcp_over : Buffer → Verdict → Verdict
tcp_over d rejects = rejects
tcp_over d (accepts p) = if byte_at d (p + 9) == 6 then accepts (p + ip_header_size) else rejects

unfoldable pub tcp_is_dispatchable : Buffer → Verdict
unfolding tcp_over ip_is_dispatchable
tcp_is_dispatchable d = tcp_over d (ip_is_dispatchable d)

-- The source port is at offset 0 of the UDP header and the destination port at 2. The offset added
-- at the end is sizeof(IPPacket::HeaderType), as the code has it.
radius_over : Buffer → Verdict → Verdict
radius_over d rejects = rejects
radius_over d (accepts p) =
    let dport = ntohs (u16_at d (p + 2)) in
    let sport = ntohs (u16_at d p) in
    if (dport == 1812 || dport == 1813) || (sport == 1812 || sport == 1813)
    then accepts (p + ip_header_size)
    else rejects

unfoldable pub radius_is_dispatchable : Buffer → Verdict
unfolding radius_over udp_is_dispatchable
radius_is_dispatchable d = radius_over d (udp_is_dispatchable d)

-- ETHPacket declares no `isDispatchableTypeImpl`, so BasePacket's, which calls
-- `ConcretePacket::isDispatchableTypeImpl`, finds itself. The first argument is the free stack.
unfoldable pub eth_is_dispatchable : ℕ → Buffer → Outcome Verdict
eth_is_dispatchable zero d = fault stack_overflow
eth_is_dispatchable (suc depth) d = eth_is_dispatchable depth d

-- `Packet::isDispatchableType(inst, outInfo)` for each packet class. No class has the last two
-- types.
unfoldable pub is_dispatchable_type : PacketType → ℕ → Buffer → Outcome Verdict
is_dispatchable_type eth depth d = eth_is_dispatchable depth d
is_dispatchable_type ip depth d = ok (ip_is_dispatchable d)
is_dispatchable_type udp depth d = ok (udp_is_dispatchable d)
is_dispatchable_type tcp depth d = ok (tcp_is_dispatchable d)
is_dispatchable_type radius_udp depth d = ok (radius_is_dispatchable d)
is_dispatchable_type control_event depth d = ok rejects
is_dispatchable_type max_packet_type depth d = ok rejects
