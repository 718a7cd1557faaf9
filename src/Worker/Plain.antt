-- ===== src/Worker/Plain.antt =====
-- The threads of the UDP and the TCP processor, which only log what they receive.
use traffic_inspector.Base.{
  ◌≡◌, ◌≢◌, refl, ap, sym, subst, inl, inr, Bool, true, false, List, [], ◌∷◌, ◌++◌, All, arith, ◌⊎◌,
}
use traffic_inspector.Packets.Types.{
  ControlMessageId, processing, sync_timeout, shutdown, max_control_message_id,
}
use traffic_inspector.Packets.Udp.{UdpPacket}
use traffic_inspector.Packets.Tcp.{TcpPacket}

-- A round: the stop flag when it is tested, and the packet that is taken if it is not set.
abbrev pub PlainTurn : Type 0 → Type 0
PlainTurn P = Bool × P

-- Where the thread stands: it waits for a packet, or has ended on the set flag, or on a SHUTDOWN,
-- when it has set `m_stop`.
pub data Standing : Type 0 where
  waiting stop_seen stop_set : Standing

-- Where it stands, and the turns that it has left.
unfoldable pub process_udp_packets :
    List (PlainTurn UdpPacket) → Standing × List (PlainTurn UdpPacket)
process_udp_packets [] = (waiting, [])
process_udp_packets ((stop, p) ∷ ts) = elim stop [
  | true ↦ (stop_seen, (true, p) ∷ ts)
  | false ↦ elim p.ctrl_message_id [ shutdown ↦ (stop_set, ts) | _ ↦ process_udp_packets ts ]
]

unfoldable pub process_tcp_packets :
    List (PlainTurn TcpPacket) → Standing × List (PlainTurn TcpPacket)
process_tcp_packets [] = (waiting, [])
process_tcp_packets ((stop, p) ∷ ts) = elim stop [
  | true ↦ (stop_seen, (true, p) ∷ ts)
  | false ↦ elim p.ctrl_message_id [ shutdown ↦ (stop_set, ts) | _ ↦ process_tcp_packets ts ]
]

-- The thread passes over the turn: the flag is not set and the packet is no SHUTDOWN.
abbrev pub Passes : {P : Type 0} → (P → ControlMessageId) → PlainTurn P → Type 0
Passes m t = (t.0 ≡ false) × (m t.1 ≢ shutdown)

-- Where a thread stands after the turns `ts`, and why: it has passed over all of them, or over
-- those in front of a set flag, or over those in front of a SHUTDOWN, which it has taken.
pub data Ended {P : Type 0} (m : P → ControlMessageId) (ts : List (PlainTurn P))
    : Standing → List (PlainTurn P) → Type 0 where
  waits : All (Passes m) ts → Ended m ts waiting []
  flagged :
      (front : List (PlainTurn P)) (p : P) (rest : List (PlainTurn P))
      → All (Passes m) front
      → ts ≡ front ++ ((true, p) ∷ rest)
      → Ended m ts stop_seen ((true, p) ∷ rest)
  shut :
      (front : List (PlainTurn P)) (p : P) (rest : List (PlainTurn P))
      → All (Passes m) front
      → m p ≡ shutdown
      → ts ≡ front ++ ((false, p) ∷ rest)
      → Ended m ts stop_set rest

pass :
    {P : Type 0} (m : P → ControlMessageId) (t : PlainTurn P) (ts : List (PlainTurn P))
    (b : Standing) (rest : List (PlainTurn P))
    → Passes m t
    → Ended m ts b rest
    → Ended m (t ∷ ts) b rest
pass m t ts b rest h (waits a) = waits (h, a)
pass m t ts b rest h (flagged front p rest' a e) =
    flagged (t ∷ front) p rest' (h, a) (ap (λ q. t ∷ q) e)
pass m t ts b rest h (shut front p rest' a s e) =
    shut (t ∷ front) p rest' (h, a) s (ap (λ q. t ∷ q) e)

shutdown_or : (m : ControlMessageId) → (m ≡ shutdown) ⊎ (m ≢ shutdown)
shutdown_or shutdown = inl refl
shutdown_or processing = inr (λ e. cc)
shutdown_or sync_timeout = inr (λ e. cc)
shutdown_or max_control_message_id = inr (λ e. cc)

udp_passes :
    (p : UdpPacket) (ts : List (PlainTurn UdpPacket))
    → p.ctrl_message_id ≢ shutdown
    → process_udp_packets ((false, p) ∷ ts) ≡ process_udp_packets ts
unfolding process_udp_packets
udp_passes p ts h = ground arith

udp_shut :
    (p : UdpPacket) (ts : List (PlainTurn UdpPacket))
    → p.ctrl_message_id ≡ shutdown
    → process_udp_packets ((false, p) ∷ ts) ≡ (stop_set, ts)
unfolding process_udp_packets
udp_shut p ts e = ground arith

abbrev UdpEnded : List (PlainTurn UdpPacket) → Standing × List (PlainTurn UdpPacket) → Type 0
UdpEnded ts r = Ended (λ p. p.ctrl_message_id) ts r.0 r.1

udp_turn :
    (p : UdpPacket) (ts : List (PlainTurn UdpPacket)) (stop : Bool)
    → UdpEnded ts (process_udp_packets ts)
    → UdpEnded ((stop, p) ∷ ts) (process_udp_packets ((stop, p) ∷ ts))
udp_turn p ts true h = unfold process_udp_packets in flagged [] p ts tt refl
udp_turn p ts false h = elim (shutdown_or p.ctrl_message_id) [
  | inl e ↦ subst (UdpEnded ((false, p) ∷ ts)) (sym (udp_shut p ts e)) (shut [] p ts tt e refl)
  | inr n ↦
      subst (UdpEnded ((false, p) ∷ ts)) (sym (udp_passes p ts n))
        (pass (λ q. q.ctrl_message_id) (false, p) ts _ _ (refl, n) h)
]

process_udp_packets-Ended :
    (ts : List (PlainTurn UdpPacket))
    → Ended (λ p. p.ctrl_message_id) ts (process_udp_packets ts).0 (process_udp_packets ts).1
process_udp_packets-Ended [] = unfold process_udp_packets in waits tt
process_udp_packets-Ended ((stop, p) ∷ ts) = udp_turn p ts stop (process_udp_packets-Ended ts)

tcp_passes :
    (p : TcpPacket) (ts : List (PlainTurn TcpPacket))
    → p.ctrl_message_id ≢ shutdown
    → process_tcp_packets ((false, p) ∷ ts) ≡ process_tcp_packets ts
unfolding process_tcp_packets
tcp_passes p ts h = ground arith

tcp_shut :
    (p : TcpPacket) (ts : List (PlainTurn TcpPacket))
    → p.ctrl_message_id ≡ shutdown
    → process_tcp_packets ((false, p) ∷ ts) ≡ (stop_set, ts)
unfolding process_tcp_packets
tcp_shut p ts e = ground arith

abbrev TcpEnded : List (PlainTurn TcpPacket) → Standing × List (PlainTurn TcpPacket) → Type 0
TcpEnded ts r = Ended (λ p. p.ctrl_message_id) ts r.0 r.1

tcp_turn :
    (p : TcpPacket) (ts : List (PlainTurn TcpPacket)) (stop : Bool)
    → TcpEnded ts (process_tcp_packets ts)
    → TcpEnded ((stop, p) ∷ ts) (process_tcp_packets ((stop, p) ∷ ts))
tcp_turn p ts true h = unfold process_tcp_packets in flagged [] p ts tt refl
tcp_turn p ts false h = elim (shutdown_or p.ctrl_message_id) [
  | inl e ↦ subst (TcpEnded ((false, p) ∷ ts)) (sym (tcp_shut p ts e)) (shut [] p ts tt e refl)
  | inr n ↦
      subst (TcpEnded ((false, p) ∷ ts)) (sym (tcp_passes p ts n))
        (pass (λ q. q.ctrl_message_id) (false, p) ts _ _ (refl, n) h)
]

process_tcp_packets-Ended :
    (ts : List (PlainTurn TcpPacket))
    → Ended (λ p. p.ctrl_message_id) ts (process_tcp_packets ts).0 (process_tcp_packets ts).1
process_tcp_packets-Ended [] = unfold process_tcp_packets in waits tt
process_tcp_packets-Ended ((stop, p) ∷ ts) = tcp_turn p ts stop (process_tcp_packets-Ended ts)

-- The UDP thread and the TCP thread each end at the first turn with a set flag or a SHUTDOWN, and wait
-- if there is none; each sets the flag itself exactly on the SHUTDOWN.
pub process_plain_packets-Ended :
    (us : List (PlainTurn UdpPacket)) (ts : List (PlainTurn TcpPacket))
    → Ended (λ p. p.ctrl_message_id) us (process_udp_packets us).0 (process_udp_packets us).1
      × Ended (λ p. p.ctrl_message_id) ts (process_tcp_packets ts).0 (process_tcp_packets ts).1
process_plain_packets-Ended us ts = (process_udp_packets-Ended us, process_tcp_packets-Ended ts)
