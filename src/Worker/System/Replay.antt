-- ===== src/Worker/System/Replay.antt =====
-- The turns of one thread of include/PacketProcessor.hpp, one after the other.
use traffic_inspector.Base.{
  ◌≡◌, refl, subst, ◌>>=◌, Bool, true, false, List, [], ◌∷◌, ◌++◌, ok, fault, stuck, Outcome, arith,
  >>=-eq-ok,
}
use traffic_inspector.Packets.Types.{
  ControlMessageId, processing, sync_timeout, shutdown, max_control_message_id,
}
use traffic_inspector.Worker.Accounting.{on_keyed-m_stop}
use traffic_inspector.Worker.{
  Settings, Worker, Turn, Step, continue, finish, process_packet, process_packets, on_packet,
  on_sync_timeout, session_key,
}

-- Whether the thread returns with the step, and its variables.
abbrev pub ends_with : Step → Bool × Worker
ends_with (continue w) = (false, w)
ends_with (finish w) = (true, w)

-- A turn behind turns after which the thread has not returned.
pub process_packets-append :
    (c : Settings) (ts : List Turn) (t : Turn) (w w₁ : Worker) (s : Step)
    → t.stop_flag ≡ false
    → process_packets c ts w ≡ ok (false, w₁)
    → process_packet c t w₁ ≡ ok s
    → process_packets c (ts ++ (t ∷ [])) w ≡ ok (ends_with s)
unfolding process_packets
process_packets-append c [] t w w₁ s stop run e =
    let same : w ≡ w₁ = ground arith in go s (rw (← same) at e)
  where
    go : (r : Step) → process_packet c t w ≡ ok r → process_packets c (t ∷ []) w ≡ ok (ends_with r)
    go (continue w') e = rw (stop, e, process_packets)
    go (finish w') e = rw (stop, e, process_packets)
process_packets-append c (u ∷ us) t w w₁ s stop run e =
    go u.stop_flag (process_packet c u w) refl refl
      λ w' run'. process_packets-append c us t w' w₁ s stop run' e
  where
    go :
        (b : Bool) (r : Outcome Step)
        → u.stop_flag ≡ b
        → process_packet c u w ≡ r
        → ((w' : Worker)
            → process_packets c us w' ≡ ok (false, w₁)
            → process_packets c (us ++ (t ∷ [])) w' ≡ ok (ends_with s))
        → process_packets c (u ∷ (us ++ (t ∷ []))) w ≡ ok (ends_with s)
    go true r p q ih = absurd (ground arith)
    go false (ok (continue w')) p q ih = ground (arith, ih w')
    go false (ok (finish w')) p q ih = absurd (ground arith)
    go false (fault f) p q ih = absurd (ground arith)
    go false stuck p q ih = absurd (ground arith)

-- A thread sets the flag exactly when it returns.
abbrev pub Sets : Step → Worker → Type 0
Sets (continue w') w = w'.m_stop ≡ w.m_stop
Sets (finish w') w = w'.m_stop ≡ true

on_packet-m_stop :
    (c : Settings) (t : Turn) (w w' : Worker)
    → on_packet c t.monotonic t.packet w ≡ ok w'
    → w'.m_stop ≡ w.m_stop
unfolding on_packet
on_packet-m_stop c t w w' e =
    let (k, e₁, e₂) = >>=-eq-ok (session_key c t.packet) _ e in
    ground (arith, on_keyed-m_stop c t.monotonic k t.packet w)

pub process_packet-Sets :
    (c : Settings) (t : Turn) (w : Worker) (s : Step) → process_packet c t w ≡ ok s → Sets s w
unfolding process_packet
process_packet-Sets c t w s e = go t.packet.ctrl_message_id refl
  where
    ordinary : (on_packet c t.monotonic t.packet w >>= λ w'. ok (continue w')) ≡ ok s → Sets s w
    ordinary e' =
        let (w', e₁, e₂) = >>=-eq-ok (on_packet c t.monotonic t.packet w) _ e' in
        let keeps = on_packet-m_stop c t w w' e₁ in
        let same : continue w' ≡ s = ground arith in subst (λ q. Sets q w) same keeps

    go : (m : ControlMessageId) → t.packet.ctrl_message_id ≡ m → Sets s w
    go processing p =
        let e' : (on_packet c t.monotonic t.packet w >>= λ w'. ok (continue w')) ≡ ok s =
          ground arith in
        ordinary e'
    go sync_timeout p =
        let same : continue (on_sync_timeout c t.now w) ≡ s = ground arith in
        subst (λ q. Sets q w) same (unfold on_sync_timeout in refl)
    go shutdown p =
        let same : finish (record w { m_stop = true }) ≡ s = ground arith in
        subst (λ q. Sets q w) same refl
    go max_control_message_id p =
        let e' : (on_packet c t.monotonic t.packet w >>= λ w'. ok (continue w')) ≡ ok s =
          ground arith in
        ordinary e'
