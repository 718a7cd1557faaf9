-- ===== src/Worker/Ledger/Refines.antt =====
-- The thread against the ledger (include/PacketProcessor.hpp).
use traffic_inspector.Base.{
  ℕ, ◌≡◌, refl, sym, ap, ◌∙◌, Bool, true, false, List, [], ◌∷◌, All, Option-cases, inl, inr, ok,
  append-nil,
}
use traffic_inspector.Packets.Types.{
  ControlMessageId, processing, sync_timeout, shutdown, max_control_message_id,
}
use traffic_inspector.Packets.Avp.Storage.{AvpStorage}
use traffic_inspector.Packets.Radius.{RadiusPacket}
use traffic_inspector.Worker.SessionMap.{find}
use traffic_inspector.Worker.Sweep.{on_sync_timeout_lem}
use traffic_inspector.Worker.Pairing.{on_keyed_lem}
use traffic_inspector.Worker.Accounting.{
  IsValid, HasKey, ends, on_keyed-m_stop, Round, ordinary, timeout,
}
use traffic_inspector.Worker.Ledger.{
  Ledger, ledger_of, exchange, give_up, settle, settle_of, or_zero,
}
use traffic_inspector.Worker.{
  Settings, Worker, Turn, on_keyed, on_sync_timeout, session_key, process_packet, process_packets,
}

-- Ledgers are equal when they agree on each identifier.
ledger_path :
    (a b : Ledger)
    → ((k : ℕ) → a.waiting k ≡ b.waiting k)
    → a.reports ≡ b.reports
    → a.stopped ≡ b.stopped
    → a ≡ b
ledger_path a b h p q = λ i. record { waiting = λ k. h k i; reports = p i; stopped = q i }

ledger_of-on_keyed :
    (c : Settings) (monotonic k : ℕ) (p : RadiusPacket) (w : Worker)
    → IsValid w
    → ledger_of (on_keyed c monotonic k p w) ≡ exchange c monotonic k p (ledger_of w)
ledger_of-on_keyed c monotonic k p w v =
    let (s, a) = on_keyed_lem c monotonic k p w v.keys in
    let stop = on_keyed-m_stop c monotonic k p w in
    elim (Option-cases (find k w.sessions)) [
      | inl e ↦
          rw (e, exchange)
            (ledger_path _ _ (λ i. s i ∙ rw e refl) (a ∙ rw e (append-nil w.notifications)) stop)
      | inr (q, e) ↦ rw (e, exchange) (ledger_path _ _ (λ i. s i ∙ rw e refl) (a ∙ rw e refl) stop)
    ]

ledger_of-on_sync_timeout :
    (c : Settings) (now : ℕ) (w : Worker)
    → IsValid w
    → ledger_of (on_sync_timeout c now w) ≡ give_up c now (ledger_of w)
unfolding on_sync_timeout
ledger_of-on_sync_timeout c now w v =
    ledger_path _ _ (on_sync_timeout_lem c now w v.keys).0 refl refl

-- A run from `w` over the turns, and the ledger that it stands for.
abbrev Settles : Settings → List Turn → Worker → Type 0
Settles c ts w =
    (w' : Worker) × (process_packets c ts w ≡ ok (ends ts, w'))
    × (ledger_of w' ≡ settle c ts (ledger_of w))

-- A round that goes on, and the run behind it.
round-Settles :
    (c : Settings) (t : Turn) (ts : List Turn) (w w' : Worker) (taken : List AvpStorage)
    (l : Ledger)
    → t.stop_flag ≡ false
    → Round c t w w' taken
    → ledger_of w' ≡ l
    → settle c (t ∷ ts) (ledger_of w) ≡ settle c ts l
    → Settles c ts w'
    → Settles c (t ∷ ts) w
unfolding process_packets
round-Settles c t ts w w' taken l s r e f (w'', run, led) =
    (w'', rw (s, r.steps, run, r.goes_on (ends ts)), led ∙ ap (settle c ts) e ∙ sym f)

settle_ordinary :
    (c : Settings) (t : Turn) (ts : List Turn) (l : Ledger) (k : ℕ)
    → t.stop_flag ≡ false
    → ((after : Ledger → Ledger) (l : Ledger)
        → settle_of t.packet.ctrl_message_id c t after l ≡ settle_of processing c t after l)
    → session_key c t.packet ≡ ok k
    → settle c (t ∷ ts) l ≡ settle c ts (exchange c t.monotonic k t.packet l)
settle_ordinary c t ts l k s e key =
    rw s (e (settle c ts) l)
    ∙ ap (λ q. settle c ts (exchange c t.monotonic (or_zero q) t.packet l)) key

step-Settles :
    (c : Settings) (t : Turn) (ts : List Turn) (w : Worker) (m : ControlMessageId) (b : Bool)
    → t.packet.ctrl_message_id ≡ m
    → t.stop_flag ≡ b
    → IsValid w
    → HasKey c t
    → ((w' : Worker) → IsValid w' → Settles c ts w')
    → Settles c (t ∷ ts) w
unfolding process_packets process_packet
step-Settles c t ts w m true e s v h ih = (w, rw s, rw s refl)
step-Settles c t ts w shutdown false e s v h ih =
    (record w { m_stop = true }, rw (s, e), rw (s, e) refl)
step-Settles c t ts w sync_timeout false e s v h ih =
    let r = timeout c t w e v in
    round-Settles c t ts w _ [] _ s r (ledger_of-on_sync_timeout c t.now w v) (rw (s, e) refl)
      (ih _ r.valid)
step-Settles c t ts w processing false e s v (k, key) ih =
    let r = ordinary c t w processing k e (inl refl) v key in
    round-Settles c t ts w _ (t.packet.m_avps ∷ []) _ s r
      (ledger_of-on_keyed c t.monotonic k t.packet w v)
      (settle_ordinary c t ts (ledger_of w) k s (λ after l. ap (λ q. settle_of q c t after l) e)
        key)
      (ih _ r.valid)
step-Settles c t ts w max_control_message_id false e s v (k, key) ih =
    let r = ordinary c t w max_control_message_id k e (inr refl) v key in
    round-Settles c t ts w _ (t.packet.m_avps ∷ []) _ s r
      (ledger_of-on_keyed c t.monotonic k t.packet w v)
      (settle_ordinary c t ts (ledger_of w) k s (λ after l. ap (λ q. settle_of q c t after l) e)
        key)
      (ih _ r.valid)

-- A thread in a valid state whose packets' identifiers can be read runs as the ledger says: over any
-- turns it returns, and its sessions, reports and stop flag are those of the ledger of its turns.
pub process_packets-settle :
    (c : Settings) (ts : List Turn) (w : Worker)
    → IsValid w
    → All (HasKey c) ts
    → (w' : Worker) × (process_packets c ts w ≡ ok (ends ts, w'))
      × (ledger_of w' ≡ settle c ts (ledger_of w))
process_packets-settle c [] w v h = (w, unfold process_packets in refl, refl)
process_packets-settle c (t ∷ ts) w v h =
    step-Settles c t ts w t.packet.ctrl_message_id t.stop_flag refl refl v h.0
      λ w' v'. process_packets-settle c ts w' v' h.1
