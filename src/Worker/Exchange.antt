-- ===== src/Worker/Exchange.antt =====
-- A request's frame and its response's, through the packets that are built from them to the
-- notification.
use traffic_inspector.Base.{
  ℕ, ◌≡◌, refl, ◌∙◌, sym, ap, Bool, false, [], ◌∷◌, ◌++◌, none, some, ok, ◌==◌, ==_refl, append-nil,
  Bool-cases, inl, inr, ==_iff,
}
use traffic_inspector.Packets.Wire.{Buffer, byte_at}
use traffic_inspector.Packets.Eth.{EthPacket}
use traffic_inspector.Packets.Avp.Storage.{AvpStorage}
use traffic_inspector.Packets.Radius.{RadiusPacket, radius_from_raw, radius_session_pair}
use traffic_inspector.Packets.Radius.Receive.{built, radius_from_raw_inv}
use traffic_inspector.Packets.Radius.Hash.{IsResponse}
use traffic_inspector.Worker.SessionMap.{find}
use traffic_inspector.Worker.Pairing.{report, on_keyed_lem}
use traffic_inspector.Worker.Accounting.{IsValid, on_keyed-IsValid, on_packet_key}
use traffic_inspector.Worker.{
  Settings, Worker, Turn, continue, on_keyed, session_key, process_packet, process_packets,
}

-- A turn with the packet, while the stop flag is not set.
abbrev pub turn_of : RadiusPacket → ℕ → ℕ → Turn
turn_of p now monotonic = record { stop_flag = false; packet = p; now = now; monotonic = monotonic }

-- The key of a packet that was built from a frame is the identifier in the frame.
built_key :
    (c : Settings) (e : EthPacket) (d : Buffer) (m : AvpStorage)
    → e.m_data ≡ some d
    → session_key c (built e m) ≡ ok (byte_at d 43)
unfolding session_key radius_session_pair
built_key c e d m h = rw h

built_round :
    (c : Settings) (e : EthPacket) (d : Buffer) (m : AvpStorage) (now monotonic : ℕ) (w : Worker)
    → e.m_data ≡ some d
    → process_packet c (turn_of (built e m) now monotonic) w
      ≡ ok (continue (on_keyed c monotonic (byte_at d 43) (built e m) w))
unfolding process_packet
built_round c e d m now monotonic w h =
    on_packet_key c monotonic (byte_at d 43) (built e m) w (built_key c e d m h)

two_rounds :
    (c : Settings) (t u : Turn) (w w₁ w₂ : Worker)
    → t.stop_flag ≡ false
    → u.stop_flag ≡ false
    → process_packet c t w ≡ ok (continue w₁)
    → process_packet c u w₁ ≡ ok (continue w₂)
    → process_packets c (t ∷ u ∷ []) w ≡ ok (false, w₂)
unfolding process_packets
two_rounds c t u w w₁ w₂ s r e f = rw (s, e, r, f)

-- Two packets with one key, where its session is not open: the first is reported with the second,
-- and the sessions are as before.
pair_lem :
    (c : Settings) (n n' k : ℕ) (p q : RadiusPacket) (w : Worker)
    → IsValid w
    → find k w.sessions ≡ none
    → let w' = on_keyed c n' k q (on_keyed c n k p w) in
      ((i : ℕ) → find i w'.sessions ≡ find i w.sessions)
      × (w'.notifications ≡ w.notifications ++ (report c n' q p ∷ []))
pair_lem c n n' k p q w v free =
    let w₁ = on_keyed c n k p w in
    let (s, a) = on_keyed_lem c n k p w v.keys in
    let (t, b) = on_keyed_lem c n' k q w₁ (on_keyed-IsValid c n k p w v).keys in
    let open' : find k w₁.sessions ≡ some p = s k ∙ rw (==_refl k, free) refl in
    let none_yet : w₁.notifications ≡ w.notifications = a ∙ rw free (append-nil w.notifications) in
    (
      λ i. t i ∙ elim (Bool-cases (k == i)) [
        | inl y ↦
            let same : k ≡ i = (==_iff k i).0 y in
            rw (y, open') (sym free ∙ ap (λ j. find j w.sessions) same)
        | inr y ↦ rw y (s i ∙ rw y)
      ],
      b ∙ rw (open', none_yet) refl,
    )

-- A worker that is given the packets built from a request's frame and from its response's, when no
-- session with the identifier is open, goes on, has reported the two to the notifier in one
-- notification with the attributes of both, and has the sessions that it had.
pub process_packets_exchange :
    (ndebug : Bool) (c : Settings) (e f : EthPacket) (d d' : Buffer) (p q : RadiusPacket)
    → (now monotonic now' monotonic' : ℕ) (w : Worker) → e.m_data ≡ some d
    → f.m_data ≡ some d'
    → radius_from_raw ndebug (some e) ≡ ok (p, none)
    → radius_from_raw ndebug (some f) ≡ ok (q, none)
    → IsResponse d d'
    → IsValid w
    → find (byte_at d 43) w.sessions ≡ none
    → (w' : Worker) × (process_packets c
          (turn_of p now monotonic ∷ turn_of q now' monotonic' ∷ [])
          w
        ≡ ok (false, w'))
      × ((i : ℕ) → find i w'.sessions ≡ find i w.sessions)
      × (w'.notifications ≡ w.notifications ++ (report c monotonic' q p ∷ []))
process_packets_exchange ndebug c e f d d' p q now monotonic now' monotonic' w he hf ep eq r v
      free =
    let (m, _, pe, _) = radius_from_raw_inv ndebug e d p none he ep in
    let (n, _, qe, _) = radius_from_raw_inv ndebug f d' q none hf eq in
    let k = byte_at d 43 in
    let w₁ = on_keyed c monotonic k (built e m) w in
    let w₂ = on_keyed c monotonic' k (built f n) w₁ in
    let second : process_packet c (turn_of (built f n) now' monotonic') w₁ ≡ ok (continue w₂) =
      built_round c f d' n now' monotonic' w₁ hf
      ∙ ap (λ j. ok (continue (on_keyed c monotonic' j (built f n) w₁))) r.identifier in
    let pair = pair_lem c monotonic monotonic' k (built e m) (built f n) w v free in
    (
      w₂,
      rw (pe, qe)
          (two_rounds c (turn_of (built e m) now monotonic) (turn_of (built f n) now' monotonic') w
            w₁ w₂ refl refl (built_round c e d m now monotonic w he) second),
      pair.0,
      rw (pe, qe) pair.1,
    )
