-- ===== src/Worker/Pairing.antt =====
-- Matching a response with its request.
use traffic_inspector.Base.{
  ℕ, ◌≡◌, refl, ◌==◌, if◌then◌else◌, [], ◌∷◌, ◌++◌, none, some, arith, Option-cases, inl, inr, sym,
  append-nil,
}
use traffic_inspector.Packets.Radius.{RadiusPacket}
use traffic_inspector.Worker.Notify.{NotificationData}
use traffic_inspector.Worker.SessionMap.{find, IsMap, find-erase, find-insert}
use traffic_inspector.Worker.{Settings, Worker, on_keyed}

-- The notification of a response and the request that it was matched with.
abbrev pub report : Settings → ℕ → RadiusPacket → RadiusPacket → NotificationData
report c monotonic response request = record {
  time_msec = monotonic;
  source_id = c.source_id;
  resp_avp = response.m_avps;
  req_avp = request.m_avps;
}

-- Where no identifier has two sessions, as a function of the identifier: a packet opens its
-- identifier's session where there is none, with no notification; otherwise it closes it, and the
-- two are reported. Other identifiers' sessions stay.
pub on_keyed_lem :
    (c : Settings) (monotonic k : ℕ) (p : RadiusPacket) (w : Worker)
    → IsMap w.sessions
    → let w' = on_keyed c monotonic k p w in
      ((i : ℕ)
        → find i w'.sessions ≡ (
            if k == i
            then (elim (find k w.sessions) [ none ↦ some p | some q ↦ none ])
            else find i w.sessions))
      × (w'.notifications
          ≡ w.notifications
            ++ (elim (find k w.sessions) [ none ↦ [] | some q ↦ report c monotonic p q ∷ [] ]))
unfolding on_keyed
on_keyed_lem c monotonic k p w v = elim (Option-cases (find k w.sessions)) [
  | inl e ↦ (
    λ i. ground (arith, find-insert i k p w.sessions e),
    rw (e, on_keyed) (sym (append-nil w.notifications)),
  )
  | inr (q, e) ↦ (λ i. ground (arith, find-erase i k w.sessions v), rw (e, on_keyed) refl)
]
