-- ===== src/Worker/Reporting/Lifts.antt =====
-- That the notifier (src/ResultNotifier.cpp) never holds up the threads of include/PacketProcessor.hpp.
use traffic_inspector.Base.{
  ℕ, ◌≡◌, ◌⊎◌, inl, inr, refl, sym, ap, ap₂, append-nil, subst, ◌∙◌, ◌==◌, ==_refl, true, false,
  List, [], ◌∷◌, ◌++◌, if◌then◌else◌, Bool-cases, Option-cases, ok, ◌>>=◌, >>=-eq-ok, arith,
}
use traffic_inspector.Packets.Avp.Storage.{AvpStorage}
use traffic_inspector.Packets.Types.{
  ControlMessageId, processing, sync_timeout, shutdown, max_control_message_id,
}
use traffic_inspector.Packets.Radius.{RadiusPacket}
use traffic_inspector.Notifier
use traffic_inspector.Notifier.{
  initializes, testing, getting, logging, ResultNotifier, NotifierStep,
}
use traffic_inspector.Worker.Notify.{NotificationData, provide_data}
use traffic_inspector.Worker.{
  Settings, Worker, Turn, Step, continue, finish, process_packet, on_packet, on_keyed,
  on_sync_timeout, session_key,
}
use traffic_inspector.Worker.SessionMap.{find}
use traffic_inspector.Worker.System.{
  System, update, SystemStep, puts, enters, leaves, goes_on, finishes, SystemRun, new_system,
}
use traffic_inspector.Worker.System
use traffic_inspector.Worker.Exchange.{turn_of}
use traffic_inspector.Worker.Reporting.{
  Reporting, ReportingStep, works, reports, notifies, ReportingRun, here, next,
}
use traffic_inspector.Worker.Reporting.Order.{new_reporting, from, data_of, ReportingRun-order}
use traffic_inspector.Notifier.Order.{in_hand}

-- What a round may hand over: nothing, or one piece of data.
abbrev Hands : Settings → ℕ → Worker → Worker → Type 0
Hands c monotonic w w' =
    (w'.notifications ≡ w.notifications)
    ⊎ ((resp : AvpStorage) × (req : AvpStorage) × (w'.notifications
          ≡ w.notifications ++ (provide_data monotonic c.source_id resp req ∷ [])))

abbrev worker_of : Step → Worker
worker_of (continue w) = w
worker_of (finish w) = w

on_keyed-Hands :
    (c : Settings) (monotonic k : ℕ) (p : RadiusPacket) (w : Worker)
    → Hands c monotonic w (on_keyed c monotonic k p w)
unfolding on_keyed
on_keyed-Hands c monotonic k p w = elim (Option-cases (find k w.sessions)) [
  | inl e ↦ inl (rw (e, on_keyed) refl)
  | inr (q, e) ↦ inr (p.m_avps, q.m_avps, rw (e, on_keyed) refl)
]

on_packet-Hands :
    (c : Settings) (t : Turn) (w w' : Worker)
    → on_packet c t.monotonic t.packet w ≡ ok w'
    → Hands c t.monotonic w w'
unfolding on_packet
on_packet-Hands c t w w' e =
    let (k, e₁, e₂) = >>=-eq-ok (session_key c t.packet) _ e in
    let same : on_keyed c t.monotonic k t.packet w ≡ w' = ground arith in
    subst (Hands c t.monotonic w) same (on_keyed-Hands c t.monotonic k t.packet w)

process_packet-Hands :
    (c : Settings) (t : Turn) (w : Worker) (s : Step)
    → process_packet c t w ≡ ok s
    → Hands c t.monotonic w (worker_of s)
unfolding process_packet on_sync_timeout
process_packet-Hands c t w s e = go t.packet.ctrl_message_id refl
  where
    Result : Step → Type 0
    Result q = Hands c t.monotonic w (worker_of q)

    ordinary : (on_packet c t.monotonic t.packet w >>= λ w'. ok (continue w')) ≡ ok s → Result s
    ordinary e' =
        let (w', e₁, e₂) = >>=-eq-ok (on_packet c t.monotonic t.packet w) _ e' in
        let same : continue w' ≡ s = ground arith in subst Result same (on_packet-Hands c t w w' e₁)

    go : (m : ControlMessageId) → t.packet.ctrl_message_id ≡ m → Result s
    go processing p =
        let e' : (on_packet c t.monotonic t.packet w >>= λ w'. ok (continue w')) ≡ ok s =
          ground arith in
        ordinary e'
    go max_control_message_id p =
        let e' : (on_packet c t.monotonic t.packet w >>= λ w'. ok (continue w')) ≡ ok s =
          ground arith in
        ordinary e'
    go sync_timeout p =
        let same : continue (on_sync_timeout c t.now w) ≡ s = ground arith in
        subst Result same (inl refl)
    go shutdown p =
        let same : finish (record w { m_stop = true }) ≡ s = ground arith in
        subst Result same (inl refl)

-- A notifier that was initialised with the name, and waits before the test of its flag.
record IsReady (source : List ℕ) (n : ResultNotifier) : Type 0 where
  named : n.m_source_id ≡ source
  waits : n.stage ≡ testing
  runs : n.m_stop ≡ false

module _ (c : Settings) (instances_count : ℕ) where
  -- A step in which thread `i` is left with the worker of a round.
  turn_step :
      (r : Reporting) (i monotonic : ℕ) (w : Worker) (s : System)
      → IsReady c.source_id r.notifier
      → SystemStep c instances_count r.system s
      → s.worker ≡ update r.system.worker i w
      → Hands c monotonic (r.system.worker i) w
      → (q : Reporting) × ReportingStep c instances_count r q
        × (q.system ≡ s)
        × IsReady c.source_id q.notifier
  unfolding Notifier.provide_data_for_notifier
  turn_step r i monotonic w s ready st at_i (inl same) =
      (record r { system = s }, works s st keep, refl, ready)
    where
      keep : (j : ℕ) → (s.worker j).notifications ≡ (r.system.worker j).notifications
      keep j = ap (λ f. (f j).notifications) at_i ∙ (elim (Bool-cases (i == j)) [
        | inl e ↦
            let here : i ≡ j = ground arith in
            ap (λ b. (if b then w else r.system.worker j).notifications) e
            ∙ (same ∙ ap (λ k. (r.system.worker k).notifications) here)
        | inr e ↦ ap (λ b. (if b then w else r.system.worker j).notifications) e
      ])
  turn_step r i monotonic w s ready st at_i (inr (resp, req, new)) = (
    _,
    reports s i monotonic resp req st new' keep,
    refl,
    record { named = ready.named; waits = ready.waits; runs = ready.runs },
  )
    where
      new' :
          (s.worker i).notifications
          ≡ (r.system.worker i).notifications
            ++ (provide_data monotonic r.notifier.m_source_id resp req ∷ [])
      new' =
          ap (λ f. (f i).notifications) at_i
          ∙ (ap (λ b. (if b then w else r.system.worker i).notifications) (==_refl i)
              ∙ (new
                  ∙ ap
                      (λ q.
                        (r.system.worker i).notifications
                        ++ (provide_data monotonic q resp req ∷ []))
                      (sym ready.named)))

      keep :
          (j : ℕ)
          → (i == j) ≡ false
          → (s.worker j).notifications ≡ (r.system.worker j).notifications
      keep j e =
          ap (λ f. (f j).notifications) at_i
          ∙ ap (λ b. (if b then w else r.system.worker j).notifications) e

  -- Each step of the threads is one of the joint system.
  SystemStep-lifts :
      (r : Reporting) (s : System)
      → IsReady c.source_id r.notifier
      → SystemStep c instances_count r.system s
      → (q : Reporting) × ReportingStep c instances_count r q
        × (q.system ≡ s)
        × IsReady c.source_id q.notifier
  SystemStep-lifts r _ ready (puts i p lt) = (_, works _ (puts i p lt) (λ j. refl), refl, ready)
  SystemStep-lifts r _ ready (enters i lt at go) =
      (_, works _ (enters i lt at go) (λ j. refl), refl, ready)
  SystemStep-lifts r _ ready (leaves i lt at go) =
      (_, works _ (leaves i lt at go) (λ j. refl), refl, ready)
  SystemStep-lifts r _ ready (goes_on i now monotonic p rest w lt at has e) =
      turn_step r i monotonic w _ ready (goes_on i now monotonic p rest w lt at has e) refl
        (process_packet-Hands c (turn_of p now monotonic) (r.system.worker i) (continue w) e)
  SystemStep-lifts r _ ready (finishes i now monotonic p rest w lt at has e) =
      turn_step r i monotonic w _ ready (finishes i now monotonic p rest w lt at has e) refl
        (process_packet-Hands c (turn_of p now monotonic) (r.system.worker i) (finish w) e)

  SystemRun-lifts :
      {s : System}
      → SystemRun c instances_count new_system s
      → (r : Reporting) × ReportingRun c instances_count new_reporting r
        × (r.system ≡ s)
        × IsReady c.source_id r.notifier
  unfolding Notifier.initialize
  SystemRun-lifts System.here = (
    _,
    next here (notifies _ (initializes c.source_id) refl),
    refl,
    record { named = refl; waits = refl; runs = refl },
  )
  SystemRun-lifts {s} (System.next run st) =
      let (r, joint, same, ready) = SystemRun-lifts run in
      let (q, step, same', ready') =
        SystemStep-lifts r s ready (subst (λ u. SystemStep c instances_count u s) (sym same) st) in
      (q, next joint step, same', ready')

  -- A notifier that waits logs what is queued.
  logs_all :
      (queued : List NotificationData) (r : Reporting)
      → r.notifier.m_queue ≡ queued
      → IsReady c.source_id r.notifier
      → ReportingRun c instances_count new_reporting r
      → (q : Reporting) × ReportingRun c instances_count new_reporting q
        × (q.system ≡ r.system)
        × (q.notifier.m_queue ≡ [])
        × IsReady c.source_id q.notifier
  logs_all [] r e ready run = (r, run, refl, e, ready)
  logs_all (x ∷ queued) r e ready run =
      logs_all queued _ refl (record { named = ready.named; waits = refl; runs = ready.runs })
        (next
          (next (next run (notifies _ (NotifierStep.enters ready.waits ready.runs) refl))
            (notifies _ (NotifierStep.takes x queued refl e) refl))
          (notifies _ (NotifierStep.logs x refl) refl))

  -- Whatever the threads of a processor do from their start on, they can do along with the notifier,
  -- which is initialised with the processor's source name, such that everything that they have handed
  -- over has been logged, in the order in which they did it, and that what was logged for a thread is
  -- what it has matched, in its order.
  pub SystemRun-logged :
      {s : System}
      → SystemRun c instances_count new_system s
      → (r : Reporting) × ReportingRun c instances_count new_reporting r
        × (r.system ≡ s)
        × (r.notifier.logged ≡ data_of r.sent)
        × ((i : ℕ) → from i r.sent ≡ (s.worker i).notifications)
  SystemRun-logged {s} run =
      let (r, joint, same, ready) = SystemRun-lifts run in
      let (q, joint', same', empty, ready') = logs_all r.notifier.m_queue r refl ready joint in
      let (order, by_thread, _) = ReportingRun-order c instances_count joint' in
      let whole = same' ∙ same in
      (
        q,
        joint',
        whole,
        (let n = q.notifier in
            sym (append-nil n.logged)
            ∙ (ap₂ (λ u v. n.logged ++ (in_hand u ++ v)) (sym ready'.waits) (sym empty) ∙ order)),
        λ i. by_thread i ∙ ap (λ u. (u.worker i).notifications) whole,
      )
