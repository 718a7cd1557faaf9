-- ===== src/Worker/Reporting/Order.antt =====
-- What the threads of include/PacketProcessor.hpp hand over, on its way to the log of
-- src/ResultNotifier.cpp.
use traffic_inspector.Base.{
  ℕ, ◌≤◌, ◌≡◌, refl, sym, ap, subst, ◌∙◌, ◌==◌, ==_refl, Bool, true, false, List, [], ◌∷◌, ◌++◌,
  map, map-append, append-nil, if◌then◌else◌, Bool-cases, inl, inr, arith,
}
use traffic_inspector.Notifier.{ResultNotifier, new_notifier, NotifierRun, NotifierStep, provides}
use traffic_inspector.Notifier
use traffic_inspector.Notifier.Order.{in_hand, NotifierRun_lem}
use traffic_inspector.Worker.Notify.{NotificationData, provide_data}
use traffic_inspector.Worker.{Settings}
use traffic_inspector.Worker.System.{new_system}
use traffic_inspector.Worker.Reporting.{
  Reporting, ReportingStep, works, reports, notifies, ReportingRun, here, next,
}

-- What thread `i` has handed over, in order.
abbrev pub from : ℕ → List (ℕ × NotificationData) → List NotificationData
from i [] = []
from i ((j, x) ∷ l) = if j == i then x ∷ from i l else from i l

abbrev pub data_of : List (ℕ × NotificationData) → List NotificationData
data_of l = map (λ x. x.1) l

from-append : (i : ℕ) (l m : List (ℕ × NotificationData)) → from i (l ++ m) ≡ from i l ++ from i m
from-append i [] m = refl
from-append i ((j, x) ∷ l) m = go (j == i) (from-append i l m)
  where
    go :
        (b : Bool)
        → from i (l ++ m) ≡ from i l ++ from i m
        → (if b then x ∷ from i (l ++ m) else from i (l ++ m))
          ≡ (if b then x ∷ from i l else from i l) ++ from i m
    go true h = ap (λ q. x ∷ q) h
    go false h = h

-- The system behind the constructor, with a notifier.
abbrev pub new_reporting : Reporting
new_reporting = record { system = new_system; notifier = new_notifier; sent = [] }

module _ (c : Settings) (instances_count : ℕ) where
  record IsReported (r : Reporting) : Type 0 where
    by_thread : (i : ℕ) → from i r.sent ≡ (r.system.worker i).notifications
    by_time : data_of r.sent ≡ r.notifier.provided
    run : NotifierRun new_notifier r.notifier

  ReportingStep-IsReported :
      {r q : Reporting} → ReportingStep c instances_count r q → IsReported r → IsReported q
  unfolding Notifier.provide_data_for_notifier
  ReportingStep-IsReported {r} (works s st keep) h = record {
    by_thread = λ i. h.by_thread i ∙ sym (keep i);
    by_time = h.by_time;
    run = h.run;
  }
  ReportingStep-IsReported {r} (reports s i monotonic resp req st new keep) h =
      let x = provide_data monotonic r.notifier.m_source_id resp req in
      record {
        by_thread = λ j. from-append j r.sent ((i, x) ∷ []) ∙ (elim (Bool-cases (i == j)) [
          | inl e ↦
              subst (λ k. from k r.sent ++ from k ((i, x) ∷ []) ≡ (s.worker k).notifications)
                (let same : i ≡ j = ground arith in same)
                (ap (λ b. from i r.sent ++ (if b then x ∷ [] else [])) (==_refl i)
                  ∙ (ap (λ q. q ++ (x ∷ [])) (h.by_thread i) ∙ sym new))
          | inr e ↦
              ap (λ b. from j r.sent ++ (if b then x ∷ [] else [])) e
              ∙ (append-nil (from j r.sent) ∙ (h.by_thread j ∙ sym (keep j e)))
        ]);
        by_time = map-append (λ y. y.1) r.sent ((i, x) ∷ []) ∙ ap (λ q. q ++ (x ∷ [])) h.by_time;
        run = Notifier.next h.run (provides monotonic resp req);
      }
  ReportingStep-IsReported {r} (notifies m st keep) h = record {
    by_thread = h.by_thread;
    by_time = h.by_time ∙ sym keep;
    run = Notifier.next h.run st;
  }

  ReportingRun-IsReported :
      {r q : Reporting} → ReportingRun c instances_count r q → IsReported r → IsReported q
  ReportingRun-IsReported here h = h
  ReportingRun-IsReported (next run st) h =
      ReportingStep-IsReported st (ReportingRun-IsReported run h)

  -- In every interleaving of the threads of a processor and of the notifier, from their start on, the
  -- data that was logged, the data that the notifier has in hand and the data that is queued are, in
  -- this order, what the threads handed over; of these, those of each thread are the notifications
  -- that it has made, in its order; and at most one is logged after the notifier's stop flag was set.
  pub ReportingRun-order :
      {r : Reporting}
      → ReportingRun c instances_count new_reporting r
      → let n = r.notifier in
        (n.logged ++ (in_hand n.stage ++ n.m_queue) ≡ data_of r.sent)
        × ((i : ℕ) → from i r.sent ≡ (r.system.worker i).notifications)
        × (n.late ≤ 1)
  ReportingRun-order {r} run =
      let h =
        ReportingRun-IsReported run
          (record { by_thread = λ i. refl; by_time = refl; run = Notifier.here }) in
      let (order, late) = NotifierRun_lem h.run in (order ∙ sym h.by_time, h.by_thread, late)
