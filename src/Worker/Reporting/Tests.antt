-- ===== src/Worker/Reporting/Tests.antt =====
-- One worker that matches a response with its request, and the notifier.
use traffic_inspector.Base.{
  ℕ, none, ◌≤◌, ap, if◌then◌else◌, Bool, ◌==◌, ◌≡◌, ◌++◌, refl, [], ◌∷◌, true, false, ok, arith,
}
use traffic_inspector.Packets.Radius.{radius_session_pair}
use traffic_inspector.Packets.Samples.{request_frame, response_frame, item}
use traffic_inspector.Notifier.{
  initialize, initializes, provide_data_for_notifier, testing, getting,
}
use traffic_inspector.Notifier.Order.{in_hand}
use traffic_inspector.Notifier
use traffic_inspector.Worker.Notify.{NotificationData, provide_data}
use traffic_inspector.Worker.SessionMap.{find, insert, erase}
use traffic_inspector.Worker.{
  Worker, new_worker, continue, process_packet, on_packet, on_keyed, session_key,
}
use traffic_inspector.Worker.Exchange.{turn_of}
use traffic_inspector.Worker.System.{
  System, SystemRun, SystemStep, new_system, update, at_test, at_get, after_turn, puts, enters,
  goes_on,
}
use traffic_inspector.Worker.System
use traffic_inspector.Worker.Reporting.{
  Reporting, works, reports, notifies, ReportingRun, here, next,
}
use traffic_inspector.Worker.Reporting.Order.{new_reporting, from, data_of, ReportingRun-order}
use traffic_inspector.Worker.Reporting.Lifts.{SystemRun-logged}
use traffic_inspector.Worker.Reporting.Exchanged.{ReportingRun-exchange}
use traffic_inspector.Worker.Tests.{settings, request, response, request_built, response_built}
use traffic_inspector.Worker.Pairing
use traffic_inspector.Processor.{PacketProcessor, radius_protocol, worker_id}

abbrev waiting : Worker
waiting = record new_worker { sessions = (77, request) ∷ [] }

abbrev report : NotificationData
report = provide_data 100 (1 ∷ []) response.m_avps request.m_avps

abbrev matched : Worker
matched = record new_worker { notifications = report ∷ [] }

request_waits : process_packet settings (turn_of request 6000 90) new_worker ≡ ok (continue waiting)
unfolding process_packet on_packet on_keyed session_key radius_session_pair find insert
request_waits = refl

response_matches :
    process_packet settings (turn_of response 6010 100) waiting ≡ ok (continue matched)
unfolding process_packet on_packet on_keyed session_key radius_session_pair find erase provide_data
response_matches = refl

-- The two packets are put, and the worker has its two rounds.
abbrev put_both : System
put_both = record new_system {
  queue = update (update new_system.queue 0 (request ∷ [])) 0 (request ∷ response ∷ []);
  put = update (update new_system.put 0 (request ∷ [])) 0 (request ∷ response ∷ []);
}

abbrev gets : System → System
gets s = record s { place = update s.place 0 at_get }

abbrev stored : System
stored = record (after_turn (gets put_both) 0 (turn_of request 6000 90) (response ∷ []) waiting) {
  place = update (gets put_both).place 0 at_test;
}

abbrev exchanged : System
exchanged = record (after_turn (gets stored) 0 (turn_of response 6010 100) [] matched) {
  place = update (gets stored).place 0 at_test;
}

stores : SystemStep settings 1 (gets put_both) stored
stores = goes_on 0 6000 90 request (response ∷ []) waiting (omega arith) refl refl request_waits

matches : SystemStep settings 1 (gets stored) exchanged
matches = goes_on 0 6010 100 response [] matched (omega arith) refl refl response_matches

exchange : SystemRun settings 1 new_system exchanged
exchange =
    System.next
      (System.next
        (System.next
          (System.next
            (System.next (System.next System.here (puts 0 request (omega arith)))
              (puts 0 response (omega arith)))
            (enters 0 (omega arith) refl refl))
          stores)
        (enters 0 (omega arith) refl refl))
      matches

SystemRun-logged_example :
    (r : Reporting) × ReportingRun settings 1 new_reporting r
    × (r.system ≡ exchanged)
    × (r.notifier.logged ≡ data_of r.sent)
    × ((i : ℕ) → from i r.sent ≡ (exchanged.worker i).notifications)
SystemRun-logged_example = SystemRun-logged settings 1 exchange

-- The notifier is at its queue when the worker hands over what it has matched.
abbrev named : Reporting
named = record new_reporting { notifier = initialize (1 ∷ []) new_reporting.notifier }

abbrev listening : Reporting
listening = record named { notifier = record named.notifier { stage = getting } }

abbrev at_second : Reporting
at_second = record listening { system = gets stored }

abbrev reported : Reporting
reported = record {
  system = exchanged;
  notifier = provide_data_for_notifier 100 response.m_avps request.m_avps listening.notifier;
  sent = (0, provide_data 100 listening.notifier.m_source_id response.m_avps request.m_avps) ∷ [];
}

only_worker :
    (j : ℕ)
    → (0 == j) ≡ false
    → (exchanged.worker j).notifications ≡ ((gets stored).worker j).notifications
only_worker j e = ap (λ b. (if b then matched else (gets stored).worker j).notifications) e

none_yet : (b : Bool) → (if b then waiting else new_worker).notifications ≡ []
none_yet true = refl
none_yet false = refl

report_run : ReportingRun settings 1 new_reporting reported
unfolding initialize provide_data
report_run =
    next
      (next
        (next
          (next
            (next
              (next
                (next (next here (notifies _ (initializes (1 ∷ [])) refl))
                  (notifies _ (Notifier.enters refl refl) refl))
                (works _ (puts 0 request (omega arith)) λ j. refl))
              (works _ (puts 0 response (omega arith)) λ j. refl))
            (works _ (enters 0 (omega arith) refl refl) λ j. refl))
          (works _ stores λ j. none_yet (0 == j)))
        (works _ (enters 0 (omega arith) refl refl) λ j. refl))
      (reports exchanged 0 100 response.m_avps request.m_avps matches refl only_worker)

ReportingRun-order_example :
    (reported.notifier.logged ++ (in_hand reported.notifier.stage ++ reported.notifier.m_queue)
      ≡ data_of reported.sent)
    × ((i : ℕ) → from i reported.sent ≡ (reported.system.worker i).notifications)
    × (reported.notifier.late ≤ 1)
ReportingRun-order_example = ReportingRun-order settings 1 report_run

abbrev one_worker : PacketProcessor
one_worker = record {
  protocol = radius_protocol;
  m_received_packet_queue = [] ∷ [];
  m_stop = false;
  m_response_timeout_msec = 2000;
}

chosen : worker_id one_worker (item request_frame 69) request_frame ≡ ok 0
unfolding worker_id
chosen = refl

ReportingRun-exchange_example :
    (worker_id one_worker (item response_frame 69) response_frame ≡ ok 0)
    × ((k : ℕ) → find k (reported.system.worker 0).sessions ≡ none)
    × ((monotonic : ℕ) × (from 0 reported.sent
          ≡ Pairing.report settings monotonic response request ∷ []))
ReportingRun-exchange_example =
    ReportingRun-exchange settings 1 false one_worker (item request_frame 69)
      (item response_frame 69) request_frame response_frame request response 0 (omega arith) refl
      refl refl request_built response_built
      (record {
        to_source = (refl, (refl, (refl, (refl, (refl, (refl, tt))))));
        from_destination = (refl, (refl, (refl, (refl, (refl, (refl, tt))))));
        same_type = refl;
      })
      (record {
        source = refl;
        destination = refl;
        source_port = refl;
        destination_port = refl;
        identifier = refl;
      })
      chosen report_run refl refl
