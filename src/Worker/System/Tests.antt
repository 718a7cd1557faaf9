-- ===== src/Worker/System/Tests.antt =====
-- Two workers, of which the second is sent a shutdown.
use traffic_inspector.Base.{ℕ, ◌≤◌, ◌<◌, ◌≡◌, ◌++◌, refl, true, Bool, [], ◌∷◌, inr, some, ok, arith}
use traffic_inspector.Packets.Types.{shutdown, sync_timeout}
use traffic_inspector.Packets.Radius.{radius_control}
use traffic_inspector.Worker.{
  Settings, Worker, new_worker, continue, finish, process_packet, process_packets, on_sync_timeout,
  session_key,
}
use traffic_inspector.Worker.Exchange.{turn_of}
use traffic_inspector.Worker.System.{
  at_test, at_get, ended, System, update, new_system, after_turn, puts, enters, leaves, goes_on,
  finishes, SystemRun, here, next, all_ended, destruct,
}
use traffic_inspector.Worker.System.Thread.{packets}
use traffic_inspector.Worker.System.Invariant.{HasShutdown}
use traffic_inspector.Worker.System.Order.{SystemRun-order, SystemRun-settle, destruct-shutdown}
use traffic_inspector.Worker.System.Joined.{destruct-joins}
use traffic_inspector.Worker.Ledger.{ledger_of, settle}

abbrev settings : Settings
settings = record { garbage = λ p. 7; response_timeout_msec = 2000; source_id = 1 ∷ [] }

-- The second worker gets a SHUTDOWN while the first waits for a packet. The first then gets a
-- SYNC_TIMEOUT, and one more that it leaves behind.
abbrev put_shutdown : System
put_shutdown = record new_system {
  queue = update new_system.queue 1 (new_system.queue 1 ++ (radius_control shutdown ∷ []));
  put = update new_system.put 1 (new_system.put 1 ++ (radius_control shutdown ∷ []));
}

abbrev first_waits : System
first_waits = record put_shutdown { place = update put_shutdown.place 0 at_get }

abbrev second_gets : System
second_gets = record first_waits { place = update first_waits.place 1 at_get }

abbrev stopped : Worker
stopped = record new_worker { m_stop = true }

abbrev second_ended : System
second_ended =
    record (after_turn second_gets 1 (turn_of (radius_control shutdown) 6000 100) [] stopped) {
      place = update second_gets.place 1 ended;
      m_stop = true;
    }

abbrev put_timeout : System
put_timeout = record second_ended {
  queue = update second_ended.queue 0 (second_ended.queue 0 ++ (radius_control sync_timeout ∷ []));
  put = update second_ended.put 0 (second_ended.put 0 ++ (radius_control sync_timeout ∷ []));
}

abbrev first_late : System
first_late =
    record (after_turn put_timeout 0 (turn_of (radius_control sync_timeout) 6000 100) []
      new_worker) { place = update put_timeout.place 0 at_test }

abbrev all_done : System
all_done = record first_late { place = update first_late.place 0 ended }

shutdown_finishes :
    process_packet settings (turn_of (radius_control shutdown) 6000 100) new_worker
    ≡ ok (finish stopped)
unfolding process_packet radius_control
shutdown_finishes = refl

timeout_continues :
    process_packet settings (turn_of (radius_control sync_timeout) 6000 100) new_worker
    ≡ ok (continue new_worker)
unfolding process_packet radius_control on_sync_timeout traffic_inspector.Worker.sweep
timeout_continues = refl

run_all : SystemRun settings 2 new_system all_done
run_all =
    next
      (next
        (next
          (next
            (next
              (next (next here (puts 1 (radius_control shutdown) (omega arith)))
                (enters 0 (omega arith) refl refl))
              (enters 1 (omega arith) refl refl))
            (finishes 1 6000 100 (radius_control shutdown) [] stopped (omega arith) refl refl
              shutdown_finishes))
          (puts 0 (radius_control sync_timeout) (omega arith)))
        (goes_on 0 6000 100 (radius_control sync_timeout) [] new_worker (omega arith) refl refl
          timeout_continues))
      (leaves 0 (omega arith) refl refl)

SystemRun-order_example :
    (packets (all_done.turns 0) ++ all_done.queue 0 ≡ all_done.put 0)
    × ((returned : Bool) × (process_packets settings (all_done.turns 0) new_worker
          ≡ ok (returned, all_done.worker 0)))
    × (all_done.late 0 ≤ 1)
SystemRun-order_example = SystemRun-order settings 2 0 run_all

joined : destruct 2 all_done ≡ some all_done
unfolding destruct all_ended
joined = refl

destruct-shutdown_example :
    (all_done.m_stop ≡ true) × ((i : ℕ) × (i < 2) × HasShutdown (all_done.put i))
destruct-shutdown_example = destruct-shutdown settings 2 (omega arith) run_all joined

timeout_key : session_key settings (radius_control sync_timeout) ≡ ok 7
unfolding session_key radius_control
timeout_key = refl

SystemRun-settle_example :
    ledger_of (all_done.worker 0) ≡ settle settings (all_done.turns 0) (ledger_of new_worker)
SystemRun-settle_example = SystemRun-settle settings 2 0 run_all ((7, timeout_key), tt)

-- Each of the two queues has a SHUTDOWN.
abbrev both_shut : System
both_shut = record new_system { queue = λ i. radius_control shutdown ∷ [] }

shutdown_key : session_key settings (radius_control shutdown) ≡ ok 7
unfolding session_key radius_control
shutdown_key = refl

shutdown_first : HasShutdown (radius_control shutdown ∷ [])
unfolding radius_control
shutdown_first = ([], radius_control shutdown, [], refl, refl)

destruct-joins_example :
    (s' : System) × SystemRun settings 2 both_shut s' × (destruct 2 s' ≡ some s')
destruct-joins_example =
    destruct-joins settings 2 both_shut λ j lt. inr (shutdown_first, ((7, shutdown_key), tt))
