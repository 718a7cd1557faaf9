-- ===== src/Lifecycle/Tests.antt =====
-- The dispatcher's timer: started, failed and retried, and run.
use traffic_inspector.Base.{
  ℕ, ◌+◌, ◌≡◌, ◌⊎◌, List, [], ◌∷◌, map, length, ok, some, none, false, true, Bool,
}
use traffic_inspector.Packets.Types.{sync_timeout}
use traffic_inspector.Dispatcher.{Dispatcher, leaf}
use traffic_inspector.Dispatcher.Broadcast.{leaves}
use traffic_inspector.Processor.{PacketProcessor, udp_protocol, processor_ops}
use traffic_inspector.Processor.Control.{notified}
use traffic_inspector.Lifecycle.{
  Replies, Poll, timed_out, ready, new_lifecycle, initialize, sync_thread_loop,
}
use traffic_inspector.Lifecycle.Init.{AllSucceed, initialize_new}
use traffic_inspector.Lifecycle.Sync.{expirations, times, sync_thread_loop-notified}

abbrev good : Replies
good = record { timerfd_create = some 4; clock_gettime = some 1000; timerfd_settime = true }

abbrev unset : Replies
unset = record good { timerfd_settime = false }

initialize_new_example :
    let r = initialize good 2 new_lifecycle in
    (AllSucceed good
      × (r.1 ≡ true)
      × (r.0.sync_thread ≡ true)
      × ((now : ℕ) × (some 1000 ≡ some now)
          × (r.0.armed ≡ some (record { first = now + 2; interval = 2 }))))
    ⊎ (¬ AllSucceed good × (r.1 ≡ false) × (r.0.sync_thread ≡ false) × (r.0.armed ≡ none))
initialize_new_example = initialize_new good 2

abbrev processor : PacketProcessor
processor = record {
  protocol = udp_protocol;
  m_received_packet_queue = [] ∷ [];
  m_stop = false;
  m_response_timeout_msec = 1000;
}

abbrev rounds : List (Bool × Poll)
rounds =
    (false, ready (some (record { ret = 8; expirations = 3 })))
    ∷ (false, timed_out)
    ∷ (true, timed_out)
    ∷ []

sync_thread_loop-notified_example :
    (y : Dispatcher PacketProcessor) × (sync_thread_loop
        (processor_ops false 9)
        rounds
        (leaf processor)
      ≡ ok (true, y))
    × (leaves y
        ≡ times
            (length (expirations rounds))
            (map (notified sync_timeout))
            (leaves (leaf processor)))
sync_thread_loop-notified_example = sync_thread_loop-notified false 9 rounds (leaf processor)
