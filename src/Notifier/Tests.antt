-- ===== src/Notifier/Tests.antt =====
-- A notification that is provided, logged, and one that is left when the thread has stopped.
use traffic_inspector.Base.{ℕ, ◌≡◌, refl, [], ◌∷◌, ◌++◌, true, none, codes, decimal, digits}
use traffic_inspector.Worker.Notify.{NotificationData, provide_data, notification_to_string}
use traffic_inspector.Packets.Avp.Print.{avps_to_string}
use traffic_inspector.Notifier.{
  ResultNotifier, new_notifier, initialize, deinitialize, provide_data_for_notifier, NotifierRun,
  here, next, initializes, provides, stops, enters, takes, logs, testing, getting,
}

abbrev datum : ℕ → NotificationData
datum t = record {
  time_msec = t;
  source_id = 7 ∷ [];
  resp_avp = (44, 65 ∷ []) ∷ [];
  req_avp = (44, 65 ∷ []) ∷ [];
}

abbrev started : ResultNotifier
started = record new_notifier { m_source_id = 7 ∷ []; joinable = true; stage = testing }

-- The thread waits for an object when the flag is set, and logs one more.
abbrev stopped : ResultNotifier
stopped = record started {
  m_stop = true;
  stage = getting;
  m_queue = datum 5 ∷ datum 6 ∷ [];
  provided = datum 5 ∷ datum 6 ∷ [];
}

abbrev done : ResultNotifier
done = record stopped { stage = testing; m_queue = datum 6 ∷ []; logged = datum 5 ∷ []; late = 1 }

run_to_stopped : NotifierRun new_notifier stopped
unfolding initialize provide_data_for_notifier provide_data
run_to_stopped =
    next
      (next
        (next (next (next here (initializes (7 ∷ []))) (enters refl refl))
          (provides 5 ((44, 65 ∷ []) ∷ []) ((44, 65 ∷ []) ∷ [])))
        stops)
      (provides 6 ((44, 65 ∷ []) ∷ []) ((44, 65 ∷ []) ∷ []))

run_to_done : NotifierRun new_notifier done
run_to_done =
    next (next run_to_stopped (takes (datum 5) (datum 6 ∷ []) refl refl)) (logs (datum 5) refl)

-- `join` waits for a thread that is in `getObject`, and throws where there is no thread.
join_waits : deinitialize stopped ≡ none
unfolding deinitialize
join_waits = refl

join_throws : deinitialize new_notifier ≡ none
unfolding deinitialize
join_throws = refl

notification_text :
    notification_to_string (provide_data 100 (codes "host") ((44, 65 ∷ []) ∷ []) [])
    ≡ codes "NotificationData [time: 100, source: host, resp: "
      ++ codes "[Type: 44, Length: 1, Value: A], , req: ]"
unfolding notification_to_string provide_data avps_to_string decimal digits
notification_text = refl
