-- ===== src/Worker/Notify.antt =====
-- What a worker hands to the notifier: NotificationData in include/ResultNotifier.h and
-- src/ResultNotifier.cpp.
use traffic_inspector.Base.{ℕ, List, ◌++◌, Text, codes, decimal}
use traffic_inspector.Packets.Avp.Storage.{AvpStorage}
use traffic_inspector.Packets.Avp.Print.{avps_to_string}

pub record NotificationData : Type 0 where
  pub time_msec : ℕ
  pub source_id : List ℕ
  pub resp_avp : AvpStorage
  pub req_avp : AvpStorage

-- The constructor swaps the maps of the two packets, which are destroyed next, with empty ones.
unfoldable pub provide_data : ℕ → List ℕ → AvpStorage → AvpStorage → NotificationData
provide_data monotonic source resp req = record {
  time_msec = monotonic;
  source_id = source;
  resp_avp = resp;
  req_avp = req;
}

-- `NotificationData::to_string`.
unfoldable pub notification_to_string : NotificationData → Text
unfolding avps_to_string
notification_to_string x =
    codes "NotificationData ["
    ++ (codes "time: "
        ++ (decimal x.time_msec
            ++ (codes ", source: "
                ++ (x.source_id
                    ++ (codes ", resp: "
                        ++ (avps_to_string x.resp_avp
                            ++ (codes ", req: " ++ (avps_to_string x.req_avp ++ codes "]"))))))))
