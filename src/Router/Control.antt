-- ===== src/Router/Control.antt =====
-- `route` of control messages and `syncThread` of include/PacketRouter.hpp.
use traffic_inspector.Base.{
  ◌≡◌, refl, Bool, true, false, List, [], ◌∷◌, map, length, ok, Bool-cases, inl, inr,
}
use traffic_inspector.Packets.Types.{ControlMessageId, sync_timeout}
use traffic_inspector.Processor.{PacketProcessor}
use traffic_inspector.Processor.Control.{notified}
use traffic_inspector.Lifecycle.{Poll, is_read}
use traffic_inspector.Lifecycle.Sync.{
  stops, expirations, expirations-read, expirations-unread, times,
}
use traffic_inspector.Router.{PacketRouter, notify_all, route_control, router_sync_thread}

notify_all-notified :
    (ps : List PacketProcessor) (m : ControlMessageId) → notify_all ps m ≡ ok (map (notified m) ps)
unfolding notify_all
notify_all-notified [] m = refl
notify_all-notified (p ∷ ps) m = rw (notify_all-notified ps m)

-- `route(ControlMessageId)` returns, and notifies every worker of every processor.
pub route_control-notified :
    (r : PacketRouter) (m : ControlMessageId)
    → route_control r m
      ≡ ok (record r { m_current_processors = map (notified m) r.m_current_processors })
unfolding route_control
route_control-notified r m = rw (notify_all-notified r.m_current_processors m)

-- The router's thread has returned exactly if a round has read a set flag. It sends one SYNC_TIMEOUT
-- for each number of expirations that it has read, and changes nothing else.
pub router_sync_thread-notified :
    (rounds : List (Bool × Poll)) (r : PacketRouter)
    → router_sync_thread rounds r
      ≡ ok (
        stops rounds,
        record r {
          m_current_processors =
              times
                (length (expirations rounds))
                (map (notified sync_timeout))
                r.m_current_processors;
        },
      )
unfolding router_sync_thread
router_sync_thread-notified [] r = refl
router_sync_thread-notified ((true, p) ∷ rounds) r = refl
router_sync_thread-notified ((false, p) ∷ rounds) r = elim (Bool-cases (is_read p)) [
  | inr e ↦
      rw (expirations-unread p rounds e, e, router_sync_thread)
        (router_sync_thread-notified rounds r)
  | inl e ↦
      rw (expirations-read p rounds e, e, router_sync_thread, route_control-notified r sync_timeout)
        (router_sync_thread-notified rounds
          (record r { m_current_processors = map (notified sync_timeout) r.m_current_processors }))
]
