-- ===== src/Worker/Reporting.antt =====
-- The RADIUS threads of a processor (include/PacketProcessor.hpp) together with the ResultNotifier
-- (src/ResultNotifier.cpp) to which they hand what they have matched.
pub mod Order
pub mod Lifts
pub mod Exchanged
mod Tests
use traffic_inspector.Base.{
  ℕ, ◌≡◌, ◌⊎◌, inl, inr, refl, ◌==◌, Bool, true, false, List, [], ◌∷◌, ◌++◌, Option, none, some,
  if◌then◌else◌, Option-cases, ok, ◌>>=◌, >>=-eq-ok, arith,
}
use traffic_inspector.Packets.Avp.Storage.{AvpStorage}
use traffic_inspector.Packets.Types.{
  ControlMessageId, processing, sync_timeout, shutdown, max_control_message_id,
}
use traffic_inspector.Packets.Radius.{RadiusPacket}
use traffic_inspector.Notifier.{ResultNotifier, NotifierStep, provide_data_for_notifier}
use traffic_inspector.Worker.Notify.{NotificationData, provide_data}
use traffic_inspector.Worker.SessionMap.{find}
use traffic_inspector.Worker.{
  Settings, Worker, Turn, Step, continue, finish, process_packet, on_packet, on_keyed,
  on_sync_timeout, session_key,
}
use traffic_inspector.Worker.System.{System, SystemStep, new_system}

-- The threads, the notifier, and the history of what was handed over, with the thread that did.
pub record Reporting : Type 0 where
  pub system : System
  pub notifier : ResultNotifier
  pub sent : List (ℕ × NotificationData)

module _ (c : Settings) (instances_count : ℕ) where
  pub data ReportingStep (r : Reporting) : Reporting → Type 0 where
    -- A step of a thread, or of one who puts packets, that hands nothing over.
    works :
        (s : System)
        → SystemStep c instances_count r.system s
        → ((i : ℕ) → (s.worker i).notifications ≡ (r.system.worker i).notifications)
        → ReportingStep r (record r { system = s })
    -- A thread calls `provideDataForNotifier` within a step.
    reports :
        (s : System) (i monotonic : ℕ) (resp req : AvpStorage)
        → SystemStep c instances_count r.system s
        → (s.worker i).notifications
          ≡ (r.system.worker i).notifications
            ++ (provide_data monotonic r.notifier.m_source_id resp req ∷ [])
        → ((j : ℕ)
            → (i == j) ≡ false
            → (s.worker j).notifications ≡ (r.system.worker j).notifications)
        → ReportingStep r (record r {
          system = s;
          notifier = provide_data_for_notifier monotonic resp req r.notifier;
          sent = r.sent ++ ((i, provide_data monotonic r.notifier.m_source_id resp req) ∷ []);
        })
    -- A step of the notifier's thread, or of one who initialises or stops it.
    notifies :
        (m : ResultNotifier)
        → NotifierStep r.notifier m
        → m.provided ≡ r.notifier.provided
        → ReportingStep r (record r { notifier = m })

  pub data ReportingRun (r : Reporting) : Reporting → Type 0 where
    here : ReportingRun r r
    next : {u v : Reporting} → ReportingRun r u → ReportingStep u v → ReportingRun r v
