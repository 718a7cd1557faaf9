-- ===== src/Worker/Ledger.antt =====
-- What the RADIUS thread of include/PacketProcessor.hpp promises, without a map: for each identifier
-- the packet that waits for its counterpart, and the reports so far.
pub mod Refines
use traffic_inspector.Base.{
  ℕ, ◌≡◌, ◌==◌, if◌then◌else◌, Bool, true, false, List, [], ◌∷◌, ◌++◌, Option, none, some, Outcome,
  ok, fault, stuck,
}
use traffic_inspector.Packets.Types.{
  ControlMessageId, processing, sync_timeout, shutdown, max_control_message_id,
}
use traffic_inspector.Packets.Radius.{RadiusPacket}
use traffic_inspector.Worker.Notify.{NotificationData}
use traffic_inspector.Worker.SessionMap.{find}
use traffic_inspector.Worker.Sweep.{unless_late}
use traffic_inspector.Worker.Pairing.{report}
use traffic_inspector.Worker.{Settings, Worker, Turn, session_key}

pub record Ledger : Type 0 where
  pub waiting : ℕ → Option RadiusPacket
  pub reports : List NotificationData
  pub stopped : Bool

-- The ledger that a thread's state stands for. The order of the map and the counters are forgotten.
abbrev pub ledger_of : Worker → Ledger
ledger_of w = record {
  waiting = λ k. find k w.sessions;
  reports = w.notifications;
  stopped = w.m_stop;
}

-- A packet waits where none does, and settles the one that does.
abbrev pub exchange : Settings → ℕ → ℕ → RadiusPacket → Ledger → Ledger
exchange c monotonic k p l = elim (l.waiting k) [
  | none ↦ record l { waiting = λ i. if k == i then some p else l.waiting i }
  | some q ↦ record l {
    waiting = λ i. if k == i then none else l.waiting i;
    reports = l.reports ++ (report c monotonic p q ∷ []);
  }
]

-- Everything that is late is given up.
abbrev pub give_up : Settings → ℕ → Ledger → Ledger
give_up c now l = record l { waiting = λ k. unless_late c now (l.waiting k) }

abbrev pub or_zero : Outcome ℕ → ℕ
or_zero (ok k) = k
or_zero (fault f) = 0
or_zero stuck = 0

-- A turn with a packet of the given kind, and what follows it.
abbrev pub settle_of : ControlMessageId → Settings → Turn → (Ledger → Ledger) → Ledger → Ledger
settle_of processing c t after l =
    after (exchange c t.monotonic (or_zero (session_key c t.packet)) t.packet l)
settle_of sync_timeout c t after l = after (give_up c t.now l)
settle_of shutdown c t after l = record l { stopped = true }
settle_of max_control_message_id c t after l =
    after (exchange c t.monotonic (or_zero (session_key c t.packet)) t.packet l)

-- The whole run: it ends on a set flag and on a SHUTDOWN.
abbrev pub settle : Settings → List Turn → Ledger → Ledger
settle c [] l = l
settle c (t ∷ ts) l = elim t.stop_flag [
  | true ↦ l
  | false ↦ settle_of t.packet.ctrl_message_id c t (settle c ts) l
]
