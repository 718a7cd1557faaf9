-- ===== src/Worker.antt =====
-- The packet processing threads: `processPacketsThreadImpl` in include/PacketProcessor.hpp, for
-- RADIUS packets in this file and for UDP and TCP packets in Plain.
pub mod Notify
pub mod SessionMap
pub mod Sweep
pub mod Conserved
pub mod Accounting
pub mod Pairing
pub mod Exchange
pub mod Ledger
pub mod System
pub mod Reporting
pub mod Plain
mod Tests
use traffic_inspector.Base.{
  ℕ, ◌+◌, ◌%◌, ◌^◌, ◌==◌, Bool, true, false, List, [], ◌∷◌, ◌++◌, Option, none, some, leb,
  if◌then◌else◌, Outcome, ok, ◌>>=◌, deref,
}
use traffic_inspector.Packets.Types.{
  ControlMessageId, processing, sync_timeout, shutdown, max_control_message_id,
}
use traffic_inspector.Packets.Wire.{sub64}
use traffic_inspector.Packets.Radius.{RadiusPacket, packet_buffer, radius_session_pair}
use Notify.{NotificationData, provide_data}
use SessionMap.{Sessions, find, erase, insert}

-- The thread's variables, with what it has handed to the ResultNotifier and whether it has set the
-- processor's `m_stop`.
pub record Worker : Type 0 where
  pub sessions : Sessions
  pub total_timeouts : ℕ
  pub interval_timeouts : ℕ
  pub notifications : List NotificationData
  pub m_stop : Bool

abbrev pub new_worker : Worker
new_worker = record {
  sessions = [];
  total_timeouts = 0;
  interval_timeouts = 0;
  notifications = [];
  m_stop = false;
}

-- What a round of the thread meets: the stop flag when it tests it, which any worker of the
-- processor may have set, the packet that it takes from its queue, and the two clocks (the real
-- time and the notifier's monotonic time, in ms).
pub record Turn : Type 0 where
  pub stop_flag : Bool
  pub packet : RadiusPacket
  pub now : ℕ
  pub monotonic : ℕ

-- Whether the thread goes on, with the new state.
pub data Step : Type 0 where
  continue : Worker → Step
  finish : Worker → Step

-- What is read from the variables of a packet that were not initialised, and the two settings.
pub record Settings : Type 0 where
  pub garbage : RadiusPacket → ℕ
  pub response_timeout_msec : ℕ
  pub source_id : List ℕ

pub or_garbage : Settings → RadiusPacket → Option ℕ → ℕ
or_garbage c p none = c.garbage p % 2 ^ 64
or_garbage c p (some n) = n

-- `getTimestamp`.
unfoldable pub stamp : Settings → RadiusPacket → ℕ
unfolding or_garbage
stamp c p = or_garbage c p p.m_timestamp

-- `delta >= m_responseTimeoutMsec`, where `delta` is a `size_t`.
unfoldable pub is_late : Settings → ℕ → RadiusPacket → Bool
unfolding stamp
is_late c now p = leb c.response_timeout_msec (sub64 now (stamp c p))

-- The loop over the map on SYNC_TIMEOUT. The order of an unordered_map does not matter to it.
unfoldable pub sweep : Settings → ℕ → Sessions → Sessions × ℕ
unfolding is_late
sweep c now [] = ([], 0)
sweep c now ((k, p) ∷ m) =
    let (m', n) = sweep c now m in if is_late c now p then (m', n + 1) else ((k, p) ∷ m', n)

-- SYNC_TIMEOUT: both counters rise by the number of erased sessions; the interval's is logged and
-- set back. The total is a `size_t`, and the sessions are counted one by one.
unfoldable pub on_sync_timeout : Settings → ℕ → Worker → Worker
unfolding sweep
on_sync_timeout c now w =
    let (m', n) = sweep c now w.sessions in
    record w {
      sessions = m';
      total_timeouts = (w.total_timeouts + n) % 2 ^ 64;
      interval_timeouts = 0;
    }

-- `getPacketSessionPair`. Its buffer is read only if there is a header; the identifier of a pair that
-- is not initialised is some byte.
unfoldable pub session_key : Settings → RadiusPacket → Outcome ℕ
session_key c p = elim p.radius_header [
  | none ↦ ok (c.garbage p % 256)
  | some h ↦ packet_buffer p.m_prev_layer_packet >>= λ d.
      ok (elim (radius_session_pair p d) [ none ↦ c.garbage p % 256 | some k ↦ k ])
]

-- A packet whose key is in the map is matched with the stored one and ends the session; any other
-- is stored.
unfoldable pub on_keyed : Settings → ℕ → ℕ → RadiusPacket → Worker → Worker
unfolding find erase insert provide_data
on_keyed c monotonic k packet w = elim (find k w.sessions) [
  | some request ↦ record w {
    sessions = erase k w.sessions;
    notifications =
        w.notifications ++ (provide_data monotonic c.source_id packet.m_avps request.m_avps ∷ []);
  }
  | none ↦ record w { sessions = insert k packet w.sessions }
]

unfoldable pub on_packet : Settings → ℕ → RadiusPacket → Worker → Outcome Worker
on_packet c monotonic packet w = session_key c packet >>= λ k. ok (on_keyed c monotonic k packet w)

-- One round after the test of the stop flag.
unfoldable pub process_packet : Settings → Turn → Worker → Outcome Step
process_packet c t w = elim t.packet.ctrl_message_id [
  | shutdown ↦ ok (finish (record w { m_stop = true }))
  | sync_timeout ↦ ok (continue (on_sync_timeout c t.now w))
  | _ ↦ on_packet c t.monotonic t.packet w >>= λ w'. ok (continue w')
]

-- The thread over the turns that it gets: `true` if it has ended, `false` if it waits for a packet.
unfoldable pub process_packets : Settings → List Turn → Worker → Outcome (Bool × Worker)
process_packets c [] w = ok (false, w)
process_packets c (t ∷ ts) w = elim t.stop_flag [
  | true ↦ ok (true, w)
  | false ↦ process_packet c t w >>= λ s. elim s [
    | finish w' ↦ ok (true, w')
    | continue w' ↦ process_packets c ts w'
  ]
]
