-- ===== src/Worker/Accounting.antt =====
-- What becomes of the packets that a RADIUS thread takes (include/PacketProcessor.hpp).
use mathlib.Core.List.Perm
use traffic_inspector.Base.{
  ℕ, ◌^◌, ◌<◌, ◌≡◌, ◌++◌, refl, Bool, true, false, List, [], ◌∷◌, All, arith, ok, ◌>>=◌, inl, inr,
  ◌⊎◌,
}
use traffic_inspector.Packets.Types.{
  ControlMessageId, processing, sync_timeout, shutdown, max_control_message_id,
}
use traffic_inspector.Packets.Avp.Storage.{AvpStorage}
use traffic_inspector.Packets.Radius.{RadiusPacket}
use traffic_inspector.Worker.Conserved.{
  Conserved, Conserved-refl, Conserved-trans, on_keyed-Conserved, on_sync_timeout-Conserved,
}
use traffic_inspector.Worker.SessionMap.{IsMap, erase-IsMap, insert-IsMap}
use traffic_inspector.Worker.Sweep.{sweep-IsMap}
use traffic_inspector.Worker.{
  Settings, Worker, Turn, continue, on_keyed, on_packet, on_sync_timeout, session_key,
  process_packet, process_packets,
}

pub record IsValid (w : Worker) : Type 0 where
  pub keys : IsMap w.sessions
  pub interval : w.interval_timeouts ≡ 0
  pub counter : w.total_timeouts < 2 ^ 64

-- The attributes of the packets other than control messages that the thread takes from its turns, and whether it ends
-- on them: by the stop flag or by a SHUTDOWN.
abbrev pub taken_of : ControlMessageId → AvpStorage → List AvpStorage → List AvpStorage
taken_of processing a l = a ∷ l
taken_of sync_timeout a l = l
taken_of shutdown a l = []
taken_of max_control_message_id a l = a ∷ l

abbrev pub taken : List Turn → List AvpStorage
taken [] = []
taken (t ∷ ts) = elim t.stop_flag [
  | true ↦ []
  | false ↦ taken_of t.packet.ctrl_message_id t.packet.m_avps (taken ts)
]

abbrev pub ends_of : ControlMessageId → Bool → Bool
ends_of processing b = b
ends_of sync_timeout b = b
ends_of shutdown b = true
ends_of max_control_message_id b = b

abbrev pub ends : List Turn → Bool
ends [] = false
ends (t ∷ ts) = elim t.stop_flag [
  | true ↦ true
  | false ↦ ends_of t.packet.ctrl_message_id (ends ts)
]

-- The packet's identifier can be read: it has no header, or a buffer behind it.
abbrev pub HasKey : Settings → Turn → Type 0
HasKey c t = (k : ℕ) × (session_key c t.packet ≡ ok k)

pub on_keyed-IsValid :
    (c : Settings) (monotonic k : ℕ) (p : RadiusPacket) (w : Worker)
    → IsValid w
    → IsValid (on_keyed c monotonic k p w)
unfolding on_keyed
on_keyed-IsValid c monotonic k p w v =
    ground (arith, v.counter, erase-IsMap k w.sessions v.keys, insert-IsMap k p w.sessions v.keys)

on_keyed-total_timeouts :
    (c : Settings) (monotonic k : ℕ) (p : RadiusPacket) (w : Worker)
    → (on_keyed c monotonic k p w).total_timeouts ≡ w.total_timeouts
unfolding on_keyed
on_keyed-total_timeouts c monotonic k p w = ground arith

pub on_keyed-m_stop :
    (c : Settings) (monotonic k : ℕ) (p : RadiusPacket) (w : Worker)
    → (on_keyed c monotonic k p w).m_stop ≡ w.m_stop
unfolding on_keyed
on_keyed-m_stop c monotonic k p w = ground arith

on_sync_timeout-IsValid :
    (c : Settings) (now : ℕ) (w : Worker) → IsValid w → IsValid (on_sync_timeout c now w)
unfolding on_sync_timeout
on_sync_timeout-IsValid c now w v = record {
  keys = sweep-IsMap c now w.sessions v.keys;
  interval = refl;
  counter = omega arith;
}

-- What a run from `w` over the turns comes to.
abbrev pub Runs : Settings → List Turn → Worker → Type 0
Runs c ts w =
    (w' : Worker) × (process_packets c ts w ≡ ok (ends ts, w'))
    × IsValid w'
    × Conserved w w' (taken ts)

-- An ordinary packet's round, given its key.
pub on_packet_key :
    (c : Settings) (monotonic k : ℕ) (p : RadiusPacket) (w : Worker)
    → session_key c p ≡ ok k
    → (on_packet c monotonic p w >>= λ w'. ok (continue w'))
      ≡ ok (continue (on_keyed c monotonic k p w))
unfolding on_packet
on_packet_key c monotonic k p w key = rw key

-- The round of a turn, in which packets with the given attributes are taken.
pub record Round (c : Settings) (t : Turn) (w w' : Worker) (l : List AvpStorage) : Type 0 where
  pub steps : process_packet c t w ≡ ok (continue w')
  pub takes : (k : List AvpStorage) → taken_of t.packet.ctrl_message_id t.packet.m_avps k ≡ l ++ k
  pub goes_on : (b : Bool) → ends_of t.packet.ctrl_message_id b ≡ b
  pub valid : IsValid w'
  pub conserved : Conserved w w' l

stop_turn :
    (c : Settings) (t : Turn) (ts : List Turn) (w : Worker)
    → (t.stop_flag ≡ true) ⊎ ((t.stop_flag ≡ false) × (t.packet.ctrl_message_id ≡ shutdown))
    → IsValid w
    → Runs c (t ∷ ts) w
unfolding process_packets process_packet
stop_turn c t ts w (inl s) v = (w, ground arith, v, rw s (Conserved-refl w v.counter))
stop_turn c t ts w (inr (s, e)) v = (
  record w { m_stop = true },
  ground arith,
  record { keys = v.keys; interval = v.interval; counter = v.counter },
  rw (s, e) (record { given_up = []; all = Perm.refl _; counted = omega (arith, v.counter) }),
)

round_turn :
    (c : Settings) (t : Turn) (ts : List Turn) (w w' : Worker) (l : List AvpStorage)
    → t.stop_flag ≡ false
    → Round c t w w' l
    → Runs c ts w'
    → Runs c (t ∷ ts) w
unfolding process_packets
round_turn c t ts w w' l s r (w'', run, v, all) = (
  w'',
  ground (arith, r.steps, run, r.goes_on (ends ts)),
  v,
  rw (s, r.takes (taken ts)) (Conserved-trans r.conserved all),
)

pub ordinary :
    (c : Settings) (t : Turn) (w : Worker) (m : ControlMessageId) (k : ℕ)
    → t.packet.ctrl_message_id ≡ m
    → (m ≡ processing) ⊎ (m ≡ max_control_message_id)
    → IsValid w
    → session_key c t.packet ≡ ok k
    → Round c t w (on_keyed c t.monotonic k t.packet w) (t.packet.m_avps ∷ [])
unfolding process_packet
ordinary c t w m k e o v key = record {
  steps = ground (arith, on_packet_key c t.monotonic k t.packet w key);
  takes = λ j. ground arith;
  goes_on = λ b. ground arith;
  valid = on_keyed-IsValid c t.monotonic k t.packet w v;
  conserved = on_keyed-Conserved c t.monotonic k t.packet w v.counter;
}

pub timeout :
    (c : Settings) (t : Turn) (w : Worker)
    → t.packet.ctrl_message_id ≡ sync_timeout
    → IsValid w
    → Round c t w (on_sync_timeout c t.now w) []
unfolding process_packet
timeout c t w e v = record {
  steps = ground arith;
  takes = λ j. ground arith;
  goes_on = λ b. ground arith;
  valid = on_sync_timeout-IsValid c t.now w v;
  conserved = on_sync_timeout-Conserved c t.now w;
}

step-Runs :
    (c : Settings) (t : Turn) (ts : List Turn) (w : Worker) (m : ControlMessageId) (b : Bool)
    → t.packet.ctrl_message_id ≡ m
    → t.stop_flag ≡ b
    → IsValid w
    → HasKey c t
    → ((w' : Worker) → IsValid w' → Runs c ts w')
    → Runs c (t ∷ ts) w
step-Runs c t ts w m true e s v h ih = stop_turn c t ts w (inl s) v
step-Runs c t ts w shutdown false e s v h ih = stop_turn c t ts w (inr (s, e)) v
step-Runs c t ts w sync_timeout false e s v h ih =
    let r = timeout c t w e v in round_turn c t ts w _ [] s r (ih _ r.valid)
step-Runs c t ts w processing false e s v (k, key) ih =
    let r = ordinary c t w processing k e (inl refl) v key in
    round_turn c t ts w _ (t.packet.m_avps ∷ []) s r (ih _ r.valid)
step-Runs c t ts w max_control_message_id false e s v (k, key) ih =
    let r = ordinary c t w max_control_message_id k e (inr refl) v key in
    round_turn c t ts w _ (t.packet.m_avps ∷ []) s r (ih _ r.valid)

-- A thread in a valid state whose packets' identifiers can be read makes all its rounds. It ends
-- exactly on a set stop flag or a SHUTDOWN. The attributes of the packets that were in open sessions
-- or in notifications, and those of the packets that it took by then, are together, up to their order,
-- those of the packets that are in open sessions, those of both packets of each notification, and
-- those of packets that were given up; and the counter of timeouts has risen by one for each of the
-- last, modulo 2 ^ 64.
pub process_packets_accounted :
    (c : Settings) (ts : List Turn) (w : Worker) → IsValid w → All (HasKey c) ts → Runs c ts w
process_packets_accounted c [] w v h =
    (w, unfold process_packets in refl, v, Conserved-refl w v.counter)
process_packets_accounted c (t ∷ ts) w v h =
    step-Runs c t ts w t.packet.ctrl_message_id t.stop_flag refl refl v h.0
      λ w' v'. process_packets_accounted c ts w' v' h.1
