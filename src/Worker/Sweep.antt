-- ===== src/Worker/Sweep.antt =====
-- The sweep over the open sessions on SYNC_TIMEOUT.
use traffic_inspector.Base.{
  ℕ, ◌+◌, ◌-◌, ◌%◌, ◌^◌, ◌≤◌, ◌<◌, ◌≡◌, refl, if◌then◌else◌, true, false, [], ◌∷◌, Option, none,
  some, length, arith, ◌⊎◌, leb,
}
use traffic_inspector.Packets.Radius.{RadiusPacket}
use traffic_inspector.Worker.SessionMap.{Sessions, find, find-Fresh, Fresh, IsMap}
use traffic_inspector.Worker.{Settings, Worker, is_late, sweep, on_sync_timeout}

-- A session that a sweep keeps, and its packet.
abbrev pub unless_late : Settings → ℕ → Option RadiusPacket → Option RadiusPacket
unless_late c now none = none
unless_late c now (some p) = if is_late c now p then none else some p

sweep-Fresh : (c : Settings) (now k : ℕ) (m : Sessions) → Fresh k m → Fresh k (sweep c now m).0
unfolding sweep
sweep-Fresh c now k [] f = tt
sweep-Fresh c now k ((j, p) ∷ m) f = ground (arith, sweep-Fresh c now k m f.1)

pub sweep-IsMap : (c : Settings) (now : ℕ) (m : Sessions) → IsMap m → IsMap (sweep c now m).0
unfolding sweep
sweep-IsMap c now [] v = tt
sweep-IsMap c now ((j, p) ∷ m) v =
    ground (arith, sweep-IsMap c now m v.1, sweep-Fresh c now j m v.0)

pub find-sweep :
    (c : Settings) (now k : ℕ) (m : Sessions)
    → IsMap m
    → find k (sweep c now m).0 ≡ unless_late c now (find k m)
unfolding find sweep
find-sweep c now k [] v = refl
find-sweep c now k ((j, p) ∷ m) v = ground (arith, find-sweep c now k m v.1, find-Fresh k m)

pub length-sweep :
    (c : Settings) (now : ℕ) (m : Sessions)
    → length (sweep c now m).0 + (sweep c now m).1 ≡ length m
unfolding sweep
length-sweep c now [] = omega arith
length-sweep c now ((j, p) ∷ m) = ground (arith, length-sweep c now m)

-- Where the clock has not gone back and is below 2 ^ 64, a session is late exactly when its age
-- reaches the timeout.
pub is_late_iff_age :
    (c : Settings) (now t : ℕ) (p : RadiusPacket)
    → p.m_timestamp ≡ some t
    → t ≤ now
    → now < 2 ^ 64
    → ((is_late c now p ≡ true) × (c.response_timeout_msec ≤ now - t))
      ⊎ ((is_late c now p ≡ false) × (now - t < c.response_timeout_msec))
unfolding is_late
is_late_iff_age c now t p e le lt = ground arith

-- Where no identifier has two sessions, a SYNC_TIMEOUT keeps exactly the sessions that are not
-- late, adds the number of the others to the total, which wraps at 2 ^ 64, and leaves the interval's counter at zero and
-- the notifications as they were.
pub on_sync_timeout_lem :
    (c : Settings) (now : ℕ) (w : Worker)
    → IsMap w.sessions
    → let w' = on_sync_timeout c now w in
      ((k : ℕ) → find k w'.sessions ≡ unless_late c now (find k w.sessions))
      × (w'.total_timeouts ≡ (w.total_timeouts + (length w.sessions - length w'.sessions)) % 2 ^ 64)
      × (w'.interval_timeouts ≡ 0)
      × (w'.notifications ≡ w.notifications)
unfolding on_sync_timeout
on_sync_timeout_lem c now w v =
    (λ k. find-sweep c now k w.sessions v, omega (arith, length-sweep c now w.sessions), refl, refl)

-- Where both times are below 2 ^ 64, a session is late if its age has reached the timeout; and, if
-- the clock was set back behind its packet's time, if the timeout is at most 2 ^ 64 less the
-- difference.
pub is_late_lem :
    (c : Settings) (now t : ℕ) (p : RadiusPacket)
    → p.m_timestamp ≡ some t
    → t < 2 ^ 64
    → now < 2 ^ 64
    → is_late c now p ≡ (
        if leb t now
        then leb c.response_timeout_msec (now - t)
        else leb c.response_timeout_msec (2 ^ 64 - (t - now)))
unfolding is_late
is_late_lem c now t p e lt hi = ground arith

-- The real-time clock may be set back. A packet from the future is then taken for one that is 2 ^
-- 64 ms old, less its distance, and every such session is dropped.
pub is_late_clock_back :
    (c : Settings) (now t : ℕ) (p : RadiusPacket)
    → p.m_timestamp ≡ some t
    → now < t
    → t < 2 ^ 64
    → c.response_timeout_msec + (t - now) ≤ 2 ^ 64
    → is_late c now p ≡ true
unfolding is_late
is_late_clock_back c now t p e lt hi h = ground arith
