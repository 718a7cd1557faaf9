-- ===== src/Program/Start/Tests.antt =====
-- The start of src/main.cpp on command lines.
use traffic_inspector.Base.{
  ◌-◌, ◌%◌, ◌^◌, ◌≡◌, ◌++◌, ◌↔◌, refl, true, [], ◌∷◌, some, none, map, ok, fault,
  number_out_of_range, codes, decimal, take_digits, arith,
}
use traffic_inspector.Lifecycle.Init.{AllSucceed}
use traffic_inspector.Notifier.{testing}
use traffic_inspector.Nic.{SocketReplies}
use traffic_inspector.Logger.{open_log}
use traffic_inspector.Program.{has_right_arguments}
use traffic_inspector.Program.Start.{
  Environment, Started, helps, exits_without_nic, runs, skip_spaces, take_sign, atoll_size,
  log_path, log_of_nic, start,
}
use traffic_inspector.Program.Start.Arguments.{atoll_size-decimal}
use traffic_inspector.Program.Start.Phases.{opened, texts, start-runs, start-stops}

abbrev environment : SocketReplies → Environment
environment sockets = record {
  argv = codes "inspector" ∷ codes "eth0" ∷ codes "16" ∷ [];
  log_opens = true;
  sockets = sockets;
  host_name = codes "host";
  timer = record { timerfd_create = none; clock_gettime = some 1; timerfd_settime = true };
}

abbrev with_nic : Environment
with_nic = environment (record { socket = some 3; reuse_address = true; bind_to_device = true })

abbrev without_nic : Environment
without_nic = environment (record { socket = none; reuse_address = true; bind_to_device = true })

sixteen : (has_right_arguments 3 ≡ true) × (atoll_size (codes "16") ≡ ok 16)
unfolding has_right_arguments atoll_size skip_spaces take_sign take_digits
sixteen = (refl, refl)

atoll_size-decimal_example :
    (atoll_size (decimal 16 ++ codes " packets") ≡ ok 16)
    × (atoll_size (codes "-" ++ (decimal 16 ++ codes " packets")) ≡ ok ((2 ^ 64 - 16) % 2 ^ 64))
atoll_size-decimal_example = atoll_size-decimal 16 (codes " packets") (omega arith) refl

-- A text that is no number is 0.
no_number : atoll_size (codes "eth0") ≡ ok 0
unfolding atoll_size skip_spaces take_sign take_digits
no_number = refl

too_large : atoll_size (codes "9223372036854775808") ≡ fault number_out_of_range
unfolding atoll_size skip_spaces take_sign take_digits
too_large = refl

helped : start (record with_nic { argv = codes "inspector" ∷ [] }) ≡ ok helps
unfolding start has_right_arguments
helped = refl

-- The timer could not be created: the program runs all the same.
start-runs_example :
    (st : Started) × (start with_nic ≡ ok (runs st))
    × (st.nic ≡ opened 16 3)
    × (st.notifier.m_source_id ≡ codes "host")
    × (st.notifier.stage ≡ testing)
    × ((st.lifecycle.sync_thread ≡ true) ↔ AllSucceed with_nic.timer)
    × (st.log.written
        ≡ map (λ line. (open_log (log_path with_nic.argv) true, line)) (texts with_nic 16))
start-runs_example = start-runs with_nic 16 3 sixteen (refl, refl, refl)

start-stops_example : start without_nic ≡ ok (exits_without_nic (log_of_nic without_nic 16))
start-stops_example = start-stops without_nic 16 sixteen (λ fd h. cc)
