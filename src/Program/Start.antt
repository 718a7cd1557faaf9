-- ===== src/Program/Start.antt =====
-- `main` of src/main.cpp up to its loop. What the system answers is an input.
pub mod Arguments
pub mod Phases
mod Tests
use traffic_inspector.Base.{
  ℕ, ◌+◌, ◌-◌, ◌*◌, ◌^◌, ◌%◌, ◌==◌, leb, ltb, ◌&&◌, ◌||◌, Bool, true, false, List, [], ◌∷◌, ◌++◌,
  Option, none, some, length, get_or, Outcome, ok, fault, number_out_of_range, ◌>>=◌, if◌then◌else◌,
  Text, codes, decimal, take_digits,
}
use traffic_inspector.Dispatcher.{Dispatcher}
use traffic_inspector.Dispatcher.Texts.{to_string}
use traffic_inspector.Processor.{PacketProcessor, to_string_impl}
use traffic_inspector.Lifecycle.{Lifecycle, new_lifecycle, Replies, initialize_lines}
use traffic_inspector.Notifier.{ResultNotifier, new_notifier}
use traffic_inspector.Nic.{Nic, new_nic, SocketReplies, returns, exits}
use traffic_inspector.Logger.{Logger, new_logger, logger, initialize_logger}
use traffic_inspector.Program.{has_right_arguments, packet_router}

-- `isspace`: the blank and the codes from 9 to 13.
abbrev pub is_space : ℕ → Bool
is_space c = (c == 32) || (leb 9 c && leb c 13)

unfoldable pub skip_spaces : Text → Text
skip_spaces [] = []
skip_spaces (c ∷ s) = let rest = skip_spaces s in if is_space c then rest else c ∷ s

-- A sign and what follows it; `true` for a minus.
unfoldable pub take_sign : Text → Bool × Text
take_sign [] = (false, [])
take_sign (c ∷ s) =
    if c == b'-' then (true, s) else if c == b'+' then (false, s) else (false, c ∷ s)

-- `size_t(atoll(s))`: a `long long` that is negative wraps around, and one that does not fit is
-- undefined behaviour.
unfoldable pub atoll_size : Text → Outcome ℕ
unfolding skip_spaces take_sign take_digits
atoll_size s =
    let (minus, t) = take_sign (skip_spaces s) in
    let n = (take_digits 0 t).0 in
    if minus
    then (if leb n (2 ^ 63) then ok ((2 ^ 64 - n) % 2 ^ 64) else fault number_out_of_range)
    else (if ltb n (2 ^ 63) then ok n else fault number_out_of_range)

-- The command line, with the program's name in front, and the answers of `fopen`, of the calls of
-- `NIC::initialize`, of `gethostname`, and of the calls of `PacketDispatcher::initialize`.
pub record Environment : Type 0 where
  pub argv : List Text
  pub log_opens : Bool
  pub sockets : SocketReplies
  pub host_name : Text
  pub timer : Replies

-- What the loop starts with; `log` has the lines that the thread of `main` writes. Those that the
-- threads write that it has started come between them in any order, and are left out.
pub record Started : Type 0 where
  pub nic : Nic
  pub notifier : ResultNotifier
  pub router : Dispatcher PacketProcessor
  pub lifecycle : Lifecycle
  pub log : Logger

-- `return -1` behind the help text, `exit(EXIT_FAILURE)` in the NIC, `exit(-1)`, or the loop.
pub data Start : Type 0 where
  helps : Start
  exits_in_nic : Logger → Start
  exits_without_nic : Logger → Start
  runs : Started → Start

-- The path of the log: the last of four arguments.
unfoldable pub log_path : List Text → Option Text
log_path argv = if length argv == 4 then some (get_or argv 3 []) else none

-- The lines that `main` writes.
unfoldable pub nic_line : Environment → ℕ → Text
nic_line env size =
    codes "Initialize NIC: "
    ++ (get_or env.argv 1 [] ++ (codes " with raw packets pool size: " ++ decimal size))

unfoldable pub timeout_line : Text
timeout_line = codes "Initialize packetRouter:  timeout " ++ (decimal 2 ++ codes " sec")

unfoldable pub router_line : Text
unfolding to_string to_string_impl packet_router
router_line =
    codes "PacketRouter<"
    ++ (to_string (λ p. to_string_impl p.protocol) packet_router ++ codes "> initialized")

unfoldable pub log_all : List Text → Logger → Logger
unfolding logger
log_all [] l = l
log_all (line ∷ lines) l = log_all lines (logger line l)

-- From `ResultNotifier::instance().initialize` on. `packetRouter.initialize` is called for 2
-- seconds, and its result is not used.
unfoldable pub start_router : Environment → Nic → Logger → Started
unfolding packet_router logger timeout_line router_line log_all initialize_lines
start_router env nic log = record {
  nic = nic;
  notifier = traffic_inspector.Notifier.initialize env.host_name new_notifier;
  router = packet_router;
  lifecycle = (traffic_inspector.Lifecycle.initialize env.timer 2 new_lifecycle).0;
  log =
      logger router_line
        (log_all (initialize_lines env.timer new_lifecycle) (logger timeout_line log));
}

-- The log in front of `nic.initialize`.
unfoldable pub log_of_nic : Environment → ℕ → Logger
unfolding log_path initialize_logger logger nic_line
log_of_nic env size =
    logger (nic_line env size) (initialize_logger (log_path env.argv) env.log_opens new_logger)

-- From the construction of the NIC on.
unfoldable pub start_nic : Environment → ℕ → Start
unfolding new_nic log_of_nic start_router traffic_inspector.Nic.initialize
start_nic env size =
    let log = log_of_nic env size in
    elim (traffic_inspector.Nic.initialize env.sockets (new_nic size)) [
      | exits ↦ exits_in_nic log
      | returns initialized nic ↦
          if initialized then runs (start_router env nic log) else exits_without_nic log
    ]

unfoldable pub start : Environment → Outcome Start
unfolding has_right_arguments atoll_size start_nic
start env =
    if has_right_arguments (length env.argv)
    then (atoll_size (get_or env.argv 2 []) >>= λ size. ok (start_nic env size))
    else ok helps
