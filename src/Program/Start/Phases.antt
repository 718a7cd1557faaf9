-- ===== src/Program/Start/Phases.antt =====
-- How `main` of src/main.cpp gets to its loop, and where it stops before.
use traffic_inspector.Base.{
  ℕ, ◌≡◌, ◌↔◌, inl, inr, refl, ap, ◌∙◌, Bool, true, false, List, [], ◌∷◌, Option, none, some,
  length, get_or, replicate, ok, Text, codes, decimal, digits, map, ◌++◌,
}
use traffic_inspector.Packets.Eth.{eth_new}
use traffic_inspector.Lifecycle.{Replies, new_lifecycle, initialize_lines}
use traffic_inspector.Lifecycle.Init.{AllSucceed, initialize_new}
use traffic_inspector.Notifier.{testing}
use traffic_inspector.Nic.{Nic, new_nic, SocketReplies, returns, exits}
use traffic_inspector.Logger.{open_log, logs, calls}
use traffic_inspector.Logger.Target.{calls-initializes}
use traffic_inspector.Program.{has_right_arguments, packet_router}
use traffic_inspector.Program.Start.{
  Environment, Started, exits_in_nic, exits_without_nic, runs, atoll_size, log_path, nic_line,
  timeout_line, router_line, log_all, start_router, log_of_nic, start_nic, start,
}

-- There is a socket, and it is bound to the device.
abbrev pub IsOpened : SocketReplies → ℕ → Type 0
IsOpened os fd = (os.socket ≡ some fd) × (os.reuse_address ≡ true) × (os.bind_to_device ≡ true)

-- With the right number of arguments and a size that fits.
abbrev pub HasSize : List Text → ℕ → Type 0
HasSize argv size =
    (has_right_arguments (length argv) ≡ true) × (atoll_size (get_or argv 2 []) ≡ ok size)

sync_thread-AllSucceed :
    (os : Replies)
    → ((traffic_inspector.Lifecycle.initialize os 2 new_lifecycle).0.sync_thread ≡ true)
      ↔ AllSucceed os
sync_thread-AllSucceed os = elim (initialize_new os 2) [
  | inl (all, _, started, _) ↦ (λ h. all, λ h. started)
  | inr (failed, _, none_started, _) ↦ (λ h. absurd (cc), λ h. absurd (failed h))
]

start_size :
    (env : Environment) (size : ℕ) → HasSize env.argv size → start env ≡ ok (start_nic env size)
unfolding start
start_size env size (right, number) = rw (right, number) refl

abbrev pub opened : ℕ → ℕ → Nic
opened size fd = record {
  m_sniff_socket = some fd;
  bound = true;
  m_nic_recv_packets_pool = replicate size eth_new;
}

start_nic-runs :
    (env : Environment) (size fd : ℕ)
    → IsOpened env.sockets fd
    → start_nic env size ≡ runs (start_router env (opened size fd) (log_of_nic env size))
unfolding start_nic traffic_inspector.Nic.initialize new_nic
start_nic-runs env size fd (s, r, b) = rw (s, r, b) refl

-- How `packetRouter.initialize` says that it has ended, by the answers of the calls for the timer.
abbrev pub timer_text : Option ℕ → Option ℕ → Bool → Text
timer_text none now set = codes "PacketDispatcher::initialize Cannot create timer"
timer_text (some fd) none set = codes "PacketDispatcher::initialize cannot get current time"
timer_text (some fd) (some now) false =
    codes "PacketDispatcher::initialize Cannot charge the sync timer"
timer_text (some fd) (some now) true = codes "PacketRouter::initialize Starting sync thread"

abbrev pub text_of : Replies → Text
text_of os = timer_text os.timerfd_create os.clock_gettime os.timerfd_settime

initialize_lines-new :
    (os : Replies)
    → initialize_lines os new_lifecycle ≡ codes "PacketDispatcher::initialize" ∷ text_of os ∷ []
unfolding initialize_lines new_lifecycle
initialize_lines-new os = go os.timerfd_create os.clock_gettime os.timerfd_settime refl refl refl
  where
    go :
        (a b : Option ℕ) (t : Bool)
        → os.timerfd_create ≡ a
        → os.clock_gettime ≡ b
        → os.timerfd_settime ≡ t
        → initialize_lines os new_lifecycle
          ≡ codes "PacketDispatcher::initialize" ∷ timer_text a b t ∷ []
    go none b t p q r = rw (p, initialize_lines) refl
    go (some fd) none t p q r = rw (p, q, initialize_lines) refl
    go (some fd) (some now) false p q r = rw (p, q, r, initialize_lines) refl
    go (some fd) (some now) true p q r = rw (p, q, r, initialize_lines) refl

-- What the thread of `main` has written when it comes to its loop.
abbrev pub texts : Environment → ℕ → List Text
texts env size =
    codes "Logger Initialized"
    ∷ (codes "Initialize NIC: "
        ++ (get_or env.argv 1 [] ++ (codes " with raw packets pool size: " ++ decimal size)))
    ∷ codes "Initialize packetRouter:  timeout 2 sec"
    ∷ codes "PacketDispatcher::initialize"
    ∷ text_of env.timer
    ∷ codes
        "PacketRouter<ETH, Dispatchers {UDP, Dispatchers {RADIUS_UDP, UDP, }, TCP, }> initialized"
    ∷ []

timeout_text : timeout_line ≡ codes "Initialize packetRouter:  timeout 2 sec"
unfolding timeout_line decimal digits
timeout_text = refl

router_text :
    router_line
    ≡ codes
        "PacketRouter<ETH, Dispatchers {UDP, Dispatchers {RADIUS_UDP, UDP, }, TCP, }> initialized"
unfolding router_line packet_router decimal digits traffic_inspector.Dispatcher.Texts.to_string
    traffic_inspector.Dispatcher.Texts.all_to_string
    traffic_inspector.Packets.Types.packet_type_to_string traffic_inspector.Processor.to_string_impl
    traffic_inspector.Processor.packet_type traffic_inspector.Processor.new_processor
router_text = refl

main_texts :
    (env : Environment) (size : ℕ) (nic : Nic)
    → (start_router env nic (log_of_nic env size)).log.written
      ≡ map (λ line. (open_log (log_path env.argv) env.log_opens, line)) (texts env size)
unfolding start_router log_all log_of_nic nic_line calls
main_texts env size nic =
    rw (initialize_lines-new env.timer, timeout_text, router_text)
      (ap (λ l. l.written)
        (calls-initializes []
          (logs (nic_line env size)
            ∷ logs (codes "Initialize packetRouter:  timeout 2 sec")
            ∷ logs (codes "PacketDispatcher::initialize")
            ∷ logs (text_of env.timer)
            ∷ logs (
                codes
                  "PacketRouter<ETH, Dispatchers {UDP, Dispatchers {RADIUS_UDP, UDP, }, TCP, }> initialized")
            ∷ [])
          (log_path env.argv) env.log_opens tt))

-- With the right arguments and a socket that is bound, `main` reaches its loop, whatever the timer's
-- calls answer: with a pool of the size that the arguments say, the notifier's thread started under
-- the host's name, and the SYNC_TIMEOUT thread started exactly if every call for the timer succeeded.
-- What the thread of `main` has logged by then is, in order, the six lines of `texts`, of which the
-- fifth tells how the calls for the timer have ended, all on the stream that the path of the log
-- determines.
pub start-runs :
    (env : Environment) (size fd : ℕ)
    → HasSize env.argv size
    → IsOpened env.sockets fd
    → (st : Started) × (start env ≡ ok (runs st))
      × (st.nic ≡ opened size fd)
      × (st.notifier.m_source_id ≡ env.host_name)
      × (st.notifier.stage ≡ testing)
      × ((st.lifecycle.sync_thread ≡ true) ↔ AllSucceed env.timer)
      × (st.log.written
          ≡ map (λ line. (open_log (log_path env.argv) env.log_opens, line)) (texts env size))
unfolding start_router traffic_inspector.Notifier.initialize
start-runs env size fd h o = (
  start_router env (opened size fd) (log_of_nic env size),
  start_size env size h ∙ ap ok (start_nic-runs env size fd o),
  refl,
  refl,
  refl,
  sync_thread-AllSucceed env.timer,
  main_texts env size (opened size fd),
)

-- With the right arguments but without a bound socket, it does not: `main` leaves with -1 where there
-- is no socket, and the NIC leaves the program where there is one that cannot be set up.
pub start-stops :
    (env : Environment) (size : ℕ)
    → HasSize env.argv size
    → ((fd : ℕ) → ¬ IsOpened env.sockets fd)
    → start env ≡ (elim env.sockets.socket [
      | none ↦ ok (exits_without_nic (log_of_nic env size))
      | some fd ↦ ok (exits_in_nic (log_of_nic env size))
    ])
unfolding start_nic traffic_inspector.Nic.initialize new_nic
start-stops env size h closed =
    start_size env size h
    ∙ go env.sockets.socket env.sockets.reuse_address env.sockets.bind_to_device refl refl refl
  where
    go :
        (s : Option ℕ) (r b : Bool)
        → env.sockets.socket ≡ s
        → env.sockets.reuse_address ≡ r
        → env.sockets.bind_to_device ≡ b
        → ok (start_nic env size) ≡ (elim env.sockets.socket [
          | none ↦ ok (exits_without_nic (log_of_nic env size))
          | some fd ↦ ok (exits_in_nic (log_of_nic env size))
        ])
    go none r b p q t = rw p refl
    go (some fd) false b p q t = rw (p, q) refl
    go (some fd) true false p q t = rw (p, q, t) refl
    go (some fd) true true p q t = absurd (closed fd (p, q, t))
