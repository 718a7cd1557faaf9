-- ===== src/Router.antt =====
-- PacketRouter: include/PacketRouter.h and include/PacketRouter.hpp, the flat predecessor of the
-- tree of dispatchers. It keeps its processors in a tuple.
pub mod Select
pub mod Control
mod Tests
use traffic_inspector.Base.{
  ℕ, ◌+◌, ◌==◌, Bool, true, false, List, [], ◌∷◌, Option, none, some, Outcome, ok, ◌>>=◌, deref,
  map, if◌then◌else◌, ◌++◌, fault, out_of_bounds, Text, codes,
}
use traffic_inspector.Packets.Types.{ControlMessageId, sync_timeout}
use traffic_inspector.Packets.Wire.{Buffer}
use traffic_inspector.Packets.Dispatchable.{Verdict, rejects, accepts, is_dispatchable_type}
use traffic_inspector.Packets.Eth.{EthPacket}
use traffic_inspector.Processor.{
  PacketProcessor, Protocol, new_processor, packet_type, to_string_impl, on_dispatch_impl,
  on_dispatch_broadcast_impl,
}
use traffic_inspector.Lifecycle.{Lifecycle, new_lifecycle, Timer, Replies, Poll, is_read}

-- The rest of the state, the timer and the thread, is that of a PacketDispatcher.
pub record PacketRouter : Type 0 where
  pub m_current_processors : List PacketProcessor
  pub lifecycle : Lifecycle

-- The constructor converts each number of workers to a processor, whose second argument is 2000.
unfoldable pub new_router : List (Protocol × ℕ) → PacketRouter
unfolding new_processor new_lifecycle
new_router initializers = record {
  m_current_processors = map (λ i. new_processor i.0 i.1 2000) initializers;
  lifecycle = new_lifecycle;
}

abbrev pub is_accepted : Verdict → Bool
is_accepted rejects = false
is_accepted (accepts p) = true

-- `getRegisteredProtocolNames`: the texts of the processors with ", " between them. The first one is
-- read from the list, which must not be empty.
unfoldable pub join_names : Text → List PacketProcessor → Text
unfolding to_string_impl
join_names names [] = names
join_names names (p ∷ ps) = join_names (names ++ (codes ", " ++ to_string_impl p.protocol)) ps

unfoldable pub get_registered_protocol_names : PacketRouter → Outcome Text
unfolding join_names
get_registered_protocol_names r = elim r.m_current_processors [
  | [] ↦ fault out_of_bounds
  | p ∷ ps ↦ ok (join_names (to_string_impl p.protocol) ps)
]

-- The array `convResult`: a processor is asked only while `needInterrupt` is false.
unfoldable pub conv_result : ℕ → Bool → List PacketProcessor → Buffer → Outcome (List Bool)
conv_result depth interrupt [] d = ok []
conv_result depth interrupt (p ∷ ps) d = elim interrupt [
  | true ↦ conv_result depth true ps d >>= λ bs. ok (false ∷ bs)
  | false ↦ is_dispatchable_type (packet_type p.protocol) depth d >>= λ v.
      conv_result depth (is_accepted v) ps d >>= λ bs. ok (is_accepted v ∷ bs)
]

-- The array `res`: the processors whose flag is set are given the packet.
unfoldable pub dispatch_flagged :
    Bool
    → List PacketProcessor
    → List Bool
    → Option EthPacket
    → Outcome (List PacketProcessor × Option EthPacket)
unfolding on_dispatch_impl
dispatch_flagged ndebug [] bs inst = ok ([], inst)
dispatch_flagged ndebug (p ∷ ps) [] inst = ok (p ∷ ps, inst)
dispatch_flagged ndebug (p ∷ ps) (false ∷ bs) inst =
    dispatch_flagged ndebug ps bs inst >>= λ r. ok (p ∷ r.0, r.1)
dispatch_flagged ndebug (p ∷ ps) (true ∷ bs) inst = on_dispatch_impl ndebug p inst >>= λ q.
    dispatch_flagged ndebug ps bs q.1 >>= λ r. ok (q.0 ∷ r.0, r.1)

-- `route(Packet &&)`.
unfoldable pub route :
    Bool → ℕ → PacketRouter → Option EthPacket → Outcome (PacketRouter × Option EthPacket)
unfolding conv_result dispatch_flagged
route ndebug depth r inst = do
  raw ← deref inst
  d ← deref raw.m_data
  flags ← conv_result depth false r.m_current_processors d
  q ← dispatch_flagged ndebug r.m_current_processors flags inst
  ok (record r { m_current_processors = q.0 }, q.1)

-- The expansion over the tuple in `route(ControlMessageId)`.
unfoldable pub notify_all : List PacketProcessor → ControlMessageId → Outcome (List PacketProcessor)
unfolding on_dispatch_broadcast_impl
notify_all [] m = ok []
notify_all (p ∷ ps) m =
    on_dispatch_broadcast_impl p m >>= λ q. notify_all ps m >>= λ qs. ok (q.0 ∷ qs)

unfoldable pub route_control : PacketRouter → ControlMessageId → Outcome PacketRouter
unfolding notify_all
route_control r m =
    notify_all r.m_current_processors m >>= λ ps. ok (record r { m_current_processors = ps })

-- `initialize`, behind `timerfd_create` and whole.
router_charge : Replies → ℕ → Lifecycle → Lifecycle × Bool
router_charge os timeout s = elim os.clock_gettime [
  | none ↦ (s, false)
  | some now ↦
      if os.timerfd_settime
      then (
        record s {
          armed = some (record { first = now + timeout; interval = timeout });
          sync_thread = true;
        },
        true,
      )
      else (s, false)
]

unfoldable pub router_initialize : Replies → ℕ → PacketRouter → PacketRouter × Bool
unfolding router_charge
router_initialize os timeout r = elim r.lifecycle.m_timer_handler [
  | some fd ↦ (r, true)
  | none ↦ elim os.timerfd_create [
    | none ↦ (r, false)
    | some fd ↦
        let q = router_charge os timeout (record r.lifecycle { m_timer_handler = some fd }) in
        (record r { lifecycle = q.0 }, q.1)
  ]
]

unfoldable pub router_deinitialize : PacketRouter → PacketRouter
router_deinitialize r = record r {
  lifecycle = record r.lifecycle { m_stop_flag = true; sync_thread = false };
}

-- `syncThread` over the rounds that it has had, and whether it has returned.
unfoldable pub router_sync_thread :
    List (Bool × Poll) → PacketRouter → Outcome (Bool × PacketRouter)
unfolding is_read
router_sync_thread [] r = ok (false, r)
router_sync_thread ((stop, p) ∷ rounds) r = elim stop [
  | true ↦ ok (true, r)
  | false ↦ elim (is_read p) [
    | true ↦ route_control r sync_timeout >>= λ r'. router_sync_thread rounds r'
    | false ↦ router_sync_thread rounds r
  ]
]
