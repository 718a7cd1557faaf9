-- ===== src/Worker/Reporting/Exchanged.antt =====
-- A request and its response from the choice of the worker in include/PacketProcessor.hpp to what the
-- notifier of src/ResultNotifier.cpp gets, among the other threads.
use traffic_inspector.Base.{
  ℕ, ◌<◌, ◌≡◌, refl, sym, ap, ap₂, ◌∙◌, ◌==◌, Bool, true, false, List, [], ◌∷◌, ◌++◌, none, some,
  if◌then◌else◌, length, All, All-snoc, append-nil, ok, arith,
}
use traffic_inspector.Packets.Wire.{Buffer}
use traffic_inspector.Packets.Eth.{EthPacket}
use traffic_inspector.Packets.Eth.Hash.{IsReply}
use traffic_inspector.Packets.Radius.{RadiusPacket, radius_from_raw}
use traffic_inspector.Packets.Radius.Hash.{IsResponse}
use traffic_inspector.Processor.{PacketProcessor, worker_id}
use traffic_inspector.Processor.Routing.{worker_id_reply}
use traffic_inspector.Worker.Pairing.{report}
use traffic_inspector.Worker.SessionMap.{find}
use traffic_inspector.Worker.Exchange.{turn_of, process_packets_exchange}
use traffic_inspector.Worker.{Settings, Turn, new_worker}
use traffic_inspector.Worker.System.{
  System, update, new_system, SystemStep, puts, enters, leaves, goes_on, finishes, SystemRun,
}
use traffic_inspector.Worker.System
use traffic_inspector.Worker.System.Thread.{packets}
use traffic_inspector.Worker.System.Order.{SystemRun-order}
use traffic_inspector.Worker.Reporting.{
  Reporting, works, reports, notifies, ReportingRun, here, next,
}
use traffic_inspector.Worker.Reporting.Order.{new_reporting, from, ReportingRun-order}

-- A turn that was had while the stop flag was not seen to be set.
abbrev Passes : Turn → Type 0
Passes t = t.stop_flag ≡ false

turn-Passes :
    (turns : ℕ → List Turn) (i j : ℕ) (p : RadiusPacket) (now monotonic : ℕ)
    → ((k : ℕ) → All Passes (turns k))
    → All Passes (update turns i (turns i ++ (turn_of p now monotonic ∷ [])) j)
turn-Passes turns i j p now monotonic h = go (i == j)
  where
    go : (b : Bool) → All Passes (if b then turns i ++ (turn_of p now monotonic ∷ []) else turns j)
    go true = All-snoc Passes (turns i) (turn_of p now monotonic) (h i) refl
    go false = h j

turn-turn_of :
    (t : Turn) (p : RadiusPacket)
    → t.packet ≡ p
    → t.stop_flag ≡ false
    → t ≡ turn_of p t.now t.monotonic
turn-turn_of t p e f = ap₂ turn e f
  where
    turn : RadiusPacket → Bool → Turn
    turn x b = record { stop_flag = b; packet = x; now = t.now; monotonic = t.monotonic }

-- Two turns with the packets of two given ones.
two_turns :
    (c : Settings) (ts : List Turn) (p q : RadiusPacket)
    → packets ts ≡ p ∷ q ∷ []
    → All Passes ts
    → (now : ℕ) × (monotonic : ℕ) × (now' : ℕ) × (monotonic' : ℕ) × (ts
        ≡ turn_of p now monotonic ∷ turn_of q now' monotonic' ∷ [])
two_turns c [] p q e h = absurd (cc)
two_turns c (t ∷ []) p q e h = absurd (cc)
two_turns c (t ∷ u ∷ []) p q e (a, (b, _)) =
    let first : t.packet ≡ p = cc in
    let second : u.packet ≡ q = cc in
    (
      t.now,
      t.monotonic,
      u.now,
      u.monotonic,
      ap₂ (λ x y. x ∷ y ∷ []) (turn-turn_of t p first a) (turn-turn_of u q second b),
    )
two_turns c (t ∷ u ∷ v ∷ ts) p q e h = absurd (cc)

module _ (c : Settings) (instances_count : ℕ) where
  turns-Passes :
      {s : System} → SystemRun c instances_count new_system s → (j : ℕ) → All Passes (s.turns j)
  turns-Passes System.here j = tt
  turns-Passes (System.next run (puts i p lt)) j = turns-Passes run j
  turns-Passes (System.next run (enters i lt at go)) j = turns-Passes run j
  turns-Passes (System.next run (leaves i lt at go)) j = turns-Passes run j
  turns-Passes (System.next {u} run (goes_on i now monotonic p rest w lt at has e)) j =
      turn-Passes u.turns i j p now monotonic (turns-Passes run)
  turns-Passes (System.next {u} run (finishes i now monotonic p rest w lt at has e)) j =
      turn-Passes u.turns i j p now monotonic (turns-Passes run)

  -- What the threads do along with the notifier they do without it.
  ReportingRun-threads :
      {r : Reporting}
      → ReportingRun c instances_count new_reporting r
      → SystemRun c instances_count new_system r.system
  ReportingRun-threads here = System.here
  ReportingRun-threads (next run (works s st keep)) = System.next (ReportingRun-threads run) st
  ReportingRun-threads (next run (reports s i monotonic resp req st new keep)) =
      System.next (ReportingRun-threads run) st
  ReportingRun-threads (next run (notifies m st keep)) = ReportingRun-threads run

  -- In a processor with workers: a request's frame and its response's have equal header pointers
  -- and exchanged addresses, and the packets that are built from them have been put into the queue
  -- of the worker that the request's frame chooses, as the first and only ones, and its thread has
  -- taken both. Then, however the threads of the processor and the notifier have interleaved from
  -- their start on, the response's frame chooses the same worker; the thread has no session open;
  -- and it has handed over exactly one notification, with the attributes of both packets.
  pub ReportingRun-exchange :
      {r : Reporting}
      → (ndebug : Bool) (x : PacketProcessor) (e f : EthPacket) (d d' : Buffer)
      → (p q : RadiusPacket) (i : ℕ) → 0 < length x.m_received_packet_queue
      → e.m_data ≡ some d
      → f.m_data ≡ some d'
      → e.eth_header ≡ f.eth_header
      → radius_from_raw ndebug (some e) ≡ ok (p, none)
      → radius_from_raw ndebug (some f) ≡ ok (q, none)
      → IsReply d d'
      → IsResponse d d'
      → worker_id x e d ≡ ok i
      → ReportingRun c instances_count new_reporting r
      → r.system.put i ≡ p ∷ q ∷ []
      → r.system.queue i ≡ []
      → (worker_id x f d' ≡ ok i)
        × ((k : ℕ) → find k (r.system.worker i).sessions ≡ none)
        × ((monotonic : ℕ) × (from i r.sent ≡ report c monotonic q p ∷ []))
  unfolding find
  ReportingRun-exchange {r} ndebug x e f d d' p q i workers he hf header ep eq reply response chosen
        run put empty =
      let s = r.system in
      let threads = ReportingRun-threads run in
      let (order, (returned, code), _) = SystemRun-order c instances_count i threads in
      let had : packets (s.turns i) ≡ p ∷ q ∷ [] =
        sym (append-nil (packets (s.turns i)))
        ∙ (ap (λ y. packets (s.turns i) ++ y) (sym empty) ∙ (order ∙ put)) in
      let (now, monotonic, now', monotonic', turns) =
        two_turns c (s.turns i) p q had (turns-Passes threads i) in
      let (w, code', sessions, reported) =
        process_packets_exchange ndebug c e f d d' p q now monotonic now' monotonic' new_worker he
          hf ep eq response (record { keys = tt; interval = refl; counter = omega arith }) refl in
      let left : s.worker i ≡ w = ground (arith, code, code', turns) in
      let (j, first, second, bound) = worker_id_reply x e f d d' workers header reply in
      let same : i ≡ j = ground (arith, chosen, first) in
      (
        second ∙ ap ok (sym same),
        λ k. ap (λ v. find k v.sessions) left ∙ sessions k,
        (
          monotonic',
          (ReportingRun-order c instances_count run).1 i
              ∙ (ap (λ v. v.notifications) left ∙ reported),
        ),
      )
