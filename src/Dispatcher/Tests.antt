-- ===== src/Dispatcher/Tests.antt =====
-- A tree of two counters below UDP.
use traffic_inspector.Base.{
  ℕ, zero, suc, ◌+◌, ◌≡◌, ◌↔◌, refl, true, ok, some, none, Option, Outcome, codes, decimal, digits,
}
use traffic_inspector.Packets.Types.{udp, packet_type_to_string}
use traffic_inspector.Packets.Wire.{Buffer}
use traffic_inspector.Packets.Dispatchable.{accepts, is_dispatchable_type, udp_is_dispatchable}
use traffic_inspector.Packets.Samples.{request_frame, item}
use traffic_inspector.Dispatcher.{
  LeafOps, Dispatchers, leaf, node, last, more, can_be_dispatchered, dispatch, dispatching_result,
  dispatch_at, find_true,
}
use traffic_inspector.Dispatcher.FirstMatch.{FirstAt, can_be_dispatchered-first}
use traffic_inspector.Dispatcher.Guarded.{any_fits, deliver, guarded_leaves}
use traffic_inspector.Dispatcher.Guarded.Answers.{IsTested}
use traffic_inspector.Dispatcher.Guarded.Results.{with_result, reports}
use traffic_inspector.Dispatcher.Guarded.Refines.{dispatch-deliver}
use traffic_inspector.Dispatcher.Texts.{to_string, all_to_string}

-- A leaf that takes frames from its number on, and counts in its second component.
abbrev counter_can : ℕ × ℕ → Buffer → Outcome (Option ℕ)
counter_can (zero, n) d = ok none
counter_can (suc k, n) d = ok (some 0)

abbrev counters : LeafOps (ℕ × ℕ)
counters = record {
  can = counter_can;
  on_dispatch = λ l inst. ok ((l.0, l.1 + 1), none, true);
  on_broadcast = λ l m. ok (l, true);
}

abbrev two_counters : ℕ → Dispatchers (ℕ × ℕ)
two_counters n = more (leaf (0, 0)) (last (leaf (1, n)))

answers_one : can_be_dispatchered counters 9 (node udp (two_counters 0)) request_frame ≡ ok (some 1)
unfolding can_be_dispatchered dispatching_result is_dispatchable_type udp_is_dispatchable find_true
answers_one = refl

can_be_dispatchered-first_example :
    (can_be_dispatchered counters 9 (node udp (two_counters 0)) request_frame ≡ ok (some 1)) ↔ (
      ((p : ℕ) × (is_dispatchable_type udp 9 request_frame ≡ ok (accepts p)))
      × FirstAt counters 9 request_frame (two_counters 0) 1)
can_be_dispatchered-first_example =
    can_be_dispatchered-first counters 9 udp (two_counters 0) request_frame 1

dispatched :
    dispatch counters 9 (node udp (two_counters 0)) (some (item request_frame 69))
    ≡ ok (node udp (two_counters 1), none, true)
unfolding dispatch dispatch_at can_be_dispatchered dispatching_result is_dispatchable_type
    udp_is_dispatchable find_true
dispatched = refl

tested : IsTested counters 9 request_frame (node udp (two_counters 0))
unfolding IsTested is_dispatchable_type udp_is_dispatchable
tested = ((accepts 34, refl), ((none, refl), (some 0, refl)))

dispatch-deliver_example :
    with_result (dispatch counters 9 (node udp (two_counters 0)) (some (item request_frame 69)))
    ≡ reports (any_fits counters 9 request_frame (guarded_leaves (node udp (two_counters 0)))) (
        deliver counters 9 request_frame
          (guarded_leaves (node udp (two_counters 0)))
          (some (item request_frame 69)))
dispatch-deliver_example =
    dispatch-deliver counters 9 request_frame (item request_frame 69) refl udp (two_counters 0)
      tested

tree_text :
    to_string (λ l. decimal l.0) (node udp (two_counters 0)) ≡ codes "UDP, Dispatchers {0, 1, }"
unfolding to_string all_to_string packet_type_to_string decimal digits
tree_text = refl
