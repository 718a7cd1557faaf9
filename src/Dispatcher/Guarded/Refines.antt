-- ===== src/Dispatcher/Guarded/Refines.antt =====
-- `dispatch` of include/Dispatcher/IDispatcher.hpp against the list of guarded
-- leaves.
use traffic_inspector.Base.{
  ℕ, ◌≡◌, refl, sym, ap, ◌∙◌, Bool, true, false, ◌||◌, List, [], ◌∷◌, ◌++◌, Option, none, some, map,
  Outcome, ok, fault, stuck, ◌>>=◌, deref,
}
use traffic_inspector.Packets.Types.{PacketType}
use traffic_inspector.Packets.Wire.{Buffer}
use traffic_inspector.Packets.Dispatchable.{is_dispatchable_type}
use traffic_inspector.Packets.Eth.{EthPacket}
use traffic_inspector.Dispatcher.{
  LeafOps, Dispatcher, leaf, node, Dispatchers, last, more, has_value, can_be_dispatchered,
  dispatch, dispatch_at,
}
use traffic_inspector.Dispatcher.FirstMatch.{
  FirstAt, found_last, found, later, can_be_dispatchered-first,
}
use traffic_inspector.Dispatcher.Guarded.Answers.{
  IsTested, IsAllTested, can-fits, some-fits, none-fits,
}
use traffic_inspector.Dispatcher.Guarded.Results.{
  seen, seen_all, with_result, reports, chosen, forget_result, into_last, into_first, into_later,
}
use traffic_inspector.Dispatcher.Guarded.{
  Guarded, behind_type, guarded_leaves, all_guarded_leaves, with_leaves, is_accepted, fits,
  any_fits, deliver, deliver-append_left, deliver-append_right, deliver-map, deliver-none,
}

module _ {L : Type 0} (ops : LeafOps L) (depth : ℕ) (d : Buffer) where
  module _ (raw : EthPacket) (holds : raw.m_data ≡ some d) where
    -- What a node does with the subtree that it chose.
    node-deliver :
        (t : PacketType) (xs : Dispatchers L) (m : Outcome (Dispatchers L × Option EthPacket))
        → is_accepted (is_dispatchable_type t depth d) ≡ true
        → seen_all m ≡ deliver ops depth d (all_guarded_leaves xs) (some raw)
        → with_result (chosen t m)
          ≡ reports true (deliver ops depth d (guarded_leaves (node t xs)) (some raw))
    unfolding guarded_leaves
    node-deliver t xs m a ih =
        same m
        ∙ ap (λ q. reports true (with_leaves (map (behind_type t)) q)) ih
        ∙ ap (reports true) (sym (deliver-map ops depth d t (all_guarded_leaves xs) (some raw) a))
      where
        same :
            (m : Outcome (Dispatchers L × Option EthPacket))
            → with_result (chosen t m)
              ≡ reports true (with_leaves (map (behind_type t)) (seen_all m))
        same (ok r) = refl
        same (fault f) = refl
        same stuck = refl

    -- What a node does with the answer of the tests.
    abbrev answered :
        PacketType → Dispatchers L → Option ℕ → Outcome (Dispatcher L × Option EthPacket × Bool)
    answered t xs none = ok (node t xs, some raw, false)
    answered t xs (some k) = chosen t (dispatch_at ops depth xs k (some raw))

    dispatch-node :
        (t : PacketType) (xs : Dispatchers L) (r : Option ℕ)
        → can_be_dispatchered ops depth (node t xs) d ≡ ok r
        → dispatch ops depth (node t xs) (some raw) ≡ answered t xs r
    unfolding dispatch
    dispatch-node t xs r e =
        ap (λ m. deref m >>= λ d'. can_be_dispatchered ops depth (node t xs) d' >>= answered t xs)
          holds
        ∙ ap (λ m. m >>= answered t xs) e

    answer-deliver :
        (t : PacketType) (xs : Dispatchers L)
        → IsTested ops depth d (node t xs)
        → ((k : ℕ)
            → FirstAt ops depth d xs k
            → seen_all (dispatch_at ops depth xs k (some raw))
              ≡ deliver ops depth d (all_guarded_leaves xs) (some raw))
        → with_result (dispatch ops depth (node t xs) (some raw))
          ≡ reports
              (any_fits ops depth d (guarded_leaves (node t xs)))
              (deliver ops depth d (guarded_leaves (node t xs)) (some raw))
    answer-deliver t xs h ih =
        let (r, e, f) = can-fits ops depth d (node t xs) h in
        ap with_result (dispatch-node t xs r e) ∙ go r e f
      where
        gs : List (Guarded L)
        gs = guarded_leaves (node t xs)

        go :
            (r : Option ℕ)
            → can_be_dispatchered ops depth (node t xs) d ≡ ok r
            → has_value r ≡ any_fits ops depth d gs
            → with_result (answered t xs r)
              ≡ reports (any_fits ops depth d gs) (deliver ops depth d gs (some raw))
        go none e f =
            ap (λ b. ok (gs, some raw, b)) f
            ∙ ap (reports (any_fits ops depth d gs))
                (sym (deliver-none ops depth d gs (some raw) (sym f)))
        go (some k) e f =
            let ((p, a), first) = (can_be_dispatchered-first ops depth t xs d k).0 e in
            node-deliver t xs (dispatch_at ops depth xs k (some raw)) (rw a refl) (ih k first)
            ∙ ap (λ b. reports b (deliver ops depth d gs (some raw))) f

    leaf-deliver :
        (l : L)
        → any_fits ops depth d (guarded_leaves (leaf l)) ≡ true
        → seen (dispatch ops depth (leaf l) (some raw))
          ≡ deliver ops depth d (guarded_leaves (leaf l)) (some raw)
    unfolding dispatch guarded_leaves deliver
    leaf-deliver l f = go (fits ops depth d (record { types = []; terminator = l })) f
      where
        dispatched :
            (m : Outcome (L × Option EthPacket × Bool))
            → seen (m >>= λ r. ok (leaf r.0, r.1, r.2))
              ≡ (m >>= λ r. ok (record { types = []; terminator = r.0 } ∷ [], r.1))
        dispatched (ok r) = refl
        dispatched (fault e) = refl
        dispatched stuck = refl

        go :
            (b : Bool)
            → (b || false) ≡ true
            → seen (ops.on_dispatch l (some raw) >>= λ r. ok (leaf r.0, r.1, r.2)) ≡ (elim b [
              | true ↦ ops.on_dispatch l (some raw) >>= λ r.
                  ok (record { types = []; terminator = r.0 } ∷ [], r.1)
              | false ↦
                  with_leaves (λ hs. record { types = []; terminator = l } ∷ hs) (ok ([], some raw))
            ])
        go true p = dispatched (ops.on_dispatch l (some raw))
        go false p = absurd (cc)

    mutual
      unfolding dispatch_at all_guarded_leaves IsAllTested

      tree-deliver :
          (x : Dispatcher L)
          → IsTested ops depth d x
          → any_fits ops depth d (guarded_leaves x) ≡ true
          → seen (dispatch ops depth x (some raw))
            ≡ deliver ops depth d (guarded_leaves x) (some raw)
      tree-deliver (leaf l) h f = leaf-deliver l f
      tree-deliver (node t xs) h f =
          forget_result (dispatch ops depth (node t xs) (some raw)) _ _
            (answer-deliver t xs h λ k first. all-deliver xs k h.1 first)

      all-deliver :
          (xs : Dispatchers L) (k : ℕ)
          → IsAllTested ops depth d xs
          → FirstAt ops depth d xs k
          → seen_all (dispatch_at ops depth xs k (some raw))
            ≡ deliver ops depth d (all_guarded_leaves xs) (some raw)
      all-deliver (last x) k h (found_last j e) =
          into_last (dispatch ops depth x (some raw))
          ∙ tree-deliver x h (some-fits ops depth d x j h e)
      all-deliver (more x xs) k (h, hs) (found j e) =
          let f = some-fits ops depth d x j h e in
          into_first xs (dispatch ops depth x (some raw))
          ∙ ap (with_leaves (λ gs. gs ++ all_guarded_leaves xs)) (tree-deliver x h f)
          ∙ sym (
              deliver-append_left ops depth d (guarded_leaves x) (all_guarded_leaves xs) (some raw)
                f)
      all-deliver (more x xs) k (h, hs) (later {i = i} e first) =
          into_later x (dispatch_at ops depth xs i (some raw))
          ∙ ap (with_leaves (λ gs. guarded_leaves x ++ gs)) (all-deliver xs i hs first)
          ∙ sym (
              deliver-append_right ops depth d (guarded_leaves x) (all_guarded_leaves xs) (some raw)
                (none-fits ops depth d x h e))

    -- Where every test of the tree gives a value on the frame, a node delivers a packet to the
    -- first of its leaves, from left to right, that accepts the frame behind types that all do,
    -- leaves the other leaves as they were, and reports whether there is one.
    pub dispatch-deliver :
        (t : PacketType) (xs : Dispatchers L)
        → IsTested ops depth d (node t xs)
        → with_result (dispatch ops depth (node t xs) (some raw))
          ≡ reports
              (any_fits ops depth d (guarded_leaves (node t xs)))
              (deliver ops depth d (guarded_leaves (node t xs)) (some raw))
    unfolding IsTested
    dispatch-deliver t xs h = answer-deliver t xs h λ k first. all-deliver xs k h.1 first
