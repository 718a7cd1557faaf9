-- ===== src/Dispatcher/Broadcast.antt =====
-- `dispatchBroadcast` of include/Dispatcher/IDispatcher.hpp.
use traffic_inspector.Base.{◌≡◌, refl, sym, List, [], ◌∷◌, ◌++◌, map, Bool, ok, map-append}
use traffic_inspector.Packets.Types.{ControlMessageId}
use traffic_inspector.Dispatcher.{
  LeafOps, Dispatcher, leaf, node, Dispatchers, last, more, dispatch_broadcast, broadcast_all,
}

module _ {L : Type 0} where
  -- The leaves from left to right.
  unfoldable mutual
    pub leaves : Dispatcher L → List L
    leaves (leaf l) = l ∷ []
    leaves (node t xs) = all_leaves xs

    pub all_leaves : Dispatchers L → List L
    all_leaves (last x) = leaves x
    all_leaves (more x xs) = leaves x ++ all_leaves xs

module _ {L : Type 0} (ops : LeafOps L) (m : ControlMessageId) (after : L → L) (result : L → Bool)
    (returns : (l : L) → ops.on_broadcast l m ≡ ok (after l, result l)) where
  mutual
    unfolding dispatch_broadcast broadcast_all leaves all_leaves

    reach_tree :
        (x : Dispatcher L)
        → (y : Dispatcher L) × (dispatch_broadcast ops x m ≡ ok y)
          × (leaves y ≡ map after (leaves x))
    reach_tree (leaf l) = (leaf (after l), rw (returns l), refl)
    reach_tree (node t xs) = let (ys, e, f) = reach_all xs in (node t ys, rw e, f)

    reach_all :
        (xs : Dispatchers L)
        → (ys : Dispatchers L) × (broadcast_all ops xs m ≡ ok ys)
          × (all_leaves ys ≡ map after (all_leaves xs))
    reach_all (last x) = let (y, e, f) = reach_tree x in (last y, rw e, f)
    reach_all (more x xs) =
        let (y, e, f) = reach_tree x in
        let (ys, e', f') = reach_all xs in
        (more y ys, rw (e, e'), rw (f, f') (sym (map-append after (leaves x) (all_leaves xs))))

  -- Where every leaf takes the message, a broadcast returns, and in the resulting tree each leaf
  -- has taken it once.
  pub dispatch_broadcast-leaves :
      (x : Dispatcher L)
      → (y : Dispatcher L) × (dispatch_broadcast ops x m ≡ ok y) × (leaves y ≡ map after (leaves x))
  dispatch_broadcast-leaves x = reach_tree x
