-- ===== src/Dispatcher/Guarded/Answers.antt =====
-- `canBeDispatchered` of include/Dispatcher/IDispatcher.hpp against the list of guarded leaves.
use traffic_inspector.Base.{
  ℕ, suc, ◌≡◌, refl, sym, ap, ◌∙◌, Bool, true, false, ◌||◌, List, [], ◌∷◌, ◌++◌, Option, none, some,
  ok, arith,
}
use traffic_inspector.Packets.Wire.{Buffer}
use traffic_inspector.Packets.Dispatchable.{Verdict, rejects, accepts, is_dispatchable_type}
use traffic_inspector.Dispatcher.{
  LeafOps, Dispatcher, leaf, node, Dispatchers, last, more, has_value, find_true,
  can_be_dispatchered, dispatching_result,
}
use traffic_inspector.Dispatcher.FirstMatch.{quiet}
use traffic_inspector.Dispatcher.Guarded.{
  guarded_leaves, all_guarded_leaves, fits, any_fits, any_fits-append, any_fits-map,
}

module _ {L : Type 0} (ops : LeafOps L) (depth : ℕ) (d : Buffer) where
  -- Every test in the tree gives a value on the frame: the base types' and the leaves'.
  unfoldable mutual
    pub IsTested : Dispatcher L → Type 0
    IsTested (leaf l) = (r : Option ℕ) × (ops.can l d ≡ ok r)
    IsTested (node t xs) =
        ((v : Verdict) × (is_dispatchable_type t depth d ≡ ok v)) × IsAllTested xs

    pub IsAllTested : Dispatchers L → Type 0
    IsAllTested (last x) = IsTested x
    IsAllTested (more x xs) = IsTested x × IsAllTested xs

  fits-leaf :
      (l : L) (r : Option ℕ)
      → ops.can l d ≡ ok r
      → has_value r ≡ any_fits ops depth d (record { types = []; terminator = l } ∷ [])
  unfolding fits
  fits-leaf l none e = rw e refl
  fits-leaf l (some j) e = rw e refl

  has_value-later : (bs : List Bool) → has_value (find_true (false ∷ bs)) ≡ has_value (find_true bs)
  unfolding find_true
  has_value-later bs = go (find_true bs)
    where
      go : (r : Option ℕ) → has_value (elim r [ none ↦ none | some i ↦ some (suc i) ]) ≡ has_value r
      go none = refl
      go (some i) = refl

  last-fits :
      (x : Dispatcher L) (r : Option ℕ)
      → can_be_dispatchered ops depth x d ≡ ok r
      → has_value r ≡ any_fits ops depth d (guarded_leaves x)
      → (bs : List Bool) × (dispatching_result ops depth (last x) d false ≡ ok bs)
        × (has_value (find_true bs) ≡ any_fits ops depth d (guarded_leaves x))
  unfolding dispatching_result find_true
  last-fits x none e f = (false ∷ [], rw e refl, f)
  last-fits x (some j) e f = (true ∷ [], rw e refl, f)

  more-fits :
      (x : Dispatcher L) (xs : Dispatchers L) (r : Option ℕ) (bs : List Bool)
      → can_be_dispatchered ops depth x d ≡ ok r
      → has_value r ≡ any_fits ops depth d (guarded_leaves x)
      → dispatching_result ops depth xs d false ≡ ok bs
      → has_value (find_true bs) ≡ any_fits ops depth d (all_guarded_leaves xs)
      → (cs : List Bool) × (dispatching_result ops depth (more x xs) d false ≡ ok cs)
        × (has_value (find_true cs)
            ≡ any_fits ops depth d (guarded_leaves x ++ all_guarded_leaves xs))
  unfolding dispatching_result find_true
  more-fits x xs none bs e f e' f' = (
    false ∷ bs,
    rw (e, e') refl,
    has_value-later bs
        ∙ f'
        ∙ ap (λ b. b || any_fits ops depth d (all_guarded_leaves xs)) f
        ∙ sym (any_fits-append ops depth d (guarded_leaves x) (all_guarded_leaves xs)),
  )
  more-fits x xs (some j) bs e f e' f' =
      let (cs, e₁, _) = quiet ops depth xs d in
      (
        true ∷ cs,
        rw (e, e₁) refl,
        ap (λ b. b || any_fits ops depth d (all_guarded_leaves xs)) f
            ∙ sym (any_fits-append ops depth d (guarded_leaves x) (all_guarded_leaves xs)),
      )

  mutual
    unfolding can_be_dispatchered dispatching_result find_true IsTested IsAllTested guarded_leaves
        all_guarded_leaves

    pub can-fits :
        (x : Dispatcher L)
        → IsTested x
        → (r : Option ℕ) × (can_be_dispatchered ops depth x d ≡ ok r)
          × (has_value r ≡ any_fits ops depth d (guarded_leaves x))
    can-fits (leaf l) (r, e) = (r, e, fits-leaf l r e)
    can-fits (node t xs) ((rejects, e), h) =
        (none, rw e refl, rw e at (sym (any_fits-map ops depth d t (all_guarded_leaves xs))))
    can-fits (node t xs) ((accepts p, e), h) =
        let (bs, e₁, f) = result-fits xs h in
        (
          find_true bs,
          rw (e, e₁) refl,
          f ∙ rw e at (sym (any_fits-map ops depth d t (all_guarded_leaves xs))),
        )

    result-fits :
        (xs : Dispatchers L)
        → IsAllTested xs
        → (bs : List Bool) × (dispatching_result ops depth xs d false ≡ ok bs)
          × (has_value (find_true bs) ≡ any_fits ops depth d (all_guarded_leaves xs))
    result-fits (last x) h = let (r, e, f) = can-fits x h in last-fits x r e f
    result-fits (more x xs) (h, hs) =
        let (r, e, f) = can-fits x h in
        let (bs, e', f') = result-fits xs hs in more-fits x xs r bs e f e' f'

  pub some-fits :
      (x : Dispatcher L) (j : ℕ)
      → IsTested x
      → can_be_dispatchered ops depth x d ≡ ok (some j)
      → any_fits ops depth d (guarded_leaves x) ≡ true
  some-fits x j h e =
      let (r, e', f) = can-fits x h in
      let same : r ≡ some j = ground arith in sym f ∙ ap has_value same

  pub none-fits :
      (x : Dispatcher L)
      → IsTested x
      → can_be_dispatchered ops depth x d ≡ ok none
      → any_fits ops depth d (guarded_leaves x) ≡ false
  none-fits x h e =
      let (r, e', f) = can-fits x h in
      let same : r ≡ none = ground arith in sym f ∙ ap has_value same
