-- ===== src/Dispatcher/FirstMatch.antt =====
-- `canBeDispatchered` of include/Dispatcher/IDispatcher.hpp.
use traffic_inspector.Base.{
  ℕ, zero, suc, ◌≡◌, refl, ap, ◌∙◌, Bool, true, false, List, [], ◌∷◌, Option, none, some, ok, fault,
  stack_overflow, ◌>>=◌, >>=-eq-ok, ◌↔◌, arith, subst, Option-cases, inl, inr,
}
use traffic_inspector.Packets.Types.{PacketType, eth}
use traffic_inspector.Packets.Wire.{Buffer}
use traffic_inspector.Packets.Dispatchable.{Verdict, rejects, accepts, is_dispatchable_type}
use traffic_inspector.Packets.Dispatchable.Laws.{eth_is_dispatchable_overflows}
use traffic_inspector.Dispatcher.{
  LeafOps, Dispatcher, node, Dispatchers, last, more, can_be_dispatchered, dispatching_result,
  find_true, has_value,
}

module _ {L : Type 0} (ops : LeafOps L) (depth : ℕ) where
  -- The subtree with the index says yes to the frame, and those in front of it say no.
  pub data FirstAt (d : Buffer) : Dispatchers L → ℕ → Type 0 where
    found_last :
        {x : Dispatcher L} (j : ℕ)
        → can_be_dispatchered ops depth x d ≡ ok (some j)
        → FirstAt d (last x) zero
    found :
        {x : Dispatcher L} {xs : Dispatchers L} (j : ℕ)
        → can_be_dispatchered ops depth x d ≡ ok (some j)
        → FirstAt d (more x xs) zero
    later :
        {x : Dispatcher L} {xs : Dispatchers L} {i : ℕ}
        → can_be_dispatchered ops depth x d ≡ ok none
        → FirstAt d xs i
        → FirstAt d (more x xs) (suc i)

  -- Once a subtree is found the others are not asked.
  pub quiet :
      (xs : Dispatchers L) (d : Buffer)
      → (bs : List Bool) × (dispatching_result ops depth xs d true ≡ ok bs) × (find_true bs ≡ none)
  unfolding dispatching_result find_true
  quiet (last x) d = (false ∷ [], refl, refl)
  quiet (more x xs) d = let (bs, e, f) = quiet xs d in (false ∷ bs, rw e, rw (f, find_true))

  FirstAt-result :
      (xs : Dispatchers L) (d : Buffer) (i : ℕ)
      → FirstAt d xs i
      → (bs : List Bool) × (dispatching_result ops depth xs d false ≡ ok bs)
        × (find_true bs ≡ some i)
  unfolding dispatching_result find_true
  FirstAt-result (last x) d i (found_last j e) = (true ∷ [], rw e, refl)
  FirstAt-result (more x xs) d i (found j e) =
      let (cs, q, _) = quiet xs d in (true ∷ cs, rw (e, q), refl)
  FirstAt-result (more x xs) d i (later {i = k} e r) =
      let (cs, q, f) = FirstAt-result xs d k r in (false ∷ cs, rw (e, q), rw (f, find_true))

  last-FirstAt :
      (x : Dispatcher L) (d : Buffer) (r : Option ℕ) (i : ℕ)
      → can_be_dispatchered ops depth x d ≡ ok r
      → find_true (has_value r ∷ []) ≡ some i
      → FirstAt d (last x) i
  unfolding find_true
  last-FirstAt x d none i e f = absurd (cc)
  last-FirstAt x d (some j) i e f = subst (FirstAt d (last x)) (ground arith) (found_last j e)

  more-FirstAt :
      (x : Dispatcher L) (xs : Dispatchers L) (d : Buffer) (r : Option ℕ) (bs : List Bool) (i : ℕ)
      → can_be_dispatchered ops depth x d ≡ ok r
      → dispatching_result ops depth xs d (has_value r) ≡ ok bs
      → find_true (has_value r ∷ bs) ≡ some i
      → ((k : ℕ)
          → dispatching_result ops depth xs d false ≡ ok bs
          → find_true bs ≡ some k
          → FirstAt d xs k)
      → FirstAt d (more x xs) i
  unfolding find_true
  more-FirstAt x xs d (some j) bs i e q f ih =
      subst (FirstAt d (more x xs)) (ground arith) (found j e)
  more-FirstAt x xs d none bs i e q f ih = elim (Option-cases (find_true bs)) [
    | inl t ↦ absurd (ground arith)
    | inr (k, t) ↦ subst (FirstAt d (more x xs)) (ground arith) (later e (ih k q t))
  ]

  result-FirstAt :
      (xs : Dispatchers L) (d : Buffer) (bs : List Bool) (i : ℕ)
      → dispatching_result ops depth xs d false ≡ ok bs
      → find_true bs ≡ some i
      → FirstAt d xs i
  unfolding dispatching_result
  result-FirstAt (last x) d bs i e f =
      let (r, e₁, e₂) = >>=-eq-ok (can_be_dispatchered ops depth x d) _ e in
      last-FirstAt x d r i e₁ (cc)
  result-FirstAt (more x xs) d bs i e f =
      let (r, e₁, e₂) = >>=-eq-ok (can_be_dispatchered ops depth x d) _ e in
      let (cs, e₃, e₄) = >>=-eq-ok (dispatching_result ops depth xs d (has_value r)) _ e₂ in
      more-FirstAt x xs d r cs i e₁ e₃ (cc) λ k p q. result-FirstAt xs d cs k p q

  after_test :
      (xs : Dispatchers L) (d : Buffer) (i : ℕ) (v : Verdict)
      → (elim v [
        | rejects ↦ ok none
        | accepts p ↦ dispatching_result ops depth xs d false >>= λ bs. ok (find_true bs)
      ])
        ≡ ok (some i)
      → ((p : ℕ) × (v ≡ accepts p)) × FirstAt d xs i
  after_test xs d i rejects e = absurd (cc)
  after_test xs d i (accepts p) e =
      let (bs, e₁, e₂) = >>=-eq-ok (dispatching_result ops depth xs d false) _ e in
      ((p, refl), result-FirstAt xs d bs i e₁ (cc))

  forth :
      (t : PacketType) (xs : Dispatchers L) (d : Buffer) (i : ℕ)
      → can_be_dispatchered ops depth (node t xs) d ≡ ok (some i)
      → ((p : ℕ) × (is_dispatchable_type t depth d ≡ ok (accepts p))) × FirstAt d xs i
  unfolding can_be_dispatchered
  forth t xs d i e =
      let (v, e₁, e₂) = >>=-eq-ok (is_dispatchable_type t depth d) _ e in
      let ((p, q), f) = after_test xs d i v e₂ in ((p, e₁ ∙ ap ok q), f)

  back :
      (t : PacketType) (xs : Dispatchers L) (d : Buffer) (i p : ℕ)
      → is_dispatchable_type t depth d ≡ ok (accepts p)
      → FirstAt d xs i
      → can_be_dispatchered ops depth (node t xs) d ≡ ok (some i)
  unfolding can_be_dispatchered
  back t xs d i p e f = let (bs, q, r) = FirstAt-result xs d i f in rw e (rw q (rw r))

  -- A node answers `i` exactly when the base type's test accepts the frame, the subtree `i` can
  -- take it, and no subtree in front of that can.
  pub can_be_dispatchered-first :
      (t : PacketType) (xs : Dispatchers L) (d : Buffer) (i : ℕ)
      → (can_be_dispatchered ops depth (node t xs) d ≡ ok (some i))
        ↔ (((p : ℕ) × (is_dispatchable_type t depth d ≡ ok (accepts p))) × FirstAt d xs i)
  can_be_dispatchered-first t xs d i = (forth t xs d i, λ h. back t xs d i h.0.0 h.0.1 h.1)

  -- A tree whose root is the Ethernet type answers no frame: the test recurs without end.
  pub can_be_dispatchered_eth :
      (xs : Dispatchers L) (d : Buffer)
      → can_be_dispatchered ops depth (node eth xs) d ≡ fault stack_overflow
  unfolding can_be_dispatchered
  can_be_dispatchered_eth xs d = rw (eth_is_dispatchable_overflows depth d)
