-- ===== src/Dispatcher/Delivery.antt =====
-- `dispatch` and `dispatchByIndex` of include/Dispatcher/IDispatcher.hpp.
use traffic_inspector.Base.{
  ℕ, zero, suc, ◌≡◌, refl, ap, ◌∙◌, Bool, true, false, Option, none, some, Outcome, ok, ◌>>=◌,
  >>=-eq-ok, arith, subst,
}
use traffic_inspector.Packets.Types.{PacketType}
use traffic_inspector.Packets.Wire.{Buffer}
use traffic_inspector.Packets.Eth.{EthPacket}
use traffic_inspector.Dispatcher.{
  LeafOps, Dispatcher, node, Dispatchers, last, more, can_be_dispatchered, dispatch, dispatch_at,
}
use traffic_inspector.Dispatcher.FirstMatch.{
  FirstAt, found_last, found, later, can_be_dispatchered-first,
}

module _ {L : Type 0} (ops : LeafOps L) (depth : ℕ) where
  -- The subtree at the index has taken the item and left `rest` of it, and the others are as
  -- before.
  pub data Delivered (inst rest : Option EthPacket)
      : ℕ → Dispatchers L → Dispatchers L → Type 0 where
    to_last :
        {x y : Dispatcher L} (b : Bool)
        → dispatch ops depth x inst ≡ ok (y, rest, b)
        → Delivered inst rest zero (last x) (last y)
    to_first :
        {x y : Dispatcher L} {xs : Dispatchers L} (b : Bool)
        → dispatch ops depth x inst ≡ ok (y, rest, b)
        → Delivered inst rest zero (more x xs) (more y xs)
    behind :
        {x : Dispatcher L} {xs ys : Dispatchers L} {k : ℕ}
        → Delivered inst rest k xs ys
        → Delivered inst rest (suc k) (more x xs) (more x ys)

  -- What follows the answer of `can_be_dispatchered` in `dispatch`.
  abbrev choose :
      PacketType
      → Dispatchers L
      → Option EthPacket
      → Option ℕ
      → Outcome (Dispatcher L × Option EthPacket × Bool)
  choose t xs inst i = elim i [
    | none ↦ ok (node t xs, inst, false)
    | some k ↦ dispatch_at ops depth xs k inst >>= λ r. ok (node t r.0, r.1, true)
  ]

  abbrev into :
      (Dispatcher L → Dispatchers L)
      → Outcome (Dispatcher L × Option EthPacket × Bool)
      → Outcome (Dispatchers L × Option EthPacket)
  into f m = m >>= λ r. ok (f r.0, r.1)

  first_step :
      (x : Dispatcher L) (inst : Option EthPacket) (f : Dispatcher L → Dispatchers L)
      → (ys : Dispatchers L) (rest : Option EthPacket)
      → into f (dispatch ops depth x inst) ≡ ok (ys, rest)
      → (y : Dispatcher L) × (b : Bool) × (dispatch ops depth x inst ≡ ok (y, rest, b)) × (f y ≡ ys)
  first_step x inst f ys rest e =
      let ((y, r, b), e₁, e₂) = >>=-eq-ok (dispatch ops depth x inst) _ e in
      (y, b, e₁ ∙ ap (λ q. ok (y, q, b)) (ground arith), ground arith)

  dispatch_at-Delivered :
      (d : Buffer) (xs ys : Dispatchers L) (k : ℕ) (inst rest : Option EthPacket)
      → FirstAt ops depth d xs k
      → dispatch_at ops depth xs k inst ≡ ok (ys, rest)
      → Delivered inst rest k xs ys
  unfolding dispatch_at
  dispatch_at-Delivered d (last x) ys zero inst rest (found_last j c) e =
      let (y, b, e₁, e₂) = first_step x inst last ys rest e in
      subst (Delivered inst rest zero (last x)) e₂ (to_last b e₁)
  dispatch_at-Delivered d (last x) ys (suc k) inst rest f e = elim f [ ]
  dispatch_at-Delivered d (more x xs) ys zero inst rest (found j c) e =
      let (y, b, e₁, e₂) = first_step x inst (λ q. more q xs) ys rest e in
      subst (Delivered inst rest zero (more x xs)) e₂ (to_first b e₁)
  dispatch_at-Delivered d (more x xs) ys (suc k) inst rest (later c f) e =
      let ((zs, r), e₁, e₂) = >>=-eq-ok (dispatch_at ops depth xs k inst) _ e in
      let e₃ : dispatch_at ops depth xs k inst ≡ ok (zs, rest) =
        e₁ ∙ ap (λ q. ok (zs, q)) (ground arith) in
      subst (Delivered inst rest (suc k) (more x xs)) {x = more x zs} (ground arith)
        (behind (dispatch_at-Delivered d xs zs k inst rest f e₃))

  after_answer :
      (t : PacketType) (xs : Dispatchers L) (y : Dispatcher L) (inst rest : Option EthPacket)
      → (i : Option ℕ) → choose t xs inst i ≡ ok (y, rest, true)
      → (k : ℕ) × (i ≡ some k)
        × ((ys : Dispatchers L) × (y ≡ node t ys)
            × (dispatch_at ops depth xs k inst ≡ ok (ys, rest)))
  after_answer t xs y inst rest none e = absurd (cc)
  after_answer t xs y inst rest (some k) e =
      let ((ys, r), e₁, e₂) = >>=-eq-ok (dispatch_at ops depth xs k inst) _ e in
      (k, refl, (ys, ground arith, e₁ ∙ ap (λ q. ok (ys, q)) (ground arith)))

  -- A node that reports a dispatch has given the item to its first subtree that accepts the frame,
  -- and has left the others as they were.
  pub dispatch-first :
      (t : PacketType) (xs : Dispatchers L) (y : Dispatcher L) (raw : EthPacket) (d : Buffer)
      → (rest : Option EthPacket) → raw.m_data ≡ some d
      → dispatch ops depth (node t xs) (some raw) ≡ ok (y, rest, true)
      → (k : ℕ) × FirstAt ops depth d xs k
        × ((ys : Dispatchers L) × (y ≡ node t ys) × Delivered (some raw) rest k xs ys)
  unfolding dispatch
  dispatch-first t xs y raw d rest h e =
      let (i, e₁, e₂) = >>=-eq-ok (can_be_dispatchered ops depth (node t xs) d) _ (rw h at e) in
      let (k, q, (ys, same, run)) = after_answer t xs y (some raw) rest i e₂ in
      let first = ((can_be_dispatchered-first ops depth t xs d k).0 (e₁ ∙ ap ok q)).1 in
      (k, first, (ys, same, dispatch_at-Delivered d xs ys k (some raw) rest first run))
