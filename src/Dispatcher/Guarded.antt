-- ===== src/Dispatcher/Guarded.antt =====
-- What a tree of dispatchers (include/Dispatcher/IDispatcher.h) stands for: its leaves from left to
-- right, each behind the types on its path, of which the first that fits a frame gets it.
pub mod Answers
pub mod Results
pub mod Refines
use traffic_inspector.Base.{
  ℕ, ◌≡◌, refl, sym, ap, ◌∙◌, Bool, true, false, ◌&&◌, ◌||◌, List, [], ◌∷◌, ◌++◌, Option, none,
  some, map, map-append, if◌then◌else◌, Outcome, ok, fault, stuck, ◌>>=◌, arith,
}
use mathlib.Core.Bool.{or_assoc}
use traffic_inspector.Packets.Types.{PacketType}
use traffic_inspector.Packets.Wire.{Buffer}
use traffic_inspector.Packets.Dispatchable.{Verdict, rejects, accepts, is_dispatchable_type}
use traffic_inspector.Packets.Eth.{EthPacket}
use traffic_inspector.Dispatcher.{
  LeafOps, Dispatcher, leaf, node, Dispatchers, last, more, has_value,
}

-- A leaf behind the types on the path from the root to it.
pub record Guarded (L : Type 0) : Type 0 where
  pub types : List PacketType
  pub terminator : L

abbrev pub behind_type : {L : Type 0} → PacketType → Guarded L → Guarded L
behind_type t g = record { types = t ∷ g.types; terminator = g.terminator }

module _ {L : Type 0} where
  unfoldable mutual
    pub guarded_leaves : Dispatcher L → List (Guarded L)
    guarded_leaves (leaf l) = record { types = []; terminator = l } ∷ []
    guarded_leaves (node t xs) = map (behind_type t) (all_guarded_leaves xs)

    pub all_guarded_leaves : Dispatchers L → List (Guarded L)
    all_guarded_leaves (last x) = guarded_leaves x
    all_guarded_leaves (more x xs) = guarded_leaves x ++ all_guarded_leaves xs

-- What is left of a list of leaves and of the item.
abbrev pub Remains : Type 0 → Type 0
Remains L = Outcome (List (Guarded L) × Option EthPacket)

abbrev pub with_leaves :
    {L : Type 0} → (List (Guarded L) → List (Guarded L)) → Remains L → Remains L
with_leaves f m = m >>= λ r. ok (f r.0, r.1)

pub with_leaves-eq :
    {L : Type 0} (f g : List (Guarded L) → List (Guarded L))
    → ((gs : List (Guarded L)) → f gs ≡ g gs)
    → (m : Remains L) → with_leaves f m ≡ with_leaves g m
with_leaves-eq f g h (ok (gs, rest)) = ap (λ q. ok (q, rest)) (h gs)
with_leaves-eq f g h (fault e) = refl
with_leaves-eq f g h stuck = refl

pub with_leaves-with_leaves :
    {L : Type 0} (f g : List (Guarded L) → List (Guarded L)) (m : Remains L)
    → with_leaves f (with_leaves g m) ≡ with_leaves (λ gs. f (g gs)) m
with_leaves-with_leaves f g (ok r) = refl
with_leaves-with_leaves f g (fault e) = refl
with_leaves-with_leaves f g stuck = refl

or-false : (a b : Bool) → (a || b) ≡ false → (a ≡ false) × (b ≡ false)
or-false true b h = absurd (cc)
or-false false b h = (refl, h)

abbrev pub says_yes : Outcome (Option ℕ) → Bool
says_yes (ok r) = has_value r
says_yes (fault e) = false
says_yes stuck = false

abbrev pub is_accepted : Outcome Verdict → Bool
is_accepted (ok rejects) = false
is_accepted (ok (accepts p)) = true
is_accepted (fault e) = false
is_accepted stuck = false

module _ {L : Type 0} (ops : LeafOps L) (depth : ℕ) (d : Buffer) where
  abbrev pub all_accept : List PacketType → Bool
  all_accept [] = true
  all_accept (t ∷ ts) = is_accepted (is_dispatchable_type t depth d) && all_accept ts

  -- Each type on the path accepts the frame, and so does the leaf.
  unfoldable pub fits : Guarded L → Bool
  fits g = all_accept g.types && says_yes (ops.can g.terminator d)

  abbrev pub any_fits : List (Guarded L) → Bool
  any_fits [] = false
  any_fits (g ∷ gs) = fits g || any_fits gs

  -- The first leaf that fits gets the item.
  unfoldable pub deliver : List (Guarded L) → Option EthPacket → Remains L
  deliver [] inst = ok ([], inst)
  deliver (g ∷ gs) inst =
      let behind = deliver gs inst in
      elim (fits g) [
        | true ↦ ops.on_dispatch g.terminator inst >>= λ r.
            ok (record { types = g.types; terminator = r.0 } ∷ gs, r.1)
        | false ↦ with_leaves (λ hs. g ∷ hs) behind
      ]

  pub any_fits-append :
      (gs hs : List (Guarded L)) → any_fits (gs ++ hs) ≡ (any_fits gs || any_fits hs)
  any_fits-append [] hs = refl
  any_fits-append (g ∷ gs) hs =
      ap (λ b. fits g || b) (any_fits-append gs hs)
      ∙ sym (or_assoc (fits g) (any_fits gs) (any_fits hs))

  pub any_fits-map :
      (t : PacketType) (gs : List (Guarded L))
      → any_fits (map (behind_type t) gs)
        ≡ (is_accepted (is_dispatchable_type t depth d) && any_fits gs)
  unfolding fits
  any_fits-map t [] = nothing (is_accepted (is_dispatchable_type t depth d))
    where
      nothing : (a : Bool) → false ≡ (a && false)
      nothing true = refl
      nothing false = refl
  any_fits-map t (g ∷ gs) =
      go (is_accepted (is_dispatchable_type t depth d)) (all_accept g.types)
        (says_yes (ops.can g.terminator d)) _ (any_fits gs) (any_fits-map t gs)
    where
      go : (a x y r r' : Bool) → r ≡ (a && r') → (((a && x) && y) || r) ≡ (a && ((x && y) || r'))
      go true x y r r' h = ap (λ b. (x && y) || b) h
      go false x y r r' h = h

  pub deliver-append_left :
      (gs hs : List (Guarded L)) (inst : Option EthPacket)
      → any_fits gs ≡ true
      → deliver (gs ++ hs) inst ≡ with_leaves (λ ks. ks ++ hs) (deliver gs inst)
  unfolding deliver
  deliver-append_left [] hs inst e = absurd (cc)
  deliver-append_left (g ∷ gs) hs inst e = go (fits g) refl λ q. deliver-append_left gs hs inst q
    where
      taken :
          (m : Outcome (L × Option EthPacket × Bool))
          → (m >>= λ r. ok (record { types = g.types; terminator = r.0 } ∷ (gs ++ hs), r.1))
            ≡ with_leaves
                (λ ks. ks ++ hs)
                (m >>= λ r. ok (record { types = g.types; terminator = r.0 } ∷ gs, r.1))
      taken (ok r) = refl
      taken (fault f) = refl
      taken stuck = refl

      go :
          (b : Bool)
          → fits g ≡ b
          → (any_fits gs ≡ true
              → deliver (gs ++ hs) inst ≡ with_leaves (λ ks. ks ++ hs) (deliver gs inst))
          → deliver (g ∷ (gs ++ hs)) inst ≡ with_leaves (λ ks. ks ++ hs) (deliver (g ∷ gs) inst)
      go true p ih = rw (p, deliver) (taken (ops.on_dispatch g.terminator inst))
      go false p ih =
          rw (p, deliver)
            (ap (with_leaves (λ ks. g ∷ ks)) (ih (rw p at e))
              ∙ with_leaves-with_leaves (λ ks. g ∷ ks) (λ ks. ks ++ hs) (deliver gs inst)
              ∙ sym (with_leaves-with_leaves (λ ks. ks ++ hs) (λ ks. g ∷ ks) (deliver gs inst)))

  pub deliver-append_right :
      (gs hs : List (Guarded L)) (inst : Option EthPacket)
      → any_fits gs ≡ false
      → deliver (gs ++ hs) inst ≡ with_leaves (λ ks. gs ++ ks) (deliver hs inst)
  unfolding deliver
  deliver-append_right [] hs inst e = same (deliver hs inst)
    where
      same : (m : Remains L) → m ≡ with_leaves (λ ks. ks) m
      same (ok r) = refl
      same (fault f) = refl
      same stuck = refl
  deliver-append_right (g ∷ gs) hs inst e =
      let (p, q) = or-false (fits g) (any_fits gs) e in
      rw (p, deliver)
        (ap (with_leaves (λ ks. g ∷ ks)) (deliver-append_right gs hs inst q)
          ∙ with_leaves-with_leaves (λ ks. g ∷ ks) (λ ks. gs ++ ks) (deliver hs inst))

  fits-behind :
      (t : PacketType) (g : Guarded L)
      → is_accepted (is_dispatchable_type t depth d) ≡ true
      → fits (behind_type t g) ≡ fits g
  unfolding fits
  fits-behind t g e = rw e

  pub deliver-map :
      (t : PacketType) (gs : List (Guarded L)) (inst : Option EthPacket)
      → is_accepted (is_dispatchable_type t depth d) ≡ true
      → deliver (map (behind_type t) gs) inst ≡ with_leaves (map (behind_type t)) (deliver gs inst)
  unfolding deliver
  deliver-map t [] inst e = refl
  deliver-map t (g ∷ gs) inst e =
      rw (fits-behind t g e, deliver) (go (fits g) (deliver-map t gs inst e))
    where
      taken :
          (m : Outcome (L × Option EthPacket × Bool))
          → (m >>= λ r.
              ok (record { types = t ∷ g.types; terminator = r.0 } ∷ map (behind_type t) gs, r.1))
            ≡ with_leaves
                (map (behind_type t))
                (m >>= λ r. ok (record { types = g.types; terminator = r.0 } ∷ gs, r.1))
      taken (ok r) = refl
      taken (fault f) = refl
      taken stuck = refl

      go :
          (b : Bool) {m : Remains L}
          → m ≡ with_leaves (map (behind_type t)) (deliver gs inst)
          → (elim b [
            | true ↦ ops.on_dispatch g.terminator inst >>= λ r.
                ok (record { types = t ∷ g.types; terminator = r.0 } ∷ map (behind_type t) gs, r.1)
            | false ↦ with_leaves (λ hs. behind_type t g ∷ hs) m
          ])
            ≡ with_leaves (map (behind_type t)) (elim b [
              | true ↦ ops.on_dispatch g.terminator inst >>= λ r.
                  ok (record { types = g.types; terminator = r.0 } ∷ gs, r.1)
              | false ↦ with_leaves (λ hs. g ∷ hs) (deliver gs inst)
            ])
      go true ih = taken (ops.on_dispatch g.terminator inst)
      go false ih =
          ap (with_leaves (λ hs. behind_type t g ∷ hs)) ih
          ∙ with_leaves-with_leaves (λ hs. behind_type t g ∷ hs) (map (behind_type t))
              (deliver gs inst)
          ∙ sym (with_leaves-with_leaves (map (behind_type t)) (λ hs. g ∷ hs) (deliver gs inst))

  pub deliver-none :
      (gs : List (Guarded L)) (inst : Option EthPacket)
      → any_fits gs ≡ false
      → deliver gs inst ≡ ok (gs, inst)
  unfolding deliver
  deliver-none [] inst e = refl
  deliver-none (g ∷ gs) inst e =
      let (p, q) = or-false (fits g) (any_fits gs) e in rw (p, deliver-none gs inst q, deliver)
