-- ===== src/Dispatcher/Guarded/Results.antt =====
-- The results of `dispatch` and of the walk to a subtree (include/Dispatcher/IDispatcher.hpp), seen on
-- the list of guarded leaves.
use traffic_inspector.Base.{
  ◌≡◌, refl, ap, ◌∙◌, Bool, true, List, ◌++◌, Option, Outcome, ok, fault, stuck, ◌>>=◌,
}
use traffic_inspector.Packets.Types.{PacketType}
use traffic_inspector.Packets.Eth.{EthPacket}
use traffic_inspector.Dispatcher.{Dispatcher, node, Dispatchers, last, more}
use traffic_inspector.Dispatcher.Guarded.{
  Guarded, guarded_leaves, all_guarded_leaves, Remains, with_leaves,
}

module _ {L : Type 0} where
  abbrev pub seen : Outcome (Dispatcher L × Option EthPacket × Bool) → Remains L
  seen m = m >>= λ r. ok (guarded_leaves r.0, r.1)

  abbrev pub seen_all : Outcome (Dispatchers L × Option EthPacket) → Remains L
  seen_all m = m >>= λ r. ok (all_guarded_leaves r.0, r.1)

  abbrev pub with_result :
      Outcome (Dispatcher L × Option EthPacket × Bool)
      → Outcome (List (Guarded L) × Option EthPacket × Bool)
  with_result m = m >>= λ r. ok (guarded_leaves r.0, r.1, r.2)

  abbrev pub reports : Bool → Remains L → Outcome (List (Guarded L) × Option EthPacket × Bool)
  reports b m = m >>= λ r. ok (r.0, r.1, b)

  abbrev pub chosen :
      PacketType
      → Outcome (Dispatchers L × Option EthPacket)
      → Outcome (Dispatcher L × Option EthPacket × Bool)
  chosen t m = m >>= λ r. ok (node t r.0, r.1, true)

  forget : Outcome (List (Guarded L) × Option EthPacket × Bool) → Remains L
  forget q = q >>= λ x. ok (x.0, x.1)

  pub forget_result :
      (m : Outcome (Dispatcher L × Option EthPacket × Bool)) (b : Bool) (r : Remains L)
      → with_result m ≡ reports b r
      → seen m ≡ r
  unfolding forget
  forget_result m b r e = seen_forget m ∙ ap forget e ∙ forget_reports r
    where
      seen_forget :
          (m : Outcome (Dispatcher L × Option EthPacket × Bool)) → seen m ≡ forget (with_result m)
      seen_forget (ok x) = refl
      seen_forget (fault f) = refl
      seen_forget stuck = refl

      forget_reports : (r : Remains L) → forget (reports b r) ≡ r
      forget_reports (ok x) = refl
      forget_reports (fault f) = refl
      forget_reports stuck = refl

  pub into_last :
      (m : Outcome (Dispatcher L × Option EthPacket × Bool))
      → seen_all (m >>= λ r. ok (last r.0, r.1)) ≡ seen m
  unfolding all_guarded_leaves
  into_last (ok r) = refl
  into_last (fault e) = refl
  into_last stuck = refl

  pub into_first :
      (xs : Dispatchers L) (m : Outcome (Dispatcher L × Option EthPacket × Bool))
      → seen_all (m >>= λ r. ok (more r.0 xs, r.1))
        ≡ with_leaves (λ gs. gs ++ all_guarded_leaves xs) (seen m)
  unfolding all_guarded_leaves
  into_first xs (ok r) = refl
  into_first xs (fault e) = refl
  into_first xs stuck = refl

  pub into_later :
      (x : Dispatcher L) (m : Outcome (Dispatchers L × Option EthPacket))
      → seen_all (m >>= λ r. ok (more x r.0, r.1))
        ≡ with_leaves (λ gs. guarded_leaves x ++ gs) (seen_all m)
  unfolding all_guarded_leaves
  into_later x (ok r) = refl
  into_later x (fault e) = refl
  into_later x stuck = refl
