-- ===== src/Dispatcher.antt =====
-- The tree of dispatchers: include/Dispatcher/IDispatcher.h and IDispatcher.hpp. A node tests a
-- base type and hands over to one of its subtrees; a leaf is what the CRTP parameter of the
-- terminator implements. The terminator's methods call the leaf's (`canBeDispatcheredImpl`,
-- `onDispatchImpl`, `onDispatchBroadcastImpl`), which are the operations of the interface.
pub mod FirstMatch
pub mod Delivery
pub mod Broadcast
pub mod Guarded
pub mod Texts
mod Tests
use traffic_inspector.Base.{
  ℕ, zero, suc, Bool, true, false, List, [], ◌∷◌, Option, none, some, map, Outcome, ok, ◌>>=◌,
  deref,
}
use traffic_inspector.Packets.Types.{PacketType, ControlMessageId}
use traffic_inspector.Packets.Wire.{Buffer}
use traffic_inspector.Packets.Dispatchable.{Verdict, rejects, accepts, is_dispatchable_type}
use traffic_inspector.Packets.Eth.{EthPacket}

-- What a leaf implements. A raw packet is passed by its unique_ptr, and what is left of the pointer
-- is returned.
pub record LeafOps (L : Type 0) : Type 0 where
  pub can : L → Buffer → Outcome (Option ℕ)
  pub on_dispatch : L → Option EthPacket → Outcome (L × Option EthPacket × Bool)
  pub on_broadcast : L → ControlMessageId → Outcome (L × Bool)

-- `IDispatcher<Packet, Dispatcher<Packet>>` and `IDispatcher<Type, AtLeastOne, Others...>`.
mutual
  pub data Dispatcher (L : Type 0) : Type 0 where
    leaf : L → Dispatcher L
    node : PacketType → Dispatchers L → Dispatcher L

  pub data Dispatchers (L : Type 0) : Type 0 where
    last : Dispatcher L → Dispatchers L
    more : Dispatcher L → Dispatchers L → Dispatchers L

-- `std::find(..., true)` and `std::distance`.
unfoldable pub find_true : List Bool → Option ℕ
find_true [] = none
find_true (true ∷ bs) = some 0
find_true (false ∷ bs) = elim (find_true bs) [ none ↦ none | some i ↦ some (suc i) ]

abbrev pub has_value {ℓ} : {A : Type ℓ} → Option A → Bool
has_value none = false
has_value (some a) = true

module _ {L : Type 0} (ops : LeafOps L) (depth : ℕ) where
  -- `canBeDispatchered`. In the array of results a subtree is asked only while
  -- `dispatcheredByCurrentInstance`, the last argument of `dispatching_result`, is false.
  unfoldable mutual
    pub can_be_dispatchered : Dispatcher L → Buffer → Outcome (Option ℕ)
    can_be_dispatchered (leaf l) d = ops.can l d
    can_be_dispatchered (node t xs) d = is_dispatchable_type t depth d >>= λ v. elim v [
      | rejects ↦ ok none
      | accepts p ↦ dispatching_result xs d false >>= λ bs. ok (find_true bs)
    ]

    pub dispatching_result : Dispatchers L → Buffer → Bool → Outcome (List Bool)
    dispatching_result (last x) d found = elim found [
      | true ↦ ok (false ∷ [])
      | false ↦ can_be_dispatchered x d >>= λ r. ok (has_value r ∷ [])
    ]
    dispatching_result (more x xs) d found = elim found [
      | true ↦ dispatching_result xs d true >>= λ bs. ok (false ∷ bs)
      | false ↦ can_be_dispatchered x d >>= λ r.
          dispatching_result xs d (has_value r) >>= λ bs. ok (has_value r ∷ bs)
    ]

  -- `dispatch`, and the part of `dispatchByIndex` that walks the tuple to the index.
  unfoldable mutual
    unfolding can_be_dispatchered

    pub dispatch :
        Dispatcher L → Option EthPacket → Outcome (Dispatcher L × Option EthPacket × Bool)
    dispatch (leaf l) inst = ops.on_dispatch l inst >>= λ r. ok (leaf r.0, r.1, r.2)
    dispatch (node t xs) inst = deref inst >>= λ raw. deref raw.m_data >>= λ d.
        can_be_dispatchered (node t xs) d >>= λ i. elim i [
          | none ↦ ok (node t xs, inst, false)
          | some k ↦ dispatch_at xs k inst >>= λ r. ok (node t r.0, r.1, true)
        ]

    pub dispatch_at :
        Dispatchers L → ℕ → Option EthPacket → Outcome (Dispatchers L × Option EthPacket)
    dispatch_at (last x) zero inst = dispatch x inst >>= λ r. ok (last r.0, r.1)
    dispatch_at (last x) (suc k) inst = ok (last x, inst)
    dispatch_at (more x xs) zero inst = dispatch x inst >>= λ r. ok (more r.0 xs, r.1)
    dispatch_at (more x xs) (suc k) inst = dispatch_at xs k inst >>= λ r. ok (more x r.0, r.1)

  -- A terminator ignores the index.
  unfoldable pub dispatch_by_index :
      Dispatcher L → ℕ → Option EthPacket → Outcome (Dispatcher L × Option EthPacket)
  unfolding dispatch dispatch_at
  dispatch_by_index (leaf l) k inst = dispatch (leaf l) inst >>= λ r. ok (r.0, r.1)
  dispatch_by_index (node t xs) k inst = dispatch_at xs k inst >>= λ r. ok (node t r.0, r.1)

module _ {L : Type 0} (ops : LeafOps L) where
  -- `dispatchBroadcast`, and its walk over the tuple. The results of the subtrees are not used.
  unfoldable mutual
    pub dispatch_broadcast : Dispatcher L → ControlMessageId → Outcome (Dispatcher L)
    dispatch_broadcast (leaf l) m = ops.on_broadcast l m >>= λ r. ok (leaf r.0)
    dispatch_broadcast (node t xs) m = broadcast_all xs m >>= λ ys. ok (node t ys)

    pub broadcast_all : Dispatchers L → ControlMessageId → Outcome (Dispatchers L)
    broadcast_all (last x) m = dispatch_broadcast x m >>= λ y. ok (last y)
    broadcast_all (more x xs) m =
        dispatch_broadcast x m >>= λ y. broadcast_all xs m >>= λ ys. ok (more y ys)
