-- ===== src/Packets/Avp/Encoding.antt =====
-- Attributes as RFC 2865 lays them out: a type byte, a length byte that counts itself and the type,
-- and the value. This is the reference that the constructors' loop is measured by.
use traffic_inspector.Base.{
  ℕ, ◌+◌, ◌%◌, ◌≤◌, ◌≡◌, List, [], ◌∷◌, ◌++◌, length, arith, Option, none, some, if◌then◌else◌,
  ◌==◌, ◌∙◌,
}
use traffic_inspector.Packets.Avp.Storage.{
  AvpStorage, insert, find, IsSorted, insert-IsSorted, find-insert, kept,
}

pub record Attribute : Type 0 where
  pub kind : ℕ
  pub value : List ℕ

-- The length byte wraps, so that every attribute whose value has at most 255 bytes has an encoding.
abbrev pub encode_attribute : Attribute → List ℕ
encode_attribute a = a.kind ∷ ((length a.value + 2) % 256) ∷ a.value

abbrev pub encode : List Attribute → List ℕ
encode [] = []
encode (a ∷ as') = encode_attribute a ++ encode as'

-- The attributes that have a value and fit the length byte.
abbrev pub IsProper : Attribute → Type 0
IsProper a = (1 ≤ length a.value) × (length a.value ≤ 253)

-- All attributes in turn, the first of a type being kept.
unfoldable pub store : List Attribute → AvpStorage → AvpStorage
store [] m = m
store (a ∷ as') m = store as' (insert a.kind a.value m)

-- The value of the first attribute of a type.
unfoldable pub first_value : ℕ → List Attribute → Option (List ℕ)
first_value k [] = none
first_value k (a ∷ as') = if k == a.kind then some a.value else first_value k as'

pub store-IsSorted : (as' : List Attribute) (m : AvpStorage) → IsSorted m → IsSorted (store as' m)
unfolding store
store-IsSorted [] m s = s
store-IsSorted (a ∷ as') m s = store-IsSorted as' _ (insert-IsSorted a.kind a.value m s)

-- What was there before wins over the attributes.
abbrev or_else : Option (List ℕ) → Option (List ℕ) → Option (List ℕ)
or_else none o = o
or_else (some v) o = some v

find-store_or :
    (k : ℕ) (as' : List Attribute) (m : AvpStorage)
    → IsSorted m
    → find k (store as' m) ≡ or_else (find k m) (first_value k as')
unfolding store first_value kept
find-store_or k [] m s = ground arith
find-store_or k (a ∷ as') m s = ground (
  arith,
  find-store_or k as' (insert a.kind a.value m) (insert-IsSorted a.kind a.value m s),
  find-insert k a.kind a.value m s,
  kept (find a.kind m) a.value,
)

pub find-store :
    (k : ℕ) (as' : List Attribute) (m : AvpStorage)
    → IsSorted m
    → find k m ≡ none
    → find k (store as' m) ≡ first_value k as'
find-store k as' m s e = find-store_or k as' m s ∙ rw e
