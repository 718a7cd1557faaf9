-- ===== src/Packets/Avp/Storage.antt =====
-- `std::map<uint8_t, std::vector<uint8_t>>` as a list that is sorted by key.
use traffic_inspector.Base.{
  ℕ, ◌<◌, ◌≡◌, refl, Option, none, some, List, [], ◌∷◌, ltb, ◌==◌, if◌then◌else◌, arith,
}

abbrev pub AvpStorage : Type 0
AvpStorage = List (ℕ × List ℕ)

-- `insert` of std::map: a key that is there keeps its value.
unfoldable pub insert : ℕ → List ℕ → AvpStorage → AvpStorage
insert k v [] = (k, v) ∷ []
insert k v ((j, w) ∷ m) =
    if ltb k j then (k, v) ∷ (j, w) ∷ m else if k == j then (j, w) ∷ m else (j, w) ∷ insert k v m

unfoldable pub find : ℕ → AvpStorage → Option (List ℕ)
find k [] = none
find k ((j, w) ∷ m) = if k == j then some w else find k m

-- Every key is above the bound, and the keys increase.
abbrev pub SortedAbove : ℕ → AvpStorage → Type 0
SortedAbove b [] = Unit {0}
SortedAbove b ((j, w) ∷ m) = (b < j) × SortedAbove j m

abbrev pub IsSorted : AvpStorage → Type 0
IsSorted [] = Unit {0}
IsSorted ((j, w) ∷ m) = SortedAbove j m

insert-SortedAbove :
    (b k : ℕ) (v : List ℕ) (m : AvpStorage) → b < k → SortedAbove b m → SortedAbove b (insert k v m)
unfolding insert
insert-SortedAbove b k v [] h s = (h, tt)
insert-SortedAbove b k v ((j, w) ∷ m) h s = ground (arith, insert-SortedAbove j k v m)

pub insert-IsSorted : (k : ℕ) (v : List ℕ) (m : AvpStorage) → IsSorted m → IsSorted (insert k v m)
unfolding insert
insert-IsSorted k v [] s = tt
insert-IsSorted k v ((j, w) ∷ m) s = ground (arith, insert-SortedAbove j k v m)

find_below : (b k : ℕ) (m : AvpStorage) → SortedAbove b m → k < b → find k m ≡ none
unfolding find
find_below b k [] s h = refl
find_below b k ((j, w) ∷ m) s h = ground (arith, find_below j k m)

-- What a key holds after an insertion of `v`, given what it held.
unfoldable pub kept : Option (List ℕ) → List ℕ → List ℕ
kept none v = v
kept (some w) v = w

-- The map laws: the first value of a key stays.
pub find-insert :
    (j k : ℕ) (v : List ℕ) (m : AvpStorage)
    → IsSorted m
    → find j (insert k v m) ≡ (if j == k then some (kept (find k m) v) else find j m)
unfolding find insert kept
find-insert j k v [] s = ground arith
find-insert j k v ((i, w) ∷ m) s =
    ground (arith, find-insert j k v m, find_below i k m, IsSorted-tail i m)
  where
    IsSorted-tail : (b : ℕ) (l : AvpStorage) → SortedAbove b l → IsSorted l
    IsSorted-tail b [] t = tt
    IsSorted-tail b ((x, y) ∷ l) t = t.1
