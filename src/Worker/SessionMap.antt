-- ===== src/Worker/SessionMap.antt =====
-- `std::unordered_map<rad_session_pair, PacketFromQueue>`, keyed by the packet identifier.
use traffic_inspector.Base.{
  ℕ, ◌+◌, ◌≡◌, ◌≢◌, refl, ◌==◌, if◌then◌else◌, List, [], ◌∷◌, Option, none, some, length, arith,
}
use traffic_inspector.Packets.Radius.{RadiusPacket}

abbrev pub Sessions : Type 0
Sessions = List (ℕ × RadiusPacket)

unfoldable pub find : ℕ → Sessions → Option RadiusPacket
find k [] = none
find k ((j, p) ∷ m) = if j == k then some p else find k m

-- `erase` at the element that was found.
unfoldable pub erase : ℕ → Sessions → Sessions
erase k [] = []
erase k ((j, p) ∷ m) = if j == k then m else (j, p) ∷ erase k m

-- `insert`: a key that is there keeps its value.
unfoldable pub insert : ℕ → RadiusPacket → Sessions → Sessions
insert k p [] = (k, p) ∷ []
insert k p ((j, q) ∷ m) = if j == k then (j, q) ∷ m else (j, q) ∷ insert k p m

-- No key occurs twice.
abbrev pub Fresh : ℕ → Sessions → Type 0
Fresh k [] = Unit {0}
Fresh k ((j, p) ∷ m) = (j ≢ k) × Fresh k m

abbrev pub IsMap : Sessions → Type 0
IsMap [] = Unit {0}
IsMap ((j, p) ∷ m) = Fresh j m × IsMap m

pub find-Fresh : (k : ℕ) (m : Sessions) → Fresh k m → find k m ≡ none
unfolding find
find-Fresh k [] f = refl
find-Fresh k ((j, p) ∷ m) f = ground (arith, find-Fresh k m f.1)

pub erase-Fresh : (i k : ℕ) (m : Sessions) → Fresh i m → Fresh i (erase k m)
unfolding erase
erase-Fresh i k [] f = tt
erase-Fresh i k ((j, p) ∷ m) f = ground (arith, erase-Fresh i k m f.1)

pub insert-Fresh :
    (i k : ℕ) (p : RadiusPacket) (m : Sessions) → k ≢ i → Fresh i m → Fresh i (insert k p m)
unfolding insert
insert-Fresh i k p [] h f = (h, tt)
insert-Fresh i k p ((j, q) ∷ m) h f = ground (arith, insert-Fresh i k p m h f.1)

pub erase-IsMap : (k : ℕ) (m : Sessions) → IsMap m → IsMap (erase k m)
unfolding erase
erase-IsMap k [] v = tt
erase-IsMap k ((j, p) ∷ m) v = ground (arith, erase-Fresh j k m v.0, erase-IsMap k m v.1)

pub insert-IsMap : (k : ℕ) (p : RadiusPacket) (m : Sessions) → IsMap m → IsMap (insert k p m)
unfolding insert
insert-IsMap k p [] v = (tt, tt)
insert-IsMap k p ((j, q) ∷ m) v = ground (arith, insert-Fresh j k p m, insert-IsMap k p m v.1)

-- The map laws.
pub find-erase :
    (i k : ℕ) (m : Sessions) → IsMap m → find i (erase k m) ≡ (if k == i then none else find i m)
unfolding find erase
find-erase i k [] v = ground arith
find-erase i k ((j, p) ∷ m) v = ground (arith, find-erase i k m v.1, find-Fresh i m)

pub find-insert :
    (i k : ℕ) (p : RadiusPacket) (m : Sessions)
    → find k m ≡ none
    → find i (insert k p m) ≡ (if k == i then some p else find i m)
unfolding find insert
find-insert i k p [] e = ground arith
find-insert i k p ((j, q) ∷ m) e = ground (arith, find-insert i k p m)

pub length-erase :
    (k : ℕ) (p : RadiusPacket) (m : Sessions)
    → find k m ≡ some p
    → length (erase k m) + 1 ≡ length m
unfolding find erase
length-erase k p [] e = absurd (cc)
length-erase k p ((j, q) ∷ m) e = ground (arith, length-erase k p m)

pub length-insert :
    (k : ℕ) (p : RadiusPacket) (m : Sessions)
    → find k m ≡ none
    → length (insert k p m) ≡ length m + 1
unfolding find insert
length-insert k p [] e = omega arith
length-insert k p ((j, q) ∷ m) e = ground (arith, length-insert k p m)
