-- ===== src/Utils/Lock/Fifo.antt =====
-- The order of objects in an ObjectQueue (include/Utils/ObjectQueue.h), whose accesses to the list
-- are kept apart by the lock alone.
use traffic_inspector.Base.{
  ℕ, ◌≡◌, ◌∙◌, sym, ap, refl, ◌==◌, if◌then◌else◌, Bool, true, false, List, [], ◌∷◌, ◌++◌,
  append_assoc, arith,
}
use traffic_inspector.Utils.Lock.{
  Place, outside, get_lock, get_test, get_unlock, get_pop, put_lock, put_push, put_unlock, Shared,
  without_front, move_to, Step, start_get, start_put, spin, lock_get, wait_get, read_front,
  pop_front, unlock_get, lock_put, push_back, unlock_put, Reach, here, next, fresh,
}
use traffic_inspector.Utils.Lock.Exclusion.{holds, IsExclusive, Step-IsExclusive, fresh-IsExclusive}

-- What a thread that has moved an object out knows of the container: the object's place is still at
-- the front.
abbrev Knows : List ℕ → Place → Type 0
Knows container outside = Unit {0}
Knows container get_lock = Unit {0}
Knows container get_test = Unit {0}
Knows container get_unlock = Unit {0}
Knows container (get_pop v) = v ∷ without_front container ≡ container
Knows container (put_lock v) = Unit {0}
Knows container (put_push v) = Unit {0}
Knows container put_unlock = Unit {0}

record IsFifo (s : Shared) : Type 0 where
  exclusive : IsExclusive s
  knows : (t : ℕ) → Knows s.container (s.place t)
  order : s.taken ++ s.container ≡ s.pushed

-- A thread that does not hold the lock knows nothing.
Knows-off : (l : List ℕ) (p : Place) → holds p ≡ false → Knows l p
Knows-off l outside e = tt
Knows-off l get_lock e = tt
Knows-off l get_test e = tt
Knows-off l get_unlock e = tt
Knows-off l (get_pop v) e = absurd (cc)
Knows-off l (put_lock v) e = tt
Knows-off l (put_push v) e = tt
Knows-off l put_unlock e = tt

-- Thread `t` goes to a place, and the container stays.
module _ (s : Shared) (f : IsFifo s) (t : ℕ) (p : Place) where
  stays : Knows s.container p → (u : ℕ) → Knows s.container (move_to s.place t p u)
  stays k u = go (t == u)
    where
      go : (b : Bool) → Knows s.container (if b then p else s.place u)
      go true = k
      go false = f.knows u

  -- Thread `t`, which holds the lock, changes the container: no other thread knows of it.
  changes :
      (l : List ℕ)
      → holds (s.place t) ≡ true
      → Knows l p
      → (u : ℕ) → Knows l (move_to s.place t p u)
  changes l h k u = go (t == u) refl
    where
      others : (b : Bool) → holds (s.place u) ≡ b → (t == u) ≡ false → Knows l (s.place u)
      others true e n =
          let same : t ≡ u = f.exclusive.single t u h e in absurd (ground (arith, same, n))
      others false e n = Knows-off l (s.place u) e

      go : (b : Bool) → (t == u) ≡ b → Knows l (if b then p else s.place u)
      go true e = k
      go false e = others (holds (s.place u)) refl e

read_Knows :
    (v : ℕ) (rest container : List ℕ)
    → container ≡ v ∷ rest
    → v ∷ without_front container ≡ container
read_Knows v rest container e = rw e refl

Step-IsFifo : {s s' : Shared} → Step s s' → IsFifo s → IsFifo s'
Step-IsFifo {s} (start_get t e) f = record {
  exclusive = Step-IsExclusive (start_get t e) f.exclusive;
  knows = stays s f t get_lock tt;
  order = f.order;
}
Step-IsFifo {s} (start_put t v e) f = record {
  exclusive = Step-IsExclusive (start_put t v e) f.exclusive;
  knows = stays s f t (put_lock v) tt;
  order = f.order;
}
Step-IsFifo (spin t e) f = f
Step-IsFifo {s} (lock_get t e g) f = record {
  exclusive = Step-IsExclusive (lock_get t e g) f.exclusive;
  knows = stays s f t get_test tt;
  order = f.order;
}
Step-IsFifo {s} (wait_get t e g) f = record {
  exclusive = Step-IsExclusive (wait_get t e g) f.exclusive;
  knows = stays s f t get_lock tt;
  order = f.order;
}
Step-IsFifo {s} (read_front t v rest e g) f = record {
  exclusive = Step-IsExclusive (read_front t v rest e g) f.exclusive;
  knows = stays s f t (get_pop v) (read_Knows v rest s.container g);
  order = f.order;
}
Step-IsFifo {s} (pop_front t v e) f = record {
  exclusive = Step-IsExclusive (pop_front t v e) f.exclusive;
  knows = changes s f t get_unlock (without_front s.container) (rw e refl) tt;
  order =
      append_assoc s.taken (v ∷ []) (without_front s.container)
      ∙ ap (λ q. s.taken ++ q) (rw e at (f.knows t))
      ∙ f.order;
}
Step-IsFifo {s} (unlock_get t e) f = record {
  exclusive = Step-IsExclusive (unlock_get t e) f.exclusive;
  knows = stays s f t outside tt;
  order = f.order;
}
Step-IsFifo {s} (lock_put t v e g) f = record {
  exclusive = Step-IsExclusive (lock_put t v e g) f.exclusive;
  knows = stays s f t (put_push v) tt;
  order = f.order;
}
Step-IsFifo {s} (push_back t v e) f = record {
  exclusive = Step-IsExclusive (push_back t v e) f.exclusive;
  knows = changes s f t put_unlock (s.container ++ (v ∷ [])) (rw e refl) tt;
  order = sym (append_assoc s.taken s.container (v ∷ [])) ∙ ap (λ q. q ++ (v ∷ [])) f.order;
}
Step-IsFifo {s} (unlock_put t e) f = record {
  exclusive = Step-IsExclusive (unlock_put t e) f.exclusive;
  knows = stays s f t outside tt;
  order = f.order;
}

Reach-IsFifo : {s s' : Shared} → Reach s s' → IsFifo s → IsFifo s'
Reach-IsFifo here f = f
Reach-IsFifo (next r st) f = Step-IsFifo st (Reach-IsFifo r f)

-- Under the spin lock, although `front` and `pop_front` are two accesses to the list, in every
-- interleaving from an empty queue what was taken and then what is left is what was pushed, in this
-- order: nothing is lost, made up, handed out twice or overtaken.
pub queue_fifo : {s : Shared} → Reach fresh s → s.taken ++ s.container ≡ s.pushed
queue_fifo r =
    let f =
      Reach-IsFifo r (record { exclusive = fresh-IsExclusive; knows = λ t. tt; order = refl }) in
    f.order
