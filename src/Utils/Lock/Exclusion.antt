-- ===== src/Utils/Lock/Exclusion.antt =====
-- The threads between `lock()` and the destruction of their guard (include/Utils/LockPolicies.h).
use traffic_inspector.Base.{ℕ, ◌≡◌, refl, Bool, true, false, arith}
use traffic_inspector.Utils.Lock.{
  Place, outside, get_lock, get_test, get_unlock, get_pop, put_lock, put_push, put_unlock, Shared,
  move_to, Step, start_get, start_put, spin, lock_get, wait_get, read_front, pop_front, unlock_get,
  lock_put, push_back, unlock_put, Reach, here, next, fresh,
}

-- The thread at this place holds the lock.
abbrev pub holds : Place → Bool
holds outside = false
holds get_lock = false
holds get_test = true
holds get_unlock = true
holds (get_pop v) = true
holds (put_lock v) = false
holds (put_push v) = true
holds put_unlock = true

pub record IsExclusive (s : Shared) : Type 0 where
  pub flag : (t : ℕ) → holds (s.place t) ≡ true → s.locked ≡ true
  pub single : (t u : ℕ) → holds (s.place t) ≡ true → holds (s.place u) ≡ true → t ≡ u

-- A step of one thread that does not hold the lock before or after.
module _ (s : Shared) (x : IsExclusive s) (t : ℕ) (p : Place) where
  off_flag : holds p ≡ false → (u : ℕ) → holds (move_to s.place t p u) ≡ true → s.locked ≡ true
  off_flag n u h = ground (arith, x.flag u)

  off_single :
      holds p ≡ false
      → (u v : ℕ) → holds (move_to s.place t p u) ≡ true
      → holds (move_to s.place t p v) ≡ true
      → u ≡ v
  off_single n u v h k = ground (arith, x.single u v)

  -- The thread keeps the lock that it holds.
  keep_single :
      holds (s.place t) ≡ true
      → (u v : ℕ) → holds (move_to s.place t p u) ≡ true
      → holds (move_to s.place t p v) ≡ true
      → u ≡ v
  keep_single n u v h k = ground (arith, x.single u v, x.single t v, x.single u t)

  -- The thread takes the free lock.
  take_single :
      s.locked ≡ false
      → (u v : ℕ) → holds (move_to s.place t p u) ≡ true
      → holds (move_to s.place t p v) ≡ true
      → u ≡ v
  take_single n u v h k = ground (arith, x.flag u, x.flag v)

  -- After the holder has let go no thread holds the lock.
  free_flag :
      holds (s.place t) ≡ true
      → holds p ≡ false
      → (u : ℕ) → holds (move_to s.place t p u) ≡ true
      → false ≡ true
  free_flag n m u h = ground (arith, x.single t u)

pub Step-IsExclusive : {s s' : Shared} → Step s s' → IsExclusive s → IsExclusive s'
Step-IsExclusive {s} (start_get t e) x = record {
  flag = off_flag s x t get_lock refl;
  single = off_single s x t get_lock refl;
}
Step-IsExclusive {s} (start_put t v e) x = record {
  flag = off_flag s x t (put_lock v) refl;
  single = off_single s x t (put_lock v) refl;
}
Step-IsExclusive (spin t e) x = x
Step-IsExclusive {s} (lock_get t e f) x = record {
  flag = λ u h. refl;
  single = take_single s x t get_test f;
}
Step-IsExclusive {s} (wait_get t e f) x = record {
  flag = free_flag s x t get_lock (rw e refl) refl;
  single = off_single s x t get_lock refl;
}
Step-IsExclusive {s} (read_front t v rest e f) x = record {
  flag = λ u h. x.flag t (rw e refl);
  single = keep_single s x t (get_pop v) (rw e refl);
}
Step-IsExclusive {s} (pop_front t v e) x = record {
  flag = λ u h. x.flag t (rw e refl);
  single = keep_single s x t get_unlock (rw e refl);
}
Step-IsExclusive {s} (unlock_get t e) x = record {
  flag = free_flag s x t outside (rw e refl) refl;
  single = off_single s x t outside refl;
}
Step-IsExclusive {s} (lock_put t v e f) x = record {
  flag = λ u h. refl;
  single = take_single s x t (put_push v) f;
}
Step-IsExclusive {s} (push_back t v e) x = record {
  flag = λ u h. x.flag t (rw e refl);
  single = keep_single s x t put_unlock (rw e refl);
}
Step-IsExclusive {s} (unlock_put t e) x = record {
  flag = free_flag s x t outside (rw e refl) refl;
  single = off_single s x t outside refl;
}

-- In every interleaving of any threads at most one is inside, and only with the flag set.
pub Reach-IsExclusive : {s s' : Shared} → Reach s s' → IsExclusive s → IsExclusive s'
Reach-IsExclusive here x = x
Reach-IsExclusive (next r st) x = Step-IsExclusive st (Reach-IsExclusive r x)

pub fresh-IsExclusive : IsExclusive fresh
fresh-IsExclusive = record { flag = λ t h. absurd (cc); single = λ t u h k. absurd (cc) }

-- In every interleaving from an unused lock, two threads that hold the lock are one, and the flag
-- is set.
pub lock_exclusion :
    {s : Shared} (t u : ℕ)
    → Reach fresh s
    → holds (s.place t) ≡ true
    → holds (s.place u) ≡ true
    → (t ≡ u) × (s.locked ≡ true)
lock_exclusion t u r h k =
    let x = Reach-IsExclusive r fresh-IsExclusive in (x.single t u h k, x.flag t h)
