-- ===== src/Utils/Lock.antt =====
-- ObjectQueue under SpinLockPolicy (include/Utils/ObjectQueue.h, include/Utils/LockPolicies.h), run
-- by any number of threads. Each step is one access: a `test_and_set`, a `clear`, or one call on the
-- container. Only `test_and_set` looks at the flag.
pub mod Exclusion
pub mod Fifo
use traffic_inspector.Base.{ℕ, ◌≡◌, ◌==◌, if◌then◌else◌, Bool, true, false, List, [], ◌∷◌, ◌++◌}

-- Where a thread stands. In `getObject`: before `lock()` or in its loop, at the predicate of
-- `wait`, with the front moved out and `pop_front` to be called, with the guard to be destroyed. In `putObject`: before `lock()`, at
-- `push_back`, with the guard to be destroyed.
pub data Place : Type 0 where
  outside : Place
  get_lock get_test get_unlock : Place
  get_pop : ℕ → Place
  put_lock put_push : ℕ → Place
  put_unlock : Place

-- The flag of the SpinLock, the container, the threads, and the history: all objects that were
-- pushed, and all that were taken, in order.
pub record Shared : Type 0 where
  pub locked : Bool
  pub container : List ℕ
  pub place : ℕ → Place
  pub pushed : List ℕ
  pub taken : List ℕ

abbrev pub move_to : (ℕ → Place) → ℕ → Place → ℕ → Place
move_to f t x u = if t == u then x else f u

abbrev pub without_front : List ℕ → List ℕ
without_front [] = []
without_front (v ∷ rest) = rest

pub data Step (s : Shared) : Shared → Type 0 where
  start_get :
      (t : ℕ) → s.place t ≡ outside → Step s (record s { place = move_to s.place t get_lock })
  start_put :
      (t v : ℕ) → s.place t ≡ outside → Step s (record s { place = move_to s.place t (put_lock v) })
  spin : (t : ℕ) → s.locked ≡ true → Step s s
  lock_get :
      (t : ℕ)
      → s.place t ≡ get_lock
      → s.locked ≡ false
      → Step s (record s { locked = true; place = move_to s.place t get_test })
  -- `wait` with an empty container: unlock, yield, and back to `lock()`.
  wait_get :
      (t : ℕ)
      → s.place t ≡ get_test
      → s.container ≡ []
      → Step s (record s { locked = false; place = move_to s.place t get_lock })
  -- `front`, whose object is moved to `ret`.
  read_front :
      (t v : ℕ) (rest : List ℕ)
      → s.place t ≡ get_test
      → s.container ≡ v ∷ rest
      → Step s (record s { place = move_to s.place t (get_pop v) })
  -- `pop_front`, of whatever is at the front then. The object that was moved out is returned.
  pop_front :
      (t v : ℕ)
      → s.place t ≡ get_pop v
      → Step s (record s {
        container = without_front s.container;
        taken = s.taken ++ (v ∷ []);
        place = move_to s.place t get_unlock;
      })
  unlock_get :
      (t : ℕ)
      → s.place t ≡ get_unlock
      → Step s (record s { locked = false; place = move_to s.place t outside })
  lock_put :
      (t v : ℕ)
      → s.place t ≡ put_lock v
      → s.locked ≡ false
      → Step s (record s { locked = true; place = move_to s.place t (put_push v) })
  push_back :
      (t v : ℕ)
      → s.place t ≡ put_push v
      → Step s (record s {
        container = s.container ++ (v ∷ []);
        pushed = s.pushed ++ (v ∷ []);
        place = move_to s.place t put_unlock;
      })
  unlock_put :
      (t : ℕ)
      → s.place t ≡ put_unlock
      → Step s (record s { locked = false; place = move_to s.place t outside })

pub data Reach (s : Shared) : Shared → Type 0 where
  here : Reach s s
  next : {u v : Shared} → Reach s u → Step u v → Reach s v

-- An empty queue, no thread in it.
abbrev pub fresh : Shared
fresh = record { locked = false; container = []; place = λ t. outside; pushed = []; taken = [] }
