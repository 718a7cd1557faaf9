-- ===== src/Utils/Pool.antt =====
-- ObjectPool and its deleter: include/Utils/CommonObjectPool.h. Objects are named by numbers; the
-- pool is an ObjectQueue of the free ones.
pub mod Conservation
use traffic_inspector.Base.{
  ℕ, zero, suc, ◌+◌, ◌==◌, if◌then◌else◌, Bool, true, false, List, [], ◌∷◌, ◌++◌, Option, none,
  some, Outcome, ok, fault, assertion, ◌>>=◌,
}

-- `locked` is the flag of the pool's SpinLock; `lent` are the objects in clients' unique_ptrs.
pub record ObjectPool : Type 0 where
  pub container : List ℕ
  pub lent : List ℕ
  pub locked : Bool

abbrev pub objects_from : ℕ → ℕ → List ℕ
objects_from i zero = []
objects_from i (suc n) = i ∷ objects_from (i + 1) n

-- The constructor: `generate_n` of new objects.
unfoldable pub new_pool : ℕ → ObjectPool
new_pool n = record { container = objects_from 0 n; lent = []; locked = false }

-- `getObject`: `none` while it waits, or spins because the calling thread itself holds the lock.
unfoldable pub get_object : ObjectPool → Option (ℕ × ObjectPool)
get_object p = if p.locked then none else (elim p.container [
  | [] ↦ none
  | x ∷ rest ↦ some (x, record p { container = rest; lent = x ∷ p.lent })
])

-- `putObject`; `none` if the calling thread itself holds the lock, so that it spins for ever.
unfoldable pub put_object : ℕ → ObjectPool → Option ObjectPool
put_object x p = if p.locked then none else some (record p { container = p.container ++ (x ∷ []) })

-- ObjectPoolItemDeleter's call, of a pointer that may be null, with a parent that may be.
unfoldable pub delete_item : Bool → Option ℕ → Bool → ObjectPool → Outcome (Option ObjectPool)
unfolding put_object
delete_item ndebug (some x) true p = ok (put_object x p)
delete_item true _ _ p = ok (some p)
delete_item false _ _ p = fault assertion

unfoldable pub remove : ℕ → List ℕ → Option (List ℕ)
remove x [] = none
remove x (y ∷ ys) =
    if x == y then some ys else elim (remove x ys) [ none ↦ none | some zs ↦ some (y ∷ zs) ]

-- A client destroys the unique_ptr of an object that it was lent.
unfoldable pub release : ℕ → ObjectPool → Option ObjectPool
unfolding put_object remove
release x p = elim (remove x p.lent) [
  | none ↦ none
  | some lent' ↦ put_object x (record p { lent = lent' })
]

pub data PoolCall : Type 0 where
  gets : PoolCall
  releases : ℕ → PoolCall

unfoldable pub call : PoolCall → ObjectPool → Option ObjectPool
unfolding get_object release
call gets p = elim (get_object p) [ none ↦ none | some (x, q) ↦ some q ]
call (releases x) p = release x p

unfoldable pub run : List PoolCall → ObjectPool → Option ObjectPool
unfolding call
run [] p = some p
run (c ∷ cs) p = elim (call c p) [ none ↦ none | some q ↦ run cs q ]

-- `m_container.clear()` destroys the unique_ptrs of the free objects: their deleters put them back.
clear : List ℕ → ObjectPool → Option ObjectPool
unfolding put_object
clear [] p = some p
clear (x ∷ xs) p = elim (put_object x p) [ none ↦ none | some q ↦ clear xs q ]

-- The destructor clears the container with the lock held, and lets go of it at its end; `none` if it
-- does not return.
unfoldable pub destroy : ObjectPool → Option ObjectPool
unfolding clear
destroy p =
    if p.locked
    then none
    else (elim (clear p.container (record p { container = []; locked = true })) [
      | none ↦ none
      | some q ↦ some (record q { locked = false })
    ])
