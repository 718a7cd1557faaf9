-- ===== src/Utils/Tests.antt =====
-- A put and a get through the locked queue, and a pool of three objects.
use mathlib.Core.List.{Perm}
use traffic_inspector.Base.{arith, ℕ, ◌≡◌, refl, [], ◌∷◌, ◌++◌, some, none, true, false}
use traffic_inspector.Utils.Lock.{
  Shared, Reach, here, next, fresh, start_put, lock_put, push_back, unlock_put, start_get, lock_get,
  read_front, pop_front, put_lock, put_push, put_unlock, get_lock, get_test, get_pop, get_unlock,
  move_to, outside,
}
use traffic_inspector.Utils.Lock.Exclusion.{lock_exclusion}
use traffic_inspector.Utils.WaitLock
use traffic_inspector.Utils.Lock.Fifo.{queue_fifo}
use traffic_inspector.Utils.WaitLock.Wakeups.{asleep_empty}
use traffic_inspector.Utils.Pool.{
  ObjectPool, new_pool, gets, releases, run, destroy, call, get_object, release, put_object, remove,
}
use traffic_inspector.Utils.Pool.Conservation.{all_objects, run-perm, destroy_returns}

-- Thread 0 puts 5; then thread 1 takes it, while thread 2 waits for the lock.
abbrev started : Shared
started = record fresh { place = move_to fresh.place 0 (put_lock 5) }

abbrev locked : Shared
locked = record started { locked = true; place = move_to started.place 0 (put_push 5) }

abbrev filled : Shared
filled = record locked {
  container = 5 ∷ [];
  pushed = 5 ∷ [];
  place = move_to locked.place 0 put_unlock;
}

abbrev released : Shared
released = record filled { locked = false; place = move_to filled.place 0 outside }

abbrev getting : Shared
getting = record released { place = move_to released.place 1 get_lock }

abbrev both : Shared
both = record getting { place = move_to getting.place 2 get_lock }

abbrev testing : Shared
testing = record both { locked = true; place = move_to both.place 1 get_test }

abbrev reading : Shared
reading = record testing { place = move_to testing.place 1 (get_pop 5) }

abbrev emptied : Shared
emptied = record reading {
  container = [];
  taken = 5 ∷ [];
  place = move_to reading.place 1 get_unlock;
}

to_filled : Reach fresh filled
to_filled =
    next (next (next here (start_put 0 5 refl)) (lock_put 0 5 refl refl)) (push_back 0 5 refl)

to_emptied : Reach fresh emptied
to_emptied =
    next
      (next
        (next
          (next (next (next to_filled (unlock_put 0 refl)) (start_get 1 refl)) (start_get 2 refl))
          (lock_get 1 refl refl))
        (read_front 1 5 [] refl refl))
      (pop_front 1 5 refl)

lock_exclusion_example : (◌≡◌ {A = ℕ} 1 1) × (emptied.locked ≡ true)
lock_exclusion_example = lock_exclusion 1 1 to_emptied refl refl

abbrev pool : ObjectPool
pool = record { container = 0 ∷ 1 ∷ 2 ∷ []; lent = []; locked = false }

pool_is_new : new_pool 3 ≡ pool
unfolding new_pool
pool_is_new = refl

abbrev pool_after : ObjectPool
pool_after = record { container = 2 ∷ 0 ∷ []; lent = 1 ∷ []; locked = false }

three_calls : run (gets ∷ gets ∷ releases 0 ∷ []) pool ≡ some pool_after
unfolding run call get_object release remove put_object
three_calls = refl

run-perm_example : Perm (all_objects pool_after) (all_objects pool) × (false ≡ false)
run-perm_example = run-perm (gets ∷ gets ∷ releases 0 ∷ []) pool pool_after three_calls

destroy_returns_example : destroy pool ≡ none
destroy_returns_example = destroy_returns pool

-- Two threads sleep; an object is put in, and one of them wakes and takes it.
abbrev one_asleep : WaitLock.WaitQueue
one_asleep = record WaitLock.unused { asleep = 1 }

abbrev two_asleep : WaitLock.WaitQueue
two_asleep = record WaitLock.unused { asleep = 2 }

abbrev one_woken : WaitLock.WaitQueue
one_woken = record WaitLock.unused { container = 5 ∷ []; asleep = 1; woken = 1 }

to_two_asleep : WaitLock.WaitRun WaitLock.unused two_asleep
to_two_asleep =
    WaitLock.next
      (WaitLock.next
        (WaitLock.next
          (WaitLock.next
            (WaitLock.next (WaitLock.next WaitLock.here WaitLock.arrive_get)
              (WaitLock.lock_get 0 refl refl))
            (WaitLock.sleep refl refl))
          WaitLock.arrive_get)
        (WaitLock.lock_get 0 refl refl))
      (WaitLock.sleep refl refl)

to_one_woken : WaitLock.WaitRun WaitLock.unused one_woken
to_one_woken =
    WaitLock.next
      (WaitLock.next
        (WaitLock.next (WaitLock.next to_two_asleep (WaitLock.lock_put 5 refl))
          (WaitLock.push_back 5 refl))
        (WaitLock.notify_one 1 refl refl))
      (WaitLock.unlock_put refl)

to_one_asleep : WaitLock.WaitRun WaitLock.unused one_asleep
to_one_asleep =
    WaitLock.next
      (WaitLock.next (WaitLock.next to_one_woken (WaitLock.lock_again 0 refl refl))
        (WaitLock.take_front 5 [] refl refl))
      (WaitLock.unlock_get refl)

asleep_empty_example : one_asleep.container ≡ []
asleep_empty_example = asleep_empty to_one_asleep refl refl refl (λ e. absurd (omega arith))

queue_fifo_example : emptied.taken ++ emptied.container ≡ emptied.pushed
queue_fifo_example = queue_fifo to_emptied
