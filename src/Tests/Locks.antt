-- ===== src/Tests/Locks.antt =====
-- Runs and instances for the mutex: task 1 holds it, and tasks 2 and 3 wait.
use task_r.Base.{ℕ, ◌≡◌, ◌⊎◌, refl, true, [], ◌∷◌, ok, some, negsuc}
use task_r.Task
use task_r.Task.{Task, Store}
use task_r.Mutex.{Mutex, lock, unlock, owner_check_result}
use task_r.Mutex.System.{
  System, Reach, start, next, locks, init, locked, owner_check, inside, outside, suspended, move,
}
use task_r.Mutex.Exclusion.{mutual_exclusion}
use task_r.Mutex.Order.{somebody_proceeds}

abbrev plain : Store (Unit {0})
unfolding Task.create Task.create_function
plain t = Task.create (Task.create_function (λ f. f) 0) (negsuc 0)

abbrev call_lock : ℕ → System → System
unfolding lock
call_lock t s = locked t s (lock owner_check t s.store s.mutex)

abbrev one : System
unfolding call_lock
one = call_lock 1 (init plain)

abbrev two : System
unfolding call_lock one
two = call_lock 2 one

abbrev three : System
unfolding call_lock two
three = call_lock 3 two

abbrev freed : Mutex
freed = record { owner_task = some 2; queue = 3 ∷ [] }

abbrev four : System
unfolding three
four = record three { mutex = freed; place = move three.place 1 outside }

locks_three : Reach plain three
unfolding three two one call_lock lock
locks_three = next (next (next start (locks 1 refl refl)) (locks 2 refl refl)) (locks 3 refl refl)

-- The lock goes to the one who waited longest.
hands_over : unlock 1 three.mutex ≡ (freed, ok tt)
unfolding three two one call_lock lock unlock
hands_over = refl

mutual_exclusion_example : ◌≡◌ {A = ℕ} 1 1
unfolding three two one call_lock lock
mutual_exclusion_example = mutual_exclusion 1 1 locks_three refl refl

somebody_proceeds_example :
    (u : ℕ) × (three.mutex.owner_task ≡ some u)
    × ((three.place u ≡ inside)
        ⊎ ((three.place u ≡ suspended) × (owner_check_result u three.mutex ≡ true)))
unfolding three two one call_lock lock
somebody_proceeds_example = somebody_proceeds 3 locks_three refl

abbrev held : Mutex
held = record { owner_task = some 1; queue = [] }
