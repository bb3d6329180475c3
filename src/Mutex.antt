-- ===== src/Mutex.antt =====
-- include/taskr/mutex.hpp: the task-aware mutual exclusion mechanism. A task is its address. The
-- internal `std::mutex` makes each operation one step.
pub mod System
pub mod Exclusion
pub mod Order
use task_r.Base.{
  ℕ, Bool, true, false, Option, none, some, List, [], ◌∷◌, ◌++◌, M, ◌==◌, if◌then◌else◌,
  unlock_not_owner, not, throw_if, modify, get, ◌>>=◌, ◌>>◌,
}
use task_r.Task
use task_r.Task.{Store}

pub record Mutex : Type 0 where
  pub owner_task : Option ℕ
  pub queue : List ℕ

-- `Mutex()`.
abbrev pub create : Mutex
create = record { owner_task = none; queue = [] }

abbrev is_task : ℕ → Option ℕ → Bool
is_task task none = false
is_task task (some owner) = owner == task

-- `ownsLock(task)`.
unfoldable pub owns_lock : ℕ → Mutex → Bool
owns_lock task m = is_task task m.owner_task

abbrev take_if_free : ℕ → List ℕ → Option ℕ → Mutex × Bool
take_if_free task queue none = (record { owner_task = some task; queue = queue }, true)
take_if_free task queue (some owner) = (record { owner_task = some owner; queue = queue }, false)

-- `lockNotBlockingImpl(task)`: the mutex after it, and whether the lock was free.
unfoldable pub lock_not_blocking_impl : ℕ → Mutex → Mutex × Bool
lock_not_blocking_impl task m = take_if_free task m.queue m.owner_task

-- `trylock(task)`.
unfoldable pub trylock : ℕ → Mutex → Mutex × Bool
unfolding lock_not_blocking_impl
trylock task m = lock_not_blocking_impl task m

-- How a call of `lock` goes on: it returns, or the task suspends itself.
pub data Locking : Type 0 where
  returns : Locking
  suspends : Locking

-- `lockBlockingImpl(task)`, and so `lock(task)`, up to its return or to the suspension of the task.
-- `owner_check` is the pending operation `_ownerTask == task`.
abbrev locking : {Op : Type 0} → (ℕ → Op) → ℕ → Store Op → Mutex × Bool → Mutex × Store Op × Locking
locking owner_check task store (m, true) = (m, store, returns)
locking owner_check task store (m, false) = (
  record m { queue = m.queue ++ task ∷ [] },
  Task.update task (Task.add_pending_operation (owner_check task)) store,
  suspends,
)

unfoldable pub lock : {Op : Type 0} → (ℕ → Op) → ℕ → Store Op → Mutex → Mutex × Store Op × Locking
unfolding lock_not_blocking_impl Task.update Task.add_pending_operation
lock owner_check task store m = locking owner_check task store (lock_not_blocking_impl task m)

-- The pending operation that `lock` gives the task, on the mutex as it is when it is asked.
unfoldable pub owner_check_result : ℕ → Mutex → Bool
owner_check_result task m = is_task task m.owner_task

abbrev hand_over : List ℕ → Mutex
hand_over [] = record { owner_task = none; queue = [] }
hand_over (next ∷ rest) = record { owner_task = some next; queue = rest }

-- `unlock(task)`.
unfoldable pub unlock : ℕ → M Mutex (Unit {0})
unfolding owns_lock
unlock task = do
  m ← get
  throw_if (not (owns_lock task m)) unlock_not_owner
  modify (λ m. hand_over m.queue)
