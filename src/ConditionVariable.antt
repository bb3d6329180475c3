-- ===== src/ConditionVariable.antt =====
-- include/taskr/conditionVariable.hpp: the task-aware condition variable. Each call of `wait` or
-- `waitFor` has its notification flag on the stack of its task: an address, a number. A call is cut
-- where its task may be suspended; each piece is a function here.
pub mod Notify
pub mod Timeout
pub mod Misuse
pub mod Calls
pub mod System
pub mod Listing
pub mod Effects
pub mod Wakeups
pub mod Timed
use task_r.Base.{
  ℕ, Bool, true, false, not, Option, none, some, List, [], ◌∷◌, ◌++◌, M, Outcome, ok, throw,
  blocked, undefined, get, modify, pure, throw_if, condition_not_owner, ◌>>=◌, ◌>>◌, ◌==◌,
  if◌then◌else◌, ltb, length,
}
use task_r.Clock.{elapsed, nanoseconds_per_us, to_size_t}
use task_r.Task
use task_r.Task.{Store}
use task_r.Mutex
use task_r.Mutex.{Mutex, Locking}

-- What a pending operation of a waiting task looks at: the owner of one of the two mutexes, the
-- notification flag at an address, or that flag and the time, in the call with that flag.
pub data Pending : Type 0 where
  owns_cv : ℕ → Pending
  owns_condition : ℕ → Pending
  notified : ℕ → Pending
  notified_or_timeout : ℕ → Pending
  timeout_or_notified : ℕ → Pending

-- The members `_mutex` and `_waitingTasks`, the mutex of the condition, the tasks, and the locals of
-- the calls by the address of their flag: the flag itself, `isTimeout`, `returnsDueToNotification`.
pub record Shared : Type 0 where
  pub mutex : Mutex
  pub condition_mutex : Mutex
  pub waiting_tasks : List ℕ
  pub tasks : Store Pending
  pub flag : ℕ → Bool
  pub is_timeout : ℕ → Bool
  pub due_to_notification : ℕ → Bool

abbrev pub write : ℕ → Bool → (ℕ → Bool) → ℕ → Bool
write a b f c = if a == c then b else f c

-- The three parts that a call of `Mutex.lock` changes or answers.
abbrev locked_cv : Shared → Mutex × Store Pending × Locking → Shared × Outcome Locking
locked_cv s (m, tasks, l) = (record s { mutex = m; tasks = tasks }, ok l)

abbrev locked_condition : Shared → Mutex × Store Pending × Locking → Shared × Outcome Locking
locked_condition s (m, tasks, l) = (record s { condition_mutex = m; tasks = tasks }, ok l)

-- `_mutex.lock(currentTask)` and `conditionMutex.lock(currentTask)`.
unfoldable pub lock_cv : ℕ → M Shared Locking
unfolding Mutex.lock
lock_cv t s = locked_cv s (Mutex.lock owns_cv t s.tasks s.mutex)

unfoldable pub lock_condition : ℕ → M Shared Locking
unfolding Mutex.lock
lock_condition t s = locked_condition s (Mutex.lock owns_condition t s.tasks s.condition_mutex)

abbrev unlocked_cv : Shared → Mutex × Outcome (Unit {0}) → Shared × Outcome (Unit {0})
unlocked_cv s (m, o) = (record s { mutex = m }, o)

abbrev unlocked_condition : Shared → Mutex × Outcome (Unit {0}) → Shared × Outcome (Unit {0})
unlocked_condition s (m, o) = (record s { condition_mutex = m }, o)

-- `_mutex.unlock(currentTask)` and `conditionMutex.unlock(currentTask)`.
unfoldable pub unlock_cv : ℕ → M Shared (Unit {0})
unfolding Mutex.unlock
unlock_cv t s = unlocked_cv s (Mutex.unlock t s.mutex)

unfoldable pub unlock_condition : ℕ → M Shared (Unit {0})
unfolding Mutex.unlock
unlock_condition t s = unlocked_condition s (Mutex.unlock t s.condition_mutex)

-- The first check of `wait` with a predicate and of both `waitFor`s.
unfoldable pub check_owner : ℕ → M Shared (Unit {0})
unfolding Mutex.owns_lock
check_owner t = do s ← get; throw_if (not (Mutex.owns_lock t s.condition_mutex)) condition_not_owner

-- With `_mutex` held, in `waitFor` without a predicate: put the flag into the list of waiting tasks and
-- release `_mutex`.
unfoldable pub enlist : (t flag : ℕ) → M Shared (Unit {0})
unfolding unlock_cv
enlist t flag = do
  modify (λ s. record s { waiting_tasks = s.waiting_tasks ++ flag ∷ [] })
  unlock_cv t

-- With `_mutex` held, in the other calls that wait: the same, after the flag is cleared.
unfoldable pub register : (t flag : ℕ) → M Shared (Unit {0})
unfolding enlist
register t flag = do modify (λ s. record s { flag = write flag false s.flag }); enlist t flag

-- The rest before the suspension: add the pending operation and release the mutex of the condition.
unfoldable pub release : (t : ℕ) → Pending → M Shared (Unit {0})
unfolding unlock_condition Task.update Task.add_pending_operation
release t op = do
  modify (λ s. record s { tasks = Task.update t (Task.add_pending_operation op) s.tasks })
  unlock_condition t

-- `elapsedTime > timeout`, in microseconds: both sides are compared as `size_t`.
abbrev pub timed_out : (timeout start now : ℕ) → Bool
timed_out timeout start now = ltb timeout (to_size_t (elapsed nanoseconds_per_us now start))

-- The pending operation of `wait`.
unfoldable pub wait_check : ℕ → Shared → Bool
wait_check flag s = s.flag flag

-- The pending operation of `waitFor` with a predicate: the time is looked at first.
unfoldable pub wait_for_condition_check : (flag timeout start now : ℕ) → Shared → Shared × Bool
wait_for_condition_check flag timeout start now s =
    if timed_out timeout start now
    then (record s { is_timeout = write flag true s.is_timeout }, true)
    else if s.flag flag
    then (s, true)
    else (s, false)

-- The pending operation of `waitFor` without a predicate: the flag is looked at first.
unfoldable pub wait_for_check : (flag timeout start now : ℕ) → Shared → Shared × Bool
wait_for_check flag timeout start now s =
    if s.flag flag
    then (record s { due_to_notification = write flag true s.due_to_notification }, true)
    else if timed_out timeout start now
    then (record s { flag = write flag true s.flag }, true)
    else (s, false)

-- What a call with a predicate does once it has the mutex of the condition again: return an answer,
-- or wait once more. `satisfied` is the predicate's answer, which is not asked for after a timeout.
pub data Next : Type 0 where
  answers : Bool → Next
  waits_again : Next

unfoldable pub wait_condition_next : Bool → Next
wait_condition_next satisfied = if satisfied then answers true else waits_again

unfoldable pub wait_for_condition_next : (flag : ℕ) → Bool → Shared → Next
wait_for_condition_next flag satisfied s =
    if s.is_timeout flag then answers false else if satisfied then answers true else waits_again

unfoldable pub wait_for_answer : (flag : ℕ) → Shared → Bool
wait_for_answer flag s = s.due_to_notification flag

abbrev notified_first : List ℕ → Shared → Shared
notified_first [] s = s
notified_first (f ∷ rest) s = record s { waiting_tasks = rest; flag = write f true s.flag }

-- `notifyOne`, with `_mutex` held.
unfoldable pub notify_one : ℕ → M Shared (Unit {0})
unfolding unlock_cv
notify_one t = do modify (λ s. notified_first s.waiting_tasks s); unlock_cv t

-- The loop of `notifyAll`.
unfoldable pub notify_loop : List ℕ → Shared → Shared
notify_loop [] s = s
notify_loop (f ∷ rest) s =
    notify_loop rest (record s { waiting_tasks = rest; flag = write f true s.flag })

-- `notifyAll`, with `_mutex` held.
unfoldable pub notify_all : ℕ → M Shared (Unit {0})
unfolding unlock_cv notify_loop
notify_all t = do modify (λ s. notify_loop s.waiting_tasks s); unlock_cv t

-- `getWaitingTaskCount()`.
unfoldable pub get_waiting_task_count : Shared → ℕ
get_waiting_task_count s = length s.waiting_tasks
