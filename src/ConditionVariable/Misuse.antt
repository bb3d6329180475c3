-- ===== src/ConditionVariable/Misuse.antt =====
-- The calls that wait, by a task that does not hold the mutex of the condition.
use task_r.Base.{
  ℕ, suc, ◌≡◌, ◌≢◌, [], ◌∷◌, ◌++◌, some, throw, unlock_not_owner, condition_not_owner, arith, M,
  ◌>>=◌, ◌>>◌,
}
use task_r.Task.Graph.{count, count-append}
use task_r.Mutex
use task_r.ConditionVariable.{Shared, notified, lock_cv, register, enlist, release, check_owner}
use task_r.ConditionVariable.Calls.{wait_for_condition_start, wait_for_start}
use task_r.ConditionVariable.Timed.{
  Kind, wait, wait_condition, wait_for_condition, wait_for, begin, enter_list, operation,
}

-- A whole call up to its suspension, where the internal mutex is free and the predicate does not hold.
abbrev pub suspends : Kind → (t flag : ℕ) → M Shared (Unit {0})
unfolding begin lock_cv enter_list release
suspends k t flag = do
  begin k t flag
  _ ← lock_cv t
  enter_list k t flag
  release t (operation k flag)

-- Where the internal mutex is free, and the task does not own the mutex of the condition: the three
-- calls with a check of the owner throw at once and change nothing. `wait` without a predicate is
-- refused only by the release of the mutex: its flag, whose call is left by the exception, is in the
-- list of waiting tasks once more than before, and its pending operation stays with the task.
pub wait_unowned_leaves_flag :
    (t f timeout start : ℕ) (s : Shared)
    → s.mutex ≡ Mutex.create
    → s.condition_mutex.owner_task ≢ some t
    → (suspends wait_condition t f s ≡ (s, throw condition_not_owner))
      × (suspends (wait_for_condition timeout start) t f s ≡ (s, throw condition_not_owner))
      × (suspends (wait_for timeout start) t f s ≡ (s, throw condition_not_owner))
      × ((suspends wait t f s).1 ≡ throw unlock_not_owner)
      × (count f (suspends wait t f s).0.waiting_tasks ≡ suc (count f s.waiting_tasks))
      × (((suspends wait t f s).0.tasks t).pending_operations
          ≡ (s.tasks t).pending_operations ++ notified f ∷ [])
unfolding suspends begin lock_cv enter_list register enlist release check_owner
    wait_for_condition_start wait_for_start
wait_unowned_leaves_flag t f timeout start s free not_own = (
  ground arith,
  ground arith,
  ground arith,
  ground arith,
  ground (arith, count-append f s.waiting_tasks (f ∷ [])),
  ground arith,
)
