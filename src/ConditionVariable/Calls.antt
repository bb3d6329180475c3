-- ===== src/ConditionVariable/Calls.antt =====
-- The first pieces of the calls with a check of the owner, and a whole turn of `waitFor`.
use task_r.Base.{
  ℕ, ◌≡◌, Bool, true, false, [], ◌∷◌, M, ok, some, arith, modify, pure, ◌>>=◌, ◌>>◌, if◌then◌else◌,
}
use task_r.Mutex
use task_r.Mutex.{Locking}
use task_r.ConditionVariable.{
  Shared, notified_or_timeout, lock_cv, lock_condition, register, release, check_owner, write,
  wait_condition_next, wait_for_condition_check, wait_for_condition_next, notify_one, Next, answers,
  waits_again, timed_out,
}

-- `wait` with a predicate, up to its first turn: `satisfied` is the predicate's answer.
unfoldable pub wait_condition_start : (t : ℕ) → (satisfied : Bool) → M Shared Next
unfolding check_owner wait_condition_next
wait_condition_start t satisfied = check_owner t >> pure (wait_condition_next satisfied)

-- `waitFor` with a predicate, up to its first turn.
unfoldable pub wait_for_condition_start : (t flag : ℕ) → (satisfied : Bool) → M Shared Next
unfolding check_owner
wait_for_condition_start t flag satisfied = do
  check_owner t
  if satisfied then pure (answers true) else do
    modify
        λ s. record s { is_timeout = write flag false s.is_timeout; flag = write flag false s.flag }
    pure waits_again

-- `waitFor` without a predicate, up to the registration.
unfoldable pub wait_for_start : (t flag : ℕ) → M Shared (Unit {0})
unfolding check_owner
wait_for_start t flag = do
  check_owner t
  modify λ s. record s {
    due_to_notification = write flag false s.due_to_notification;
    flag = write flag false s.flag;
  }

-- What a task does in `waitFor` with a predicate that does not hold, until it is suspended, and what
-- another task does in `notifyOne`, where nobody else uses the two mutexes.
abbrev pub enters : (t flag : ℕ) → M Shared (Unit {0})
unfolding wait_for_condition_start lock_cv register release
enters t flag = do
  _ ← wait_for_condition_start t flag false
  _ ← lock_cv t
  register t flag
  release t (notified_or_timeout flag)

abbrev pub notifies : (u : ℕ) → M Shared (Unit {0})
unfolding lock_cv notify_one
notifies u = do _ ← lock_cv u; notify_one u

-- A whole `waitFor` with a predicate, notified by another task and polled before its timeout, where
-- nobody else waits or uses the mutexes: both calls return, the task runs on and has the mutex of
-- the condition again at once, nobody is left in the list, and the call answers true if the
-- predicate now holds, and waits once more if not.
pub notified_call :
    (t u flag timeout start now : ℕ) (satisfied : Bool) (s : Shared)
    → s.mutex ≡ Mutex.create
    → s.condition_mutex ≡ record { owner_task = some t; queue = [] }
    → s.waiting_tasks ≡ []
    → timed_out timeout start now ≡ false
    → (s1 : Shared) × (s2 : Shared) × ((enters t flag >> notifies u) s ≡ (s1, ok tt))
      × (wait_for_condition_check flag timeout start now s1 ≡ (s1, true))
      × (lock_condition t s1 ≡ (s2, ok Mutex.returns))
      × (s2.condition_mutex.owner_task ≡ some t)
      × (s2.waiting_tasks ≡ [])
      × (wait_for_condition_next flag satisfied s2
          ≡ (if satisfied then answers true else waits_again))
unfolding enters notifies wait_for_condition_check lock_condition wait_for_condition_next
notified_call t u flag timeout start now satisfied s free own nobody early = (
  ((enters t flag >> notifies u) s).0,
  (lock_condition t ((enters t flag >> notifies u) s).0).0,
  ground arith,
  ground arith,
  ground arith,
  ground arith,
  ground arith,
  ground arith,
)

-- The same call, not notified and polled after its timeout: it runs on, has the mutex of the
-- condition again and answers false, while the address of its flag stays in the list.
pub timed_out_call :
    (t flag timeout start now : ℕ) (satisfied : Bool) (s : Shared)
    → s.mutex ≡ Mutex.create
    → s.condition_mutex ≡ record { owner_task = some t; queue = [] }
    → s.waiting_tasks ≡ []
    → timed_out timeout start now ≡ true
    → (s1 : Shared) × (s2 : Shared) × (s3 : Shared) × (enters t flag s ≡ (s1, ok tt))
      × (wait_for_condition_check flag timeout start now s1 ≡ (s2, true))
      × (lock_condition t s2 ≡ (s3, ok Mutex.returns))
      × (wait_for_condition_next flag satisfied s3 ≡ answers false)
      × (s3.waiting_tasks ≡ flag ∷ [])
unfolding enters wait_for_condition_check lock_condition wait_for_condition_next
timed_out_call t flag timeout start now satisfied s free own nobody late = (
  (enters t flag s).0,
  (wait_for_condition_check flag timeout start now (enters t flag s).0).0,
  (lock_condition t (wait_for_condition_check flag timeout start now (enters t flag s).0).0).0,
  ground arith,
  ground arith,
  ground arith,
  ground arith,
  ground arith,
)
