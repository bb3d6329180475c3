-- ===== src/Tests/Waiting.antt =====
-- Runs and instances for the condition variable: task 1 waits with its flag at address 100, and task
-- 2 is about to notify it.
use task_r.Base.{
  ℕ, suc, ◌++◌, ◌≡◌, ◌⊎◌, refl, Bool, false, true, [], ◌∷◌, ok, throw, arith, some, negsuc, ◌==◌,
  unlock_not_owner, condition_not_owner, ◌<◌, ◌≤◌, ◌-◌, ◌/◌, ◌↔◌,
}
use task_r.Task
use task_r.Task.{Store}
use task_r.Task.Graph.{count}
use task_r.Mutex
use task_r.Mutex.{Mutex}
use task_r.ConditionVariable.{
  Shared, Pending, notified, lock_cv, lock_condition, register, release, notify_one, wait_for_check,
  timed_out,
}
use task_r.ConditionVariable.System
use task_r.ConditionVariable.Timeout.{timeout_loses_notification, timed_out_iff}
use task_r.ConditionVariable.Misuse.{wait_unowned_leaves_flag, suspends}
use task_r.ConditionVariable.Timed.{wait, wait_condition, wait_for_condition, wait_for}
use task_r.Clock.{elapsed, nanoseconds_per_us}
use task_r.ConditionVariable.Wakeups.{no_dangling_entry}

abbrev plain : Store Pending
unfolding Task.create Task.create_function
plain t = Task.create (Task.create_function (λ f. f) 0) (negsuc 0)

abbrev memory : ℕ → Bool
memory f = true

-- The state after each step.
abbrev begun : System.System
begun = System.init plain memory

abbrev s1 : System.System
unfolding lock_condition
s1 = System.goes begun (lock_condition 1 begun.shared).0 1 System.idle

abbrev s2 : System.System
unfolding s1 lock_cv
s2 = System.goes s1 (lock_cv 1 s1.shared).0 1 (System.entering 100)

abbrev s3 : System.System
unfolding s2 register
s3 = System.goes s2 (register 1 100 s2.shared).0 1 (System.registered 100)

abbrev s4 : System.System
unfolding s3 release
s4 = System.goes s3 (release 1 (notified 100) s3.shared).0 1 (System.sleeping 100)

abbrev s5 : System.System
unfolding s4 lock_cv
s5 = System.goes s4 (lock_cv 2 s4.shared).0 2 System.notifying

s1-idle : (t : ℕ) → s1.place t ≡ System.idle
unfolding s1
s1-idle t = ground arith

s1-IsFresh : System.IsFresh 100 s1
s1-IsFresh t e = ground (arith, s1-idle t)

reached : System.Reach plain memory s5
unfolding s5 s4 s3 s2 s1 lock_condition lock_cv register release
reached =
    System.next
      (System.next
        (System.next
          (System.next
            (System.next System.start (System.locks 1 s1.shared Mutex.returns refl refl refl))
            (System.calls 1 100 s2.shared Mutex.returns refl s1-IsFresh refl refl))
          (System.registers 1 100 s3.shared refl refl refl))
        (System.releases 1 100 s4.shared refl refl refl))
      (System.asks 2 s5.shared Mutex.returns refl refl refl)

no_dangling_entry_example :
    (s5.left 100 ≡ true)
    ⊎ ((t : ℕ) × ((s5.place t ≡ System.registered 100) ⊎ (s5.place t ≡ System.sleeping 100))
        × (s5.shared.flag 100 ≡ false))
unfolding s5 s4 s3 s2 s1 lock_condition lock_cv register release
no_dangling_entry_example = no_dangling_entry 100 reached (omega arith)

-- Two waiting calls, with the flags 100 and 200, and task 1 in the internal mutex.
abbrev waiting : Shared
waiting = record {
  mutex = record { owner_task = some 1; queue = [] };
  condition_mutex = Mutex.create;
  waiting_tasks = 100 ∷ 200 ∷ [];
  tasks = plain;
  flag = λ f. f == 300;
  is_timeout = λ f. false;
  due_to_notification = λ f. false;
}

-- A timeout of 5 microseconds, and 10 have passed.
timeout_loses_notification_example :
    ((wait_for_check 100 5 0 10_000 waiting).1 ≡ true)
    × ((wait_for_check 100 5 0 10_000 waiting).0.waiting_tasks ≡ 100 ∷ 200 ∷ [])
    × ((notify_one 1 (wait_for_check 100 5 0 10_000 waiting).0).1 ≡ ok tt)
    × ((notify_one 1 (wait_for_check 100 5 0 10_000 waiting).0).0.waiting_tasks ≡ 200 ∷ [])
    × ((notify_one 1 (wait_for_check 100 5 0 10_000 waiting).0).0.flag 200 ≡ false)
timeout_loses_notification_example =
    timeout_loses_notification 1 100 200 5 0 10_000 [] waiting refl refl (omega arith) refl refl
      (omega arith) (omega arith)

-- A clock that is set back by a microsecond counts as timed out.
timed_out_iff_example :
    (timed_out 5 9_000 8_000 ≡ true)
    ↔ ((5 < (8_000 - 9_000) / nanoseconds_per_us) ⊎ (nanoseconds_per_us ≤ 9_000 - 8_000))
timed_out_iff_example = timed_out_iff 5 9_000 8_000 (omega arith) (omega arith) (omega arith)

set_back : timed_out 5 9_000 8_000 ≡ true
unfolding elapsed
set_back = refl

-- Task 1 does not own the mutex of the condition.
abbrev unowned : Shared
unowned = record waiting { mutex = Mutex.create }

wait_unowned_leaves_flag_example :
    (suspends wait_condition 1 300 unowned ≡ (unowned, throw condition_not_owner))
    × (suspends (wait_for_condition 5 0) 1 300 unowned ≡ (unowned, throw condition_not_owner))
    × (suspends (wait_for 5 0) 1 300 unowned ≡ (unowned, throw condition_not_owner))
    × ((suspends wait 1 300 unowned).1 ≡ throw unlock_not_owner)
    × (count 300 (suspends wait 1 300 unowned).0.waiting_tasks ≡ suc (count 300 (100 ∷ 200 ∷ [])))
    × (((suspends wait 1 300 unowned).0.tasks 1).pending_operations
        ≡ (plain 1).pending_operations ++ notified 300 ∷ [])
wait_unowned_leaves_flag_example =
    wait_unowned_leaves_flag 1 300 5 0 unowned refl (λ e. ground arith)

-- Task 1 has the mutex of the condition, and nobody waits.
abbrev alone : Shared
alone = record waiting {
  mutex = Mutex.create;
  condition_mutex = record { owner_task = some 1; queue = [] };
  waiting_tasks = [];
}
