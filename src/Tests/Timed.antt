-- ===== src/Tests/Timed.antt =====
-- Runs and instances for the calls that wait with a timeout: task 1 calls `waitFor` without a predicate
-- with its flag at address 100, and task 2 is about to notify it.
use task_r.Base.{◌<◌, ◌≡◌, ◌⊎◌, refl, false, true, [], some, negsuc}
use task_r.Task
use task_r.Task.{Store}
use task_r.Task.Graph.{count}
use task_r.Mutex
use task_r.Clock.{elapsed}
use task_r.ConditionVariable.{
  Shared, Pending, lock_cv, lock_condition, release, timeout_or_notified, notify_all,
  wait_for_check, check_owner,
}
use task_r.ConditionVariable.Timed
use task_r.ConditionVariable.Timed.{Call, wait_for, check, begin, enter_list, after_retaking}
use task_r.ConditionVariable.Timed.Reaching.{sleeper_is_reached}

abbrev plain : Store Pending
unfolding Task.create Task.create_function
plain t = Task.create (Task.create_function (λ f. f) 0) (negsuc 0)

abbrev call : Call
call = record { kind = wait_for 5 0; flag = 100 }

-- Task 1 owns the mutex of the condition.
abbrev s0 : Timed.System
s0 = record {
  shared = record {
    mutex = Mutex.create;
    condition_mutex = record { owner_task = some 1; queue = [] };
    waiting_tasks = [];
    tasks = plain;
    flag = λ f. true;
    is_timeout = λ f. false;
    due_to_notification = λ f. false;
  };
  place = λ t. Timed.idle;
}

abbrev s1 : Timed.System
unfolding begin lock_cv
s1 = Timed.goes s0 (lock_cv 1 (begin call.kind 1 100 s0.shared).0).0 1 (Timed.entering call)

abbrev s2 : Timed.System
unfolding s1 enter_list
s2 = Timed.goes s1 (enter_list call.kind 1 100 s1.shared).0 1 (Timed.registered call)

abbrev s3 : Timed.System
unfolding s2 release
s3 = Timed.goes s2 (release 1 (timeout_or_notified 100) s2.shared).0 1 (Timed.sleeping call)

abbrev s4 : Timed.System
unfolding s3 lock_cv
s4 = Timed.goes s3 (lock_cv 2 s3.shared).0 2 Timed.notifying

reached : Timed.Reach s4
unfolding s4 s3 s2 s1 begin lock_cv enter_list release
reached =
    Timed.next
      (Timed.next
        (Timed.next
          (Timed.next (Timed.start s0.shared refl) (
            Timed.calls 1 100 (wait_for 5 0) (begin call.kind 1 100 s0.shared).0 s1.shared
              Mutex.returns refl (λ t e. cc) refl refl refl))
          (Timed.registers 1 call s2.shared refl refl refl))
        (Timed.releases 1 call s3.shared refl refl refl))
      (Timed.asks 2 s4.shared Mutex.returns refl refl refl)

sleeper_is_reached_example :
    ((s4.shared.flag 100 ≡ true) ⊎ (0 < count 100 s4.shared.waiting_tasks))
    × ((check call.kind 100 7 (notify_all 2 s4.shared).0).1 ≡ true)
unfolding s4 s3 s2 s1 begin lock_cv enter_list release
sleeper_is_reached_example = sleeper_is_reached 1 2 7 call reached refl refl

-- Ten microseconds after the start the call runs on, and answers that nobody notified it.
times_out :
    ((check call.kind 100 10_000 s4.shared).1 ≡ true)
    × (after_retaking call.kind 100 false (check call.kind 100 10_000 s4.shared).0
        ≡ task_r.ConditionVariable.answers false)
unfolding s4 s3 s2 s1 begin lock_cv enter_list release check after_retaking elapsed
times_out = (refl, refl)
