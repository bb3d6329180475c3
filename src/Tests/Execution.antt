-- ===== src/Tests/Execution.antt =====
-- A short run: task 1 is added, then task 2 that depends on it; worker 0 executes and finishes task 1,
-- and takes task 2.
use task_r.Base.{
  none, false, Bool, ℕ, ◌+◌, ◌≡◌, ◌↔◌, refl, true, [], ◌∷◌, List, ok, arith, negsuc, some, M, inc64,
  dec64,
}
use task_r.Queue
use task_r.Queue.{Bounded}
use task_r.Task
use task_r.Task.Graph.{count, waits_for}
use task_r.Task.Order.{created, depend_on}
use task_r.Runtime.State.{
  Runtime, Environment, TaskEvent, on_task_execute, on_task_finish, on_task_suspend, on_task_sync,
  task_worker,
}
use task_r.Runtime.Queued.{queued}
use task_r.Runtime.Tasks.{add_task, resume_task, on_task_finish_callback, on_task_suspend_callback}
use task_r.Runtime.Services.{check_termination}
use task_r.Runtime.Scheduling.{task_worker_loop}
use task_r.Runtime.Execution.{
  Execution, Handlers, adds, turns, suspends, finishes, Reach, starts, next, IsFresh, executes,
}
use task_r.Runtime.Execution.Safety.{
  Sound, Reach-Sound, executed_once, terminates_when_done, some_task_can_run,
}
use task_r.Tests.Samples.{env, unbound_with, worker}

abbrev answer : TaskEvent → ℕ → M (Runtime Bounded Bool ℕ) (Unit {0})
answer on_task_suspend t = resume_task env t
answer on_task_execute t = λ s. (s, ok tt)
answer on_task_finish t = λ s. (s, ok tt)
answer on_task_sync t = λ s. (s, ok tt)

abbrev run_env : Environment Bounded Bool ℕ
run_env = record env { trigger = answer }

handlers : Handlers run_env
unfolding resume_task
handlers = record { finish = λ t s. refl; suspend = λ t s. refl }

abbrev fc : Task.Function
unfolding Task.create_function
fc = Task.create_function (λ f. f) 0

abbrev start_runtime : Runtime Bounded Bool ℕ
start_runtime = unbound_with [] [] 0 0

abbrev added : ℕ → List ℕ → Runtime Bounded Bool ℕ → Runtime Bounded Bool ℕ
unfolding add_task
added t ds r =
    (add_task run_env t
      (record r { tasks = depend_on t ds (created t none fc (negsuc 0) r.tasks) })).0

abbrev turned : Runtime Bounded Bool ℕ → Runtime Bounded Bool ℕ
unfolding task_worker_loop
turned r = (task_worker_loop run_env 0 r).0

abbrev finished : ℕ → Runtime Bounded Bool ℕ → Runtime Bounded Bool ℕ
unfolding on_task_finish_callback
finished t r = (on_task_finish_callback run_env t r).0

abbrev two_added : Runtime Bounded Bool ℕ
unfolding added
two_added = added 2 (1 ∷ []) (added 1 [] start_runtime)

abbrev with_both : Execution Bounded Bool ℕ
unfolding two_added
with_both = record { runtime = two_added; executing = []; unfinished = 2 ∷ 1 ∷ [] }

fresh : IsFresh run_env start_runtime
fresh = record {
  calm = refl;
  alone = refl;
  polling = omega arith;
  inactive = refl;
  empty = λ t. refl;
  unused = λ t. refl;
}

Reach-both : Reach run_env with_both
unfolding two_added added add_task created Task.add_dependency inc64 fc
Reach-both =
    next
      (next (starts start_runtime fresh) (
        adds 1 none fc (negsuc 0) [] (added 1 [] start_runtime) refl tt (omega arith) (omega arith)
          refl refl refl))
      (adds 2 none fc (negsuc 0) (1 ∷ []) two_added refl (refl, tt) (omega arith) (omega arith) refl
        refl refl)

abbrev while_one : Execution Bounded Bool ℕ
unfolding two_added
while_one = record { runtime = turned two_added; executing = (0, 1) ∷ []; unfinished = 2 ∷ 1 ∷ [] }

abbrev after_one : Execution Bounded Bool ℕ
unfolding while_one
after_one = record { runtime = finished 1 while_one.runtime; executing = []; unfinished = 2 ∷ [] }

abbrev while_two : Execution Bounded Bool ℕ
unfolding after_one
while_two = record {
  runtime = turned after_one.runtime;
  executing = (0, 2) ∷ [];
  unfinished = 2 ∷ [];
}

abbrev after_two : Execution Bounded Bool ℕ
unfolding while_two
after_two = record { runtime = finished 2 while_two.runtime; executing = []; unfinished = [] }

Reach-one : Reach run_env while_one
unfolding with_both while_one after_one while_two after_two two_added added turned finished add_task
    created Task.add_dependency inc64 dec64 fc task_worker_loop on_task_finish_callback Queue.pop
Reach-one =
    next Reach-both
      (turns 0 (worker 0 []) (some 1) while_one.runtime refl refl (omega arith) refl refl)

Reach-after : Reach run_env after_one
unfolding with_both while_one after_one while_two after_two two_added added turned finished add_task
    created Task.add_dependency inc64 dec64 fc task_worker_loop on_task_finish_callback Queue.pop
Reach-after =
    next Reach-one
      (finishes 0 1 [] [] (2 ∷ []) [] after_one.runtime refl refl (omega arith) refl refl)

Reach-two : Reach run_env while_two
unfolding with_both while_one after_one while_two after_two two_added added turned finished add_task
    created Task.add_dependency inc64 dec64 fc task_worker_loop on_task_finish_callback Queue.pop
Reach-two = next Reach-after (
    turns 0 (record (worker 0 []) { has_failed_to_retrieve_task = false }) (some 2)
      while_two.runtime refl refl (omega arith) refl refl)

abbrev suspended_two : Execution Bounded Bool ℕ
unfolding while_two
suspended_two = record {
  runtime = (on_task_suspend_callback run_env 2 while_two.runtime).0;
  executing = [];
  unfinished = 2 ∷ [];
}

Reach-suspended : Reach run_env suspended_two
unfolding suspended_two with_both while_one after_one while_two two_added added turned finished
    add_task created Task.add_dependency inc64 dec64 fc task_worker_loop on_task_finish_callback
    Queue.pop on_task_suspend_callback
Reach-suspended = next Reach-two (suspends 0 2 [] [] [] suspended_two.runtime refl refl refl)

Reach-Sound_example : Sound run_env while_two
Reach-Sound_example = Reach-Sound run_env handlers while_two Reach-two

executed_once_example :
    (count 2 (2 ∷ []) ≡ 1)
    × (waits_for while_two.runtime.tasks (2 ∷ []) 2 ≡ 0)
    × (◌≡◌ {A = ℕ} 0 0)
    × (queued run_env.queue 2 while_two.runtime ≡ 0)
unfolding while_two
executed_once_example = executed_once run_env handlers while_two 0 2 [] [] Reach-two refl

terminates_when_done_example :
    ((check_termination (task_worker 0) suspended_two.runtime).1 ≡ ok true)
    ↔ (suspended_two.unfinished ≡ [])
unfolding suspended_two on_task_suspend_callback turned finished Task.add_dependency inc64 created
    Queue.pop dec64
terminates_when_done_example =
    terminates_when_done run_env handlers suspended_two (task_worker 0) Reach-suspended refl

some_task_can_run_example :
    queued run_env.queue 1 with_both.runtime + executes 1 with_both.executing ≡ 1
unfolding with_both
some_task_can_run_example = some_task_can_run run_env handlers with_both 2 (1 ∷ []) Reach-both refl
