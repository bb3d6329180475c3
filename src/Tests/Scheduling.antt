-- ===== src/Tests/Scheduling.antt =====
-- Runs and instances for the loop of task workers.
use task_r.Base.{
  ℕ, ◌+◌, ◌≡◌, ◌⊎◌, refl, [], ◌∷◌, ok, arith, true, Bool, Option, none, some, get_elem?, inc64,
  dec64,
}
use task_r.Worker.{Worker}
use task_r.Clock.{elapsed}
use task_r.Queue
use task_r.Queue.{Bounded}
use task_r.Runtime.State.{Runtime, suspend_worker, task_worker}
use task_r.Runtime.Tasks.{resume_task}
use task_r.Runtime.Scheduling.{
  task_worker_loop, clear_queues, check_task_worker_suspension, check_resume_worker,
}
use task_r.Runtime.Scheduling.Draining.{clear_queues_lem}
use task_r.Runtime.Scheduling.Suspension.{IsIdle, suspends_when-IsIdle, resumed_worker_wakes}
use task_r.Runtime.Scheduling.Loop.{Works, task_worker_loop-Works}
use task_r.Tests.Samples.{env, worker, running_with, unbound_with}

-- Worker 0 takes task 9 of its own queue before task 8 of the common one.
own_first : (task_worker_loop env 0 (running_with (9 ∷ []) (8 ∷ []) 2 0)).1 ≡ ok (some 9)
unfolding task_worker_loop Queue.pop
own_first = refl

-- Task 7 still waits for an operation: it is put back without its satisfied one.
put_back :
    ((task_worker_loop env 0 (running_with [] (7 ∷ 8 ∷ []) 2 0)).1 ≡ ok none)
    × ((task_worker_loop env 0 (running_with [] (7 ∷ 8 ∷ []) 2 0)).0.common_ready_task_queue.items
        ≡ 8 ∷ 7 ∷ [])
unfolding task_worker_loop inc64 dec64 Queue.pop elapsed
put_back = (refl, refl)

task_worker_loop-Works_example :
    (s' : Runtime _ _ _) × (r : Option ℕ) × (task_worker_loop env 0
        (unbound_with (9 ∷ []) (7 ∷ 8 ∷ []) 3 0)
      ≡ (s', ok r))
    × Works env (unbound_with (9 ∷ []) (7 ∷ 8 ∷ []) 3 0) s' r
task_worker_loop-Works_example =
    task_worker_loop-Works env 0 (worker 0 (9 ∷ [])) (unbound_with (9 ∷ []) (7 ∷ 8 ∷ []) 3 0) refl
      refl refl (omega arith) (λ t h. refl) (λ t h. refl) (omega arith)

clear_queues_lem_example :
    (s' : Runtime _ _ _) × (clear_queues env 0 (running_with (9 ∷ []) (7 ∷ 8 ∷ []) 5 0)
      ≡ (s', ok tt))
    × (s'.common_ready_task_queue.items ≡ [])
    × ((w' : Worker Bounded) × (get_elem? s'.task_workers 0 ≡ some w')
        × (w'.ready_task_queue.items ≡ []))
    × (s'.active_task_count + (2 + 1) ≡ 5)
clear_queues_lem_example =
    clear_queues_lem env 0 (worker 0 (9 ∷ [])) (running_with (9 ∷ []) (7 ∷ 8 ∷ []) 5 0) refl
      (omega arith) (omega arith)

-- Worker 0 has found nothing for 20 ms, and worker 1 is active too.
suspends_when-IsIdle_example :
    ((check_task_worker_suspension env 0 (running_with [] [] 2 20_000_000)).1 ≡ ok tt)
    × ((IsIdle env 10 (worker 0 []) (running_with [] [] 2 20_000_000)
          × ((check_task_worker_suspension env 0 (running_with [] [] 2 20_000_000)).0.calls
              ≡ suspend_worker (task_worker 0) ∷ []))
        ⊎ ((¬ IsIdle env 10 (worker 0 []) (running_with [] [] 2 20_000_000))
            × ((check_task_worker_suspension env 0 (running_with [] [] 2 20_000_000)).0.calls
                ≡ [])))
suspends_when-IsIdle_example =
    suspends_when-IsIdle env 0 10 (worker 0 []) (running_with [] [] 2 20_000_000) refl refl
      (omega arith)

abbrev resumed : Runtime Bounded Bool ℕ
unfolding resume_task
resumed = (resume_task env 5 (running_with [] [] 2 0)).0

resumed_worker_wakes_example : check_resume_worker env 1 (worker 1 (5 ∷ [])) resumed ≡ true
unfolding resume_task
resumed_worker_wakes_example =
    resumed_worker_wakes env 1 5 (running_with [] [] 2 0) resumed (worker 1 (5 ∷ [])) refl refl refl
      refl
