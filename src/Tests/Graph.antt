-- ===== src/Tests/Graph.antt =====
-- Runs and instances for the dependency graph and the queues of ready tasks.
use task_r.Base.{ℕ, ◌+◌, ◌<◌, ◌≡◌, refl, [], ◌∷◌, ok, arith, ◌^◌, dec64}
use task_r.Task.{add_dependency}
use task_r.Task.Graph.{IsConsistent, add_dependency-IsConsistent, waits_for, count}
use task_r.Runtime.State.{Runtime}
use task_r.Runtime.Queued.{queued}
use task_r.Runtime.Tasks.{set_finished_task}
use task_r.Runtime.Tasks.Finish.{set_finished_task-Releases, made_ready}
use task_r.Tests.Samples.{env, tasks, running_with}

consistent_cases : (t : ℕ) → (tasks t).dependency_count ≡ waits_for tasks (1 ∷ 4 ∷ []) t
consistent_cases t = ground arith

small_cases : (t : ℕ) → waits_for tasks (1 ∷ 4 ∷ []) t < 2 ^ 64
small_cases t = ground arith

tasks-IsConsistent : IsConsistent tasks (1 ∷ 4 ∷ [])
tasks-IsConsistent = record { counted = consistent_cases; fits = small_cases }

add_dependency-IsConsistent_example : IsConsistent (add_dependency 2 4 tasks) (1 ∷ 4 ∷ [])
add_dependency-IsConsistent_example =
    add_dependency-IsConsistent 2 4 tasks (1 ∷ 4 ∷ []) tasks-IsConsistent refl (omega arith)

-- Task 1 finishes: task 2 becomes ready, and task 3 still waits for task 4.
finish_queues :
    (queued env.queue 2 (set_finished_task env 1 (running_with [] [] 4 0)).0 ≡ 1)
    × (queued env.queue 3 (set_finished_task env 1 (running_with [] [] 4 0)).0 ≡ 0)
unfolding set_finished_task dec64
finish_queues = (refl, refl)

set_finished_task-Releases_example :
    (s' : Runtime _ _ _) × (set_finished_task env 1 (running_with [] [] 4 0) ≡ (s', ok tt))
    × IsConsistent s'.tasks (4 ∷ [])
    × (s'.active_task_count ≡ 4)
    × ((u : ℕ)
        → queued env.queue u s'
          ≡ queued env.queue u (running_with [] [] 4 0)
            + made_ready env (waits_for s'.tasks (4 ∷ []) u) (count u (2 ∷ 3 ∷ [])))
set_finished_task-Releases_example =
    set_finished_task-Releases env 1 (4 ∷ []) (running_with [] [] 4 0) tasks-IsConsistent
      (omega arith) (refl, (refl, tt))
