-- ===== src/Runtime/Tasks/Add.antt =====
-- What `addTask` does: it counts the task, gives it the callbacks, and resumes it.
use task_r.Base.{ℕ, ◌≡◌, true, ok, refl, arith, inc64, ◌<◌}
use task_r.Task
use task_r.Task.{Task}
use task_r.Runtime.State.{Runtime, Environment}
use task_r.Runtime.Tasks.{resume_task, add_task}

module _ {Q Op W : Type 0} (env : Environment Q Op W) where
  -- The state that `addTask` hands to `resumeTask`.
  abbrev pub counted_in : ℕ → Runtime Q Op W → Runtime Q Op W
  counted_in t s = record s {
    active_task_count = inc64 s.active_task_count;
    tasks = Task.update t (λ k. record k { callback_map_set = true }) s.tasks;
  }

  pub counted_in-dependencies :
      (t u : ℕ) (s : Runtime Q Op W)
      → ((counted_in t s).tasks u).dependency_count ≡ (s.tasks u).dependency_count
  unfolding Task.update
  counted_in-dependencies t u s = ground arith

  pub counted_in-affinity :
      (t u : ℕ) (s : Runtime Q Op W)
      → ((counted_in t s).tasks u).worker_affinity ≡ (s.tasks u).worker_affinity
  unfolding Task.update
  counted_in-affinity t u s = ground arith

  pub add_task-resume_task :
      (t : ℕ) (s : Runtime Q Op W) → add_task env t s ≡ resume_task env t (counted_in t s)
  unfolding add_task
  add_task-resume_task t s = refl

  -- A task that depends on others is counted as active and enters no queue.
  pub add_task_waiting :
      (t : ℕ) (s : Runtime Q Op W)
      → 0 < (s.tasks t).dependency_count
      → add_task env t s ≡ (counted_in t s, ok tt)
  unfolding resume_task
  add_task_waiting t s some_left =
      rw (add_task-resume_task t s) (ground (arith, counted_in-dependencies t t s))
