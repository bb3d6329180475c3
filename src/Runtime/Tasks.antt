-- ===== src/Runtime/Tasks.antt =====
-- Adding, resuming and finishing tasks: `addTask`, `resumeTask`, `setFinishedTask` and the callbacks
-- of tasks in include/taskr/runtime.hpp.
pub mod Resume
pub mod Finish
pub mod Add
use task_r.Base.{
  ℕ, ℤ, pos, negsuc, true, List, [], ◌∷◌, Option, none, some, get_elem?, set, length, ltb, leb_ℤ,
  ◌==◌, ok, throw, invalid_affinity, M, pure, spin, fault, get, modify, ◌>>=◌, ◌>>◌, if◌then◌else◌,
  inc64, dec64,
}
use task_r.Queue
use task_r.Task
use task_r.Task.{Task, Store}
use task_r.Worker.{Worker}
use task_r.Runtime.State.{
  Runtime, Environment, call, resume_worker, task_worker, on_task_execute, on_task_finish,
  on_task_suspend, on_task_sync,
}

module _ {Q Op W : Type 0} (env : Environment Q Op W) where
  abbrev store_common : Option Q → M (Runtime Q Op W) (Unit {0})
  store_common none = spin
  store_common (some q) = modify λ s. record s { common_ready_task_queue = q }

  -- `_commonReadyTaskQueue->push(task)`.
  unfoldable pub push_common : ℕ → M (Runtime Q Op W) (Unit {0})
  unfolding Queue.push
  push_common task s = store_common (Queue.push env.queue s.common_ready_task_queue task) s

  abbrev store_own : ℕ → Worker Q → Option Q → M (Runtime Q Op W) (Unit {0})
  store_own i w none = spin
  store_own i w (some q) =
      modify
        λ s. record s { task_workers = set s.task_workers i (record w { ready_task_queue = q }) }

  abbrev push_to : ℕ → ℕ → Option (Worker Q) → M (Runtime Q Op W) (Unit {0})
  push_to i task none = fault
  push_to i task (some w) = store_own i w (Queue.push env.queue w.ready_task_queue task)

  -- `_taskWorkers[i]->getReadyTaskQueue()->push(task)`.
  unfoldable pub push_own : ℕ → ℕ → M (Runtime Q Op W) (Unit {0})
  unfolding Queue.push
  push_own i task s = push_to i task (get_elem? s.task_workers i) s

  -- The part of `resumeTask` below the sanity check.
  unfoldable pub make_ready : ℤ → ℕ → M (Runtime Q Op W) (Unit {0})
  unfolding push_own push_common
  make_ready (pos i) task = do push_own i task; call (resume_worker (task_worker i))
  make_ready (negsuc _) task = push_common task

  -- `resumeTask(task)`.
  unfoldable pub resume_task : ℕ → M (Runtime Q Op W) (Unit {0})
  unfolding make_ready Task.get_dependency_count Task.get_worker_affinity
  resume_task task s =
      let count = Task.get_dependency_count (s.tasks task) in
      let affinity = Task.get_worker_affinity (s.tasks task) in
      if ltb 0 count
      then (s, ok tt)
      else if leb_ℤ (pos (length s.task_workers)) affinity
      then (s, throw invalid_affinity)
      else make_ready affinity task s

  -- `addTask(task)`.
  unfoldable pub add_task : ℕ → M (Runtime Q Op W) (Unit {0})
  unfolding resume_task Task.update
  add_task task = do
    modify (λ s. record s { active_task_count = inc64 s.active_task_count })
    modify (λ s. record s {
      tasks = Task.update task (λ t. record t { callback_map_set = true }) s.tasks;
    })
    resume_task task

  -- The body of the loop of `setFinishedTask`.
  unfoldable pub release : ℕ → M (Runtime Q Op W) (Unit {0})
  unfolding resume_task Task.update Task.decrement_dependency_count Task.get_dependency_count
  release dependent = do
    modify (λ s. record s { tasks = Task.update dependent Task.decrement_dependency_count s.tasks })
    s ← get
    if Task.get_dependency_count (s.tasks dependent) == 0 then resume_task dependent else pure tt

  unfoldable pub release_all : List ℕ → M (Runtime Q Op W) (Unit {0})
  unfolding release
  release_all [] = pure tt
  release_all (dependent ∷ rest) = release dependent >> release_all rest

  -- `setFinishedTask(task)`.
  unfoldable pub set_finished_task : ℕ → M (Runtime Q Op W) (Unit {0})
  unfolding release_all Task.get_output_dependencies
  set_finished_task task s = release_all (Task.get_output_dependencies (s.tasks task)) s

  unfoldable pub on_task_execute_callback : ℕ → M (Runtime Q Op W) (Unit {0})
  on_task_execute_callback task = env.trigger on_task_execute task

  -- `onTaskFinishCallback(task)`.
  unfoldable pub on_task_finish_callback : ℕ → M (Runtime Q Op W) (Unit {0})
  unfolding set_finished_task
  on_task_finish_callback task = do
    set_finished_task task
    env.trigger on_task_finish task
    modify (λ s. record s { active_task_count = dec64 s.active_task_count })

  unfoldable pub on_task_suspend_callback : ℕ → M (Runtime Q Op W) (Unit {0})
  on_task_suspend_callback task = env.trigger on_task_suspend task

  unfoldable pub on_task_sync_callback : ℕ → M (Runtime Q Op W) (Unit {0})
  on_task_sync_callback task = env.trigger on_task_sync task
