-- ===== src/Runtime/Scheduling.antt =====
-- The loop of task workers: `taskWorkerLoop`, `checkResumeWorker` and `checkTaskWorkerSuspension` of
-- include/taskr/runtime.hpp.
pub mod Suspension
pub mod Draining
pub mod Polling
pub mod Picking
pub mod Settling
pub mod Loop
use task_r.Base.{
  ℕ, zero, suc, ℤ, pos, Bool, true, false, not, List, [], ◌∷◌, Option, none, some, M, get, modify,
  pure, fault, Outcome, ok, blocked, ◌>>=◌, ◌>>◌, ◌==◌, ◌||◌, ◌&&◌, ltb, leb, leb_ℤ, if◌then◌else◌,
  get_elem?, set, when, inc64, dec64,
}
use task_r.Clock.{to_size_t}
use task_r.Queue
use task_r.Task
use task_r.Task.{Task}
use task_r.Worker
use task_r.Worker.{Worker}
use task_r.Runtime.State.{Runtime, Environment, WorkerRef, task_worker, suspend_worker, call}
use task_r.Runtime.Tasks.{resume_task}
use task_r.Runtime.Services.{now, service_round, check_termination}

module _ {Q Op W : Type 0} (env : Environment Q Op W) where
  -- A task worker, changed.
  unfoldable pub put_worker : ℕ → Worker Q → M (Runtime Q Op W) (Unit {0})
  put_worker i w = modify λ s. record s { task_workers = set s.task_workers i w }

  abbrev found : Option (Worker Q) → M (Runtime Q Op W) (Worker Q)
  found none = fault
  found (some w) = pure w

  -- `_taskWorkers[i]`.
  unfoldable pub worker_at : ℕ → M (Runtime Q Op W) (Worker Q)
  worker_at i s = found (get_elem? s.task_workers i) s

  -- `if (task != nullptr) _activeTaskCount--`.
  abbrev pub discount : Option ℕ → ℕ → ℕ
  discount none n = n
  discount (some t) n = dec64 n

  abbrev discarded_common : Runtime Q Op W → Option ℕ × Q → Runtime Q Op W
  discarded_common s (task, q) = record s {
    common_ready_task_queue = q;
    active_task_count = discount task s.active_task_count;
  }

  -- The loop that empties the common queue, with fuel.
  unfoldable pub drain_common : ℕ → M (Runtime Q Op W) (Unit {0})
  drain_common zero s = (s, blocked)
  drain_common (suc fuel) s =
      let rest =
        drain_common fuel (discarded_common s (Queue.pop env.queue s.common_ready_task_queue)) in
      if Queue.was_empty env.queue s.common_ready_task_queue then (s, ok tt) else rest

  abbrev discarded_own : ℕ → Worker Q → Runtime Q Op W → Option ℕ × Q → Runtime Q Op W
  discarded_own i w s (task, q) = record s {
    task_workers = set s.task_workers i (record w { ready_task_queue = q });
    active_task_count = discount task s.active_task_count;
  }

  -- The loop that empties the worker's own queue; `w` is the worker as it is in the state.
  unfoldable pub drain_own : ℕ → ℕ → Worker Q → M (Runtime Q Op W) (Unit {0})
  drain_own zero i w s = (s, blocked)
  drain_own (suc fuel) i w s =
      let popped = Queue.pop env.queue w.ready_task_queue in
      let rest =
        drain_own fuel i (record w { ready_task_queue = popped.1 }) (discarded_own i w s popped) in
      if Queue.was_empty env.queue w.ready_task_queue then (s, ok tt) else rest

  -- The branch of `taskWorkerLoop` for a forced termination. Each loop ends after one round for each
  -- item and one more.
  unfoldable pub clear_queues : ℕ → M (Runtime Q Op W) (Unit {0})
  unfolding drain_common drain_own worker_at Queue.was_size
  clear_queues i = do
    s ← get
    drain_common (suc (Queue.was_size env.queue s.common_ready_task_queue))
    w ← worker_at i
    drain_own (suc (Queue.was_size env.queue w.ready_task_queue)) i w

  unfoldable pub pop_own : ℕ → M (Runtime Q Op W) (Option ℕ)
  unfolding worker_at put_worker
  pop_own i = do
    w ← worker_at i
    let (task, q) = Queue.pop env.queue w.ready_task_queue
    put_worker i (record w { ready_task_queue = q })
    pure task

  unfoldable pub pop_common : M (Runtime Q Op W) (Option ℕ)
  pop_common = do
    s ← get
    let (task, q) = Queue.pop env.queue s.common_ready_task_queue
    modify (λ s. record s { common_ready_task_queue = q })
    pure task

  abbrev or_common : Option ℕ → M (Runtime Q Op W) (Option ℕ)
  or_common none = pop_common
  or_common (some task) = pure (some task)

  -- The worker's own queue, then the common one.
  unfoldable pub next_task : ℕ → M (Runtime Q Op W) (Option ℕ)
  unfolding pop_own pop_common
  next_task i = pop_own i >>= or_common

  -- The state after a pending operation was asked.
  abbrev pub asked : W → Runtime Q Op W → Runtime Q Op W
  asked w s = record s { world = w }

  -- `task->getPendingOperations().pop_front()`, where `rest` is what is left.
  unfoldable pub pop_front : ℕ → List Op → M (Runtime Q Op W) (Unit {0})
  unfolding Task.update
  pop_front task rest = modify λ s. record s {
    tasks = Task.update task (λ t. record t { pending_operations = rest }) s.tasks;
  }

  -- The loop over the pending operations of a task, of which `ops` are left.
  unfoldable pub poll : ℕ → List Op → M (Runtime Q Op W) (Option ℕ)
  unfolding resume_task pop_front
  poll task [] s = (s, ok (some task))
  poll task (op ∷ rest) s =
      let (result, w) = env.check op s.world in
      let satisfied = (pop_front task rest >> poll task rest) (asked w s) in
      let unsatisfied = (resume_task env task >> pure none) (asked w s) in
      if result then satisfied else unsatisfied

  abbrev pub poll_task : Option ℕ → M (Runtime Q Op W) (Option ℕ)
  poll_task none = pure none
  poll_task (some task) = do s ← get; poll task (Task.get_pending_operations (s.tasks task))

  -- `checkTaskWorkerSuspension(worker)`: the clock is read only if the first two conditions hold.
  unfoldable pub check_task_worker_suspension : ℕ → M (Runtime Q Op W) (Unit {0})
  unfolding now worker_at Worker.get_has_failed_to_retrieve_task
      Worker.get_time_since_failed_to_retrieve_task_ms
  check_task_worker_suspension i = do
    w ← worker_at i
    s ← get
    when
        (leb_ℤ (pos 0) s.task_worker_inactivity_time_ms && Worker.get_has_failed_to_retrieve_task w)
        do
          t ← now env
          when
              (ltb (to_size_t s.task_worker_inactivity_time_ms)
                  (Worker.get_time_since_failed_to_retrieve_task_ms t w)
                && ltb s.minimum_active_task_workers s.active_task_worker_count)
              (call (suspend_worker (task_worker i)))

  -- `worker->setFailedToRetrieveTask()`: the clock is read only on the first failure.
  unfoldable pub set_failed : ℕ → M (Runtime Q Op W) (Unit {0})
  unfolding now worker_at put_worker Worker.set_failed_to_retrieve_task
      Worker.get_has_failed_to_retrieve_task
  set_failed i = do
    w ← worker_at i
    when (not (Worker.get_has_failed_to_retrieve_task w))
        do t ← now env; put_worker i (Worker.set_failed_to_retrieve_task t w)

  -- What follows the search for a task.
  unfoldable pub settle : ℕ → Option ℕ → M (Runtime Q Op W) (Unit {0})
  unfolding set_failed check_task_worker_suspension check_termination worker_at put_worker
      Worker.reset_retrieve_task_success_flag
  settle i none = do
    set_failed i
    check_task_worker_suspension i
    _ ← check_termination (task_worker i)
    pure tt
  settle i (some task) = do
    w ← worker_at i
    put_worker i (Worker.reset_retrieve_task_success_flag w)

  -- `taskWorkerLoop(taskWorkerId)`.
  unfoldable pub task_worker_loop : ℕ → M (Runtime Q Op W) (Option ℕ)
  unfolding clear_queues next_task poll settle worker_at service_round Task.get_pending_operations
  task_worker_loop i = do
    modify (λ s. record s { active_task_worker_count = inc64 s.active_task_worker_count })
    _ ← worker_at i
    s ← get
    when s.force_terminate (clear_queues i)
    s ← get
    when s.make_task_workers_run_services (service_round env)
    found ← next_task i
    task ← poll_task found
    settle i task
    modify (λ s. record s { active_task_worker_count = dec64 s.active_task_worker_count })
    pure task

  -- `checkResumeWorker(worker)`, on the state in which it is asked.
  unfoldable pub check_resume_worker : ℕ → Worker Q → Runtime Q Op W → Bool
  unfolding Queue.was_empty
  check_resume_worker i worker s =
      if leb s.active_task_worker_count s.minimum_active_task_workers
      then true
      else if env.is_resuming (task_worker i) s.calls s.world
      then true
      else if s.active_task_count == 0
      then true
      else if not (Queue.was_empty env.queue worker.ready_task_queue)
      then true
      else false
