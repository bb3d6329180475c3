-- ===== src/Runtime/State.antt =====
-- The state of the runtime in include/taskr/runtime.hpp, and what it is given from outside.
use task_r.Base.{ℕ, ℤ, Bool, List, [], ◌∷◌, ◌++◌, M, modify}
use task_r.Queue.{AtomicQueue}
use task_r.Service.{Service}
use task_r.Task.{Store}
use task_r.Worker.{Worker}

-- `state_t`.
pub data State : Type 0 where
  uninitialized : State
  initialized : State
  running : State

-- A pointer to a worker: its place among the service workers or the task workers.
pub data WorkerRef : Type 0 where
  service_worker : ℕ → WorkerRef
  task_worker : ℕ → WorkerRef

-- The calls of the tasking frontend's worker, in the order in which they are made.
pub data Call : Type 0 where
  initialize_worker : WorkerRef → Call
  start_worker : WorkerRef → Call
  await_worker : WorkerRef → Call
  resume_worker : WorkerRef → Call
  suspend_worker : WorkerRef → Call
  terminate_worker : WorkerRef → Call

-- The events of a task that a callback can be set for.
pub data TaskEvent : Type 0 where
  on_task_execute : TaskEvent
  on_task_finish : TaskEvent
  on_task_suspend : TaskEvent
  on_task_sync : TaskEvent

-- `world` is the state of all that pending operations and clocks look at, and `calls` the calls
-- made of the frontend's workers.
pub record Runtime (Q Op W : Type 0) : Type 0 where
  pub force_terminate : Bool
  pub state : State
  pub task_workers : List (Worker Q)
  pub service_workers : List (Worker Q)
  pub active_task_worker_count : ℕ
  pub active_task_count : ℕ
  pub common_ready_task_queue : Q
  pub compute_resources : List ℕ
  pub service_queue : Q
  pub task_worker_inactivity_time_ms : ℤ
  pub task_worker_suspend_interval_time_ms : ℕ
  pub minimum_active_task_workers : ℕ
  pub service_worker_count : ℕ
  pub make_task_workers_run_services : Bool
  pub finish_on_last_task : Bool
  pub tasks : Store Op
  pub services : ℕ → Service
  pub world : W
  pub calls : List Call

-- What is not in the repository: the lock-free queue, the clock, the functions of the user (pending
-- operations, services, callbacks of tasks), the state of the frontend's workers, and the backend's
-- processing units.
pub record Environment (Q Op W : Type 0) : Type 0 where
  pub queue : AtomicQueue Q
  pub read_clock : W → ℕ × W
  pub check : Op → W → Bool × W
  pub service_function : ℕ → M (Runtime Q Op W) (Unit {0})
  pub trigger : TaskEvent → ℕ → M (Runtime Q Op W) (Unit {0})
  pub is_resuming : WorkerRef → List Call → W → Bool
  pub create_processing_unit : ℕ → ℕ

-- One more call of a worker of the frontend.
abbrev pub call : {Q Op W : Type 0} → Call → M (Runtime Q Op W) (Unit {0})
call c = modify λ s. record s { calls = s.calls ++ c ∷ [] }
