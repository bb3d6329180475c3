-- ===== src/Runtime/Lifecycle.antt =====
-- `initialize`, `run`, `await` and `finalize` of include/taskr/runtime.hpp, and the small setters.
pub mod Loops
pub mod Invariant
use task_r.Base.{
  ℕ, zero, suc, ◌+◌, ◌-◌, Bool, true, false, List, [], ◌∷◌, ◌++◌, Option, none, some, get_elem?,
  map, length, leb, M, get, modify, fault, pure, throw_if, already_initialized, no_processing_units,
  too_many_service_workers, run_uninitialized, run_running, await_not_running,
  finalize_uninitialized, finalize_running, ◌>>=◌, ◌>>◌,
}
use task_r.Queue
use task_r.Service.{Service}
use task_r.Worker
use task_r.Worker.{Worker}
use task_r.Runtime.State.{
  Runtime, Environment, State, uninitialized, initialized, running, WorkerRef, service_worker,
  task_worker, Call, initialize_worker, start_worker, await_worker, call,
}

-- `==` on `state_t`.
abbrev pub is_uninitialized : State → Bool
is_uninitialized uninitialized = true
is_uninitialized initialized = false
is_uninitialized running = false

abbrev pub is_running : State → Bool
is_running uninitialized = false
is_running initialized = false
is_running running = true

abbrev pub not_running : State → Bool
not_running uninitialized = true
not_running initialized = true
not_running running = false

abbrev pub initialized_already : State → Bool
initialized_already uninitialized = false
initialized_already initialized = true
initialized_already running = true

abbrev pub is_empty : List ℕ → Bool
is_empty [] = true
is_empty (r ∷ rs) = false

module _ {Q Op W : Type 0} (env : Environment Q Op W) where
  -- The body of the first loop of `initialize`, on a compute resource.
  unfoldable pub new_service_worker : ℕ → ℕ → Worker Q
  unfolding Worker.create Queue.create
  new_service_worker id resource = record (Worker.create env.queue id) {
    callback_map_set = true;
    processing_unit = some (env.create_processing_unit resource);
  }

  -- The body of the second loop of `initialize`.
  unfoldable pub new_task_worker : ℕ → ℕ → ℕ → Worker Q
  unfolding Worker.create Queue.create
  new_task_worker id interval resource = record (Worker.create env.queue id) {
    callback_map_set = true;
    check_resume_set = true;
    suspend_interval = some interval;
    processing_unit = some (env.create_processing_unit resource);
  }

  abbrev push_service_worker : ℕ → Option ℕ → M (Runtime Q Op W) (Unit {0})
  push_service_worker id none = fault
  push_service_worker id (some resource) =
      modify
        λ s. record s { service_workers = s.service_workers ++ new_service_worker id resource ∷ [] }

  -- The first loop: `n` rounds are left, and the next resource and identifier are given.
  unfoldable pub create_service_workers : (n resource id : ℕ) → M (Runtime Q Op W) (Unit {0})
  create_service_workers zero resource id = pure tt
  create_service_workers (suc n) resource id = do
    s ← get
    push_service_worker id (get_elem? s.compute_resources resource)
    create_service_workers n (resource + 1) (id + 1)

  abbrev push_task_worker : ℕ → Option ℕ → M (Runtime Q Op W) (Unit {0})
  push_task_worker id none = fault
  push_task_worker id (some resource) = modify λ s. record s {
    task_workers =
        s.task_workers ++ new_task_worker id s.task_worker_suspend_interval_time_ms resource ∷ [];
  }

  -- The second loop.
  unfoldable pub create_task_workers : (n resource id : ℕ) → M (Runtime Q Op W) (Unit {0})
  create_task_workers zero resource id = pure tt
  create_task_workers (suc n) resource id = do
    s ← get
    push_task_worker id (get_elem? s.compute_resources resource)
    create_task_workers n (resource + 1) (id + 1)

  -- `initialize()`.
  unfoldable pub initialize : M (Runtime Q Op W) (Unit {0})
  unfolding create_service_workers create_task_workers
  initialize = do
    s ← get
    throw_if (initialized_already s.state) already_initialized
    throw_if (is_empty s.compute_resources) no_processing_units
    throw_if (leb (length s.compute_resources) s.service_worker_count) too_many_service_workers
    create_service_workers s.service_worker_count 0 0
    create_task_workers (length s.compute_resources - s.service_worker_count) s.service_worker_count
        0
    modify (λ s. record s { state = initialized })

module _ {Q Op W : Type 0} where
  -- `for (auto &w : workers) w->…()`: one call for each worker.
  abbrev calls_of : (WorkerRef → Call) → Runtime Q Op W → List Call
  calls_of c s =
      map (λ (w : Worker Q). c (service_worker w.worker_id)) s.service_workers
      ++ map (λ (w : Worker Q). c (task_worker w.worker_id)) s.task_workers

  abbrev call_all : (WorkerRef → Call) → M (Runtime Q Op W) (Unit {0})
  call_all c = modify λ s. record s { calls = s.calls ++ calls_of c s }

  -- `run()`.
  unfoldable pub run : M (Runtime Q Op W) (Unit {0})
  run = do
    modify (λ s. record s { force_terminate = false })
    s ← get
    throw_if (is_uninitialized s.state) run_uninitialized
    throw_if (is_running s.state) run_running
    modify (λ s. record s { state = running })
    call_all initialize_worker
    call_all start_worker

  -- `await()`.
  unfoldable pub await : M (Runtime Q Op W) (Unit {0})
  await = do
    s ← get
    throw_if (not_running s.state) await_not_running
    call_all await_worker
    modify (λ s. record s { state = initialized })

  -- `finalize()`.
  unfoldable pub finalize : M (Runtime Q Op W) (Unit {0})
  finalize = do
    s ← get
    throw_if (is_uninitialized s.state) finalize_uninitialized
    throw_if (is_running s.state) finalize_running
    modify (λ s. record s { service_workers = []; task_workers = [] })
    modify (λ s. record s { state = uninitialized })

  -- `forceTermination()`, `setFinishOnLastTask(value)` and `getActiveTaskCounter()`.
  unfoldable pub force_termination : Runtime Q Op W → Runtime Q Op W
  force_termination s = record s { force_terminate = true }

  unfoldable pub set_finish_on_last_task : Bool → Runtime Q Op W → Runtime Q Op W
  set_finish_on_last_task value s = record s { finish_on_last_task = value }

  unfoldable pub get_active_task_counter : Runtime Q Op W → ℕ
  get_active_task_counter s = s.active_task_count
