-- ===== src/Tests/Samples.antt =====
-- Small runtimes over the list queue. A pending operation is its own answer, and the clock's reading
-- is the world.
use task_r.Base.{
  ℕ, ℤ, pos, negsuc, Bool, true, false, List, [], ◌∷◌, none, some, ok, ◌==◌, if◌then◌else◌,
}
use task_r.Queue.{Bounded, bounded}
use task_r.Service.{Service}
use task_r.Task.{Task, Store}
use task_r.Worker.{Worker}
use task_r.Runtime.State.{Runtime, Environment, uninitialized, running}

abbrev pub env : Environment Bounded Bool ℕ
env = record {
  queue = bounded;
  read_clock = λ w. (w, w);
  check = λ op w. (op, w);
  service_function = λ i s. (s, ok tt);
  trigger = λ e t s. (s, ok tt);
  is_resuming = λ r calls w. false;
  create_processing_unit = λ r. r;
}

abbrev pub items : List ℕ → Bounded
items xs = record { items = xs; room = 8 }

abbrev pub plain_task : (affinity : ℤ) → (count : ℕ) → List ℕ → List Bool → Task Bool
plain_task affinity count outputs pending = record {
  task_id = none;
  execution_unit = 0;
  callback_map_set = true;
  worker_affinity = affinity;
  pending_operations = pending;
  dependency_count = count;
  output_dependencies = outputs;
}

-- Tasks 2 and 3 wait for task 1, and task 3 for task 4 too. Task 5 belongs to worker 1, and task 6 to
-- a worker that does not exist. Task 7 waits for an operation.
abbrev pub tasks : Store Bool
tasks t =
    if t == 1
    then plain_task (negsuc 0) 0 (2 ∷ 3 ∷ []) []
    else if t == 2
    then plain_task (negsuc 0) 1 [] []
    else if t == 3
    then plain_task (negsuc 0) 2 [] []
    else if t == 4
    then plain_task (negsuc 0) 0 (3 ∷ []) []
    else if t == 5
    then plain_task (pos 1) 0 [] []
    else if t == 6
    then plain_task (pos 9) 0 [] []
    else if t == 7
    then plain_task (negsuc 0) 0 [] (true ∷ false ∷ [])
    else plain_task (negsuc 0) 0 [] []

abbrev pub worker : ℕ → List ℕ → Worker Bounded
worker i xs = record {
  worker_id = i;
  check_resume_set = true;
  has_failed_to_retrieve_task = true;
  failed_to_retrieve_task_time = 0;
  ready_task_queue = items xs;
  callback_map_set = true;
  suspend_interval = some 1;
  processing_unit = some i;
}

abbrev pub service : ℕ → Service
service i = record { interval = 2; enabled = true; last_execution_time = 1_000_000 }

-- A runtime with two task workers that runs.
abbrev pub running_with : (own common : List ℕ) → (active now : ℕ) → Runtime Bounded Bool ℕ
running_with own common active now = record {
  force_terminate = false;
  state = running;
  task_workers = worker 0 own ∷ worker 1 [] ∷ [];
  service_workers = [];
  active_task_worker_count = 2;
  active_task_count = active;
  common_ready_task_queue = items common;
  compute_resources = 10 ∷ 11 ∷ [];
  service_queue = items (30 ∷ 31 ∷ []);
  task_worker_inactivity_time_ms = pos 10;
  task_worker_suspend_interval_time_ms = 1;
  minimum_active_task_workers = 1;
  service_worker_count = 0;
  make_task_workers_run_services = false;
  finish_on_last_task = true;
  tasks = tasks;
  services = service;
  world = now;
  calls = [];
}

-- A runtime that was constructed only, for three compute resources and one service worker.
abbrev pub fresh : Runtime Bounded Bool ℕ
fresh = record (running_with [] [] 0 0) {
  state = uninitialized;
  task_workers = [];
  compute_resources = 10 ∷ 11 ∷ 12 ∷ [];
  service_worker_count = 1;
}

-- The same, where no task has an affinity.
abbrev pub unbound_with : (own common : List ℕ) → (active now : ℕ) → Runtime Bounded Bool ℕ
unbound_with own common active now = record (running_with own common active now) {
  tasks = λ t. plain_task (negsuc 0) 0 [] (if t == 7 then true ∷ false ∷ [] else []);
}
