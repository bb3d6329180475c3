-- ===== src/Task.antt =====
-- include/taskr/task.hpp, taskImpl.hpp and function.hpp: the scheduling unit and its dependencies.
-- A task is known by its address, a number; `Op` is the type of the functions that are its pending
-- operations. Tasks point at one another, so they stand in a store.
pub mod Graph
pub mod Order
use task_r.Base.{
  ℕ, ◌≡◌, ℤ, Bool, false, true, Option, none, some, List, [], ◌∷◌, ◌++◌, ◌==◌, if◌then◌else◌, inc64,
  dec64,
}

-- The execution unit is what the backend's `createExecutionUnit` makes of the user's function, and
-- the callback map is the base class's pointer, null at first. A task made without an identifier
-- leaves it uninitialised.
pub record Task (Op : Type 0) : Type 0 where
  pub task_id : Option ℕ
  pub execution_unit : ℕ
  pub callback_map_set : Bool
  pub worker_affinity : ℤ
  pub pending_operations : List Op
  pub dependency_count : ℕ
  pub output_dependencies : List ℕ

-- `Function(computeManager, fc)` and `getExecutionUnit()`, over the backend's `createExecutionUnit`.
pub record Function : Type 0 where
  pub execution_unit : ℕ

unfoldable pub create_function : (ℕ → ℕ) → ℕ → Function
create_function create_execution_unit fc = record { execution_unit = create_execution_unit fc }

unfoldable pub get_execution_unit : Function → ℕ
get_execution_unit f = f.execution_unit

-- The tasks by address.
abbrev pub Store : Type 0 → Type 0
Store Op = ℕ → Task Op

-- The store with the task at an address changed.
unfoldable pub update : {Op : Type 0} → ℕ → (Task Op → Task Op) → Store Op → Store Op
update t f store u = if t == u then f (store u) else store u

module _ {Op : Type 0} where
  -- `Task(fc, workerAffinity)`.
  unfoldable pub create : Function → ℤ → Task Op
  unfolding get_execution_unit
  create fc worker_affinity = record {
    task_id = none;
    execution_unit = get_execution_unit fc;
    callback_map_set = false;
    worker_affinity = worker_affinity;
    pending_operations = [];
    dependency_count = 0;
    output_dependencies = [];
  }

  -- `Task(taskId, fc, workerAffinity)`.
  unfoldable pub create_with_id : ℕ → Function → ℤ → Task Op
  unfolding get_execution_unit
  create_with_id task_id fc worker_affinity = record {
    task_id = some task_id;
    execution_unit = get_execution_unit fc;
    callback_map_set = false;
    worker_affinity = worker_affinity;
    pending_operations = [];
    dependency_count = 0;
    output_dependencies = [];
  }

  unfoldable pub get_worker_affinity : Task Op → ℤ
  get_worker_affinity task = task.worker_affinity

  unfoldable pub set_worker_affinity : ℤ → Task Op → Task Op
  set_worker_affinity a task = record task { worker_affinity = a }

  unfoldable pub get_task_id : Task Op → Option ℕ
  get_task_id task = task.task_id

  unfoldable pub set_task_id : ℕ → Task Op → Task Op
  set_task_id i task = record task { task_id = some i }

  unfoldable pub add_pending_operation : Op → Task Op → Task Op
  add_pending_operation op task = record task {
    pending_operations = task.pending_operations ++ op ∷ [];
  }

  unfoldable pub get_pending_operations : Task Op → List Op
  get_pending_operations task = task.pending_operations

  unfoldable pub get_dependency_count : Task Op → ℕ
  get_dependency_count task = task.dependency_count

  -- The atomic updates of the counter; the new value is what `get_dependency_count` then reads.
  unfoldable pub increment_dependency_count : Task Op → Task Op
  increment_dependency_count task = record task { dependency_count = inc64 task.dependency_count }

  unfoldable pub decrement_dependency_count : Task Op → Task Op
  decrement_dependency_count task = record task { dependency_count = dec64 task.dependency_count }

  unfoldable pub add_output_dependency : ℕ → Task Op → Task Op
  add_output_dependency t task = record task {
    output_dependencies = task.output_dependencies ++ t ∷ [];
  }

  unfoldable pub get_output_dependencies : Task Op → List ℕ
  get_output_dependencies task = task.output_dependencies

  -- `addDependency(dependedTask)` called on the task at `t`.
  unfoldable pub add_dependency : (t depended : ℕ) → Store Op → Store Op
  unfolding update increment_dependency_count add_output_dependency
  add_dependency t depended store =
      update depended (add_output_dependency t) (update t increment_dependency_count store)
