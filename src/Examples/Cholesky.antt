-- ===== src/Examples/Cholesky.antt =====
-- examples/cholesky/source/cholesky.hpp: the task graph of a Cholesky decomposition by blocks. What a
-- task computes in its blocks is LAPACK's and BLAS's: a task is known by the blocks that it works on.
pub mod Schedule
pub mod Writers
pub mod Graph
pub mod Order
use task_r.Base.{
  for_from, ℕ, zero, suc, ◌+◌, ◌-◌, ◌==◌, ◌||◌, ◌&&◌, Bool, true, false, List, [], ◌∷◌, ◌++◌, some,
  M, get, modify, pure, ◌>>=◌, ◌>>◌, if◌then◌else◌, inc64, negsuc, Outcome,
}
use task_r.Task
use task_r.Task.{Function, Store}
use task_r.Task.Order.{depend_on}
use task_r.Runtime.State.{Runtime, Environment}
use task_r.Runtime.Tasks.{add_task}

-- A block of the matrix: its row and its column.
abbrev pub Cell : Type 0
Cell = ℕ × ℕ

-- The four kernels, with the loop indices of the call in `cholesky`.
pub data Kernel : Type 0 where
  potrf : (i : ℕ) → Kernel
  trsm : (i j : ℕ) → Kernel
  gemm : (i j k : ℕ) → Kernel
  syrk : (i j : ℕ) → Kernel

-- The blocks whose memory the kernel gets, in the order of its arguments.
abbrev pub operands : Kernel → List Cell
operands (potrf i) = (i, i) ∷ []
operands (trsm i j) = (i, i) ∷ (i, j) ∷ []
operands (gemm i j k) = (i, k) ∷ (i, j) ∷ (k, j) ∷ []
operands (syrk i j) = (i, j) ∷ (j, j) ∷ []

-- The last of its blocks, which the kernel changes in place.
abbrev last_of : Cell → List Cell → Cell
last_of c [] = c
last_of c (d ∷ ds) = last_of d ds

abbrev pub changed : Kernel → Cell
changed k = last_of (0, 0) (operands k)

-- The blocks for which `cholesky` calls `addTaskDependency`, in order.
abbrev pub accesses : Kernel → List Cell
accesses (potrf i) = (i, i) ∷ []
accesses (trsm i j) = (i, i) ∷ (i, j) ∷ []
accesses (gemm i j k) = (i, j) ∷ (i, k) ∷ (k, j) ∷ []
accesses (syrk i j) = (i, j) ∷ (j, j) ∷ []

-- The block for which it calls `updateDependencyGrid`.
abbrev pub output : Kernel → Cell
output (potrf i) = (i, i)
output (trsm i j) = (i, j)
output (gemm i j k) = (k, j)
output (syrk i j) = (j, j)

abbrev pub same_cell : Cell → Cell → Bool
same_cell (r, c) (r', c') = r == r' && c == c'

abbrev pub contains : ℕ → List ℕ → Bool
contains t [] = false
contains t (u ∷ us) = u == t || contains t us

-- `emplace` of a set of tasks, whose order is that of their insertion, the newest first.
abbrev pub emplace : ℕ → List ℕ → List ℕ
emplace t ts = if contains t ts then ts else t ∷ ts

-- `_dependencyGrid`, `_taskCounter` and the runtime. A new task's address is its identifier.
pub record Building (Q Op W : Type 0) : Type 0 where
  pub dependency_grid : ℕ → ℕ → List ℕ
  pub task_counter : ℕ
  pub runtime : Runtime Q Op W

module _ {Q Op W : Type 0} where
  abbrev pub with_tasks : (Store Op → Store Op) → Building Q Op W → Building Q Op W
  with_tasks f b = record b { runtime = record b.runtime { tasks = f b.runtime.tasks } }

  -- `addTaskDependency(task, row, column)`.
  unfoldable pub add_task_dependency : ℕ → Cell → M (Building Q Op W) (Unit {0})
  add_task_dependency t (row, column) =
      modify λ b. with_tasks (depend_on t (b.dependency_grid row column)) b

  unfoldable pub add_task_dependencies : ℕ → List Cell → M (Building Q Op W) (Unit {0})
  unfolding add_task_dependency
  add_task_dependencies t [] = pure tt
  add_task_dependencies t (c ∷ cs) = add_task_dependency t c >> add_task_dependencies t cs

  -- `updateDependencyGrid(task, row, column)`.
  unfoldable pub update_dependency_grid : ℕ → Cell → M (Building Q Op W) (Unit {0})
  update_dependency_grid t (row, column) = modify λ b. record b {
    dependency_grid = λ r c.
        if same_cell (row, column) (r, c)
        then emplace t (b.dependency_grid r c)
        else b.dependency_grid r c;
  }

  -- `new taskr::Task(_taskCounter->fetch_add(1), executionUnit)`.
  unfoldable pub new_task : Function → M (Building Q Op W) ℕ
  unfolding Task.update Task.create_with_id
  new_task fc b = (
    record (with_tasks
        (Task.update b.task_counter (λ _. Task.create_with_id b.task_counter fc (negsuc 0))) b) {
          task_counter = inc64 b.task_counter;
        },
    Outcome.ok b.task_counter,
  )

module _ {Q Op W : Type 0} (env : Environment Q Op W) (function : Kernel → Function) where
  abbrev added :
      Building Q Op W → Runtime Q Op W × Outcome (Unit {0}) → Building Q Op W × Outcome (Unit {0})
  added b (r, o) = (record b { runtime = r }, o)

  -- The task of a kernel: it is made, gets its dependencies, enters the grid and is added.
  unfoldable pub spawn : Kernel → M (Building Q Op W) (Unit {0})
  unfolding new_task add_task_dependencies update_dependency_grid add_task
  spawn kernel = do
    t ← new_task (function kernel)
    add_task_dependencies t (accesses kernel)
    update_dependency_grid t (output kernel)
    λ b. added b (add_task env t b.runtime)

  -- `cholesky(taskr, blockMatrix, blocks, blockSize)`.
  unfoldable pub cholesky : (blocks : ℕ) → M (Building Q Op W) (Unit {0})
  unfolding spawn
  cholesky blocks = for_from 0 blocks λ i. do
    spawn (potrf i)
    for_from (i + 1) (blocks - (i + 1)) (λ j. spawn (trsm i j))
    for_from (i + 1) (blocks - (i + 1))
        λ j. do for_from (i + 1) (j - (i + 1)) (λ k. spawn (gemm i j k)); spawn (syrk i j)
