-- ===== src/Runtime/Execution.antt =====
-- A whole run: tasks are added, and the task workers take them, execute them and finish them, in any
-- order. The threads and the execution of tasks are the tasking frontend's: it asks the runtime for
-- a task only while it executes none, and calls the runtime back where a task is suspended or done.
pub mod Lists
pub mod Frames
pub mod Invariant
pub mod Additions
pub mod Finishes
pub mod Safety
use task_r.Base.{
  ℕ, suc, ◌+◌, ◌^◌, ◌<◌, ◌≡◌, ◌==◌, ◌||◌, ◌++◌, if◌then◌else◌, Bool, true, false, List, [], ◌∷◌,
  Option, none, some, get_elem?, length, All, ok, ℤ, pos, leb_ℤ,
}
use task_r.Task
use task_r.Task.{Task, Store, Function}
use task_r.Task.Graph.{count}
use task_r.Task.Order.{created, depend_on}
use task_r.Worker.{Worker}
use task_r.Runtime.State.{Runtime, Environment, on_task_finish, on_task_suspend}
use task_r.Runtime.Queued.{RoomFor, queued}
use task_r.Runtime.Tasks.{add_task, resume_task, on_task_finish_callback, on_task_suspend_callback}
use task_r.Runtime.Scheduling.{task_worker_loop}

-- The runtime, the pairs of a worker and the task that it executes, and the tasks that were added
-- and are not finished, the newest first.
pub record Execution (Q Op W : Type 0) : Type 0 where
  pub runtime : Runtime Q Op W
  pub executing : List (ℕ × ℕ)
  pub unfinished : List ℕ

abbrev pub is_busy : ℕ → List (ℕ × ℕ) → Bool
is_busy i [] = false
is_busy i ((j, t) ∷ rest) = i == j || is_busy i rest

-- How often a task is being executed.
abbrev pub executes : ℕ → List (ℕ × ℕ) → ℕ
executes t [] = 0
executes t ((j, u) ∷ rest) = (if u == t then 1 else 0) + executes t rest

abbrev pub given_out : ℕ → Option ℕ → List (ℕ × ℕ) → List (ℕ × ℕ)
given_out i none e = e
given_out i (some t) e = (i, t) ∷ e

-- The task adds pending operations to itself before it suspends.
abbrev pub pends : {Op : Type 0} → ℕ → List Op → Store Op → Store Op
pends t [] store = store
pends t (op ∷ ops) store = pends t ops (Task.update t (Task.add_pending_operation op) store)

module _ {Q Op W : Type 0} (env : Environment Q Op W) where
  -- The user's handlers: that of a finished task leaves the runtime alone, and that of a suspended
  -- one resumes the task, as in the examples of the repository.
  pub record Handlers : Type 0 where
    pub finish : (t : ℕ) (s : Runtime Q Op W) → env.trigger on_task_finish t s ≡ (s, ok tt)
    pub suspend :
        (t : ℕ) (s : Runtime Q Op W) → env.trigger on_task_suspend t s ≡ resume_task env t s

  -- `addTask` of a new task that depends on unfinished ones, a turn of a worker, a task that
  -- suspends, and a task that is done. The queues are assumed to have room.
  pub data Step (x x' : Execution Q Op W) : Type 0 where
    adds :
        (t : ℕ) (task_id : Option ℕ) (fc : Function) (affinity : ℤ) (ds : List ℕ)
        (r : Runtime Q Op W)
        → count t x.unfinished ≡ 0
        → All (λ d. count d x.unfinished ≡ 1) ds
        → length ds < 2 ^ 64
        → length x.unfinished + 1 < 2 ^ 64
        → leb_ℤ (pos (length x.runtime.task_workers)) affinity ≡ false
        → add_task env t (record x.runtime {
          tasks = depend_on t ds (created t task_id fc affinity x.runtime.tasks);
        })
          ≡ (r, ok tt)
        → x' ≡ record x { runtime = r; unfinished = t ∷ x.unfinished }
        → Step x x'
    turns :
        (i : ℕ) (w : Worker Q) (found : Option ℕ) (r : Runtime Q Op W)
        → get_elem? x.runtime.task_workers i ≡ some w
        → is_busy i x.executing ≡ false
        → RoomFor env.queue 1 x.runtime
        → task_worker_loop env i x.runtime ≡ (r, ok found)
        → x' ≡ record x { runtime = r; executing = given_out i found x.executing }
        → Step x x'
    suspends :
        (i t : ℕ) (ops : List Op) (before later : List (ℕ × ℕ)) (r : Runtime Q Op W)
        → x.executing ≡ before ++ (i, t) ∷ later
        → on_task_suspend_callback env t (record x.runtime { tasks = pends t ops x.runtime.tasks })
          ≡ (r, ok tt)
        → x' ≡ record x { runtime = r; executing = before ++ later }
        → Step x x'
    finishes :
        (i t : ℕ) (before later : List (ℕ × ℕ)) (newer older : List ℕ) (r : Runtime Q Op W)
        → x.executing ≡ before ++ (i, t) ∷ later
        → x.unfinished ≡ newer ++ t ∷ older
        → RoomFor env.queue (length (x.runtime.tasks t).output_dependencies) x.runtime
        → on_task_finish_callback env t x.runtime ≡ (r, ok tt)
        → x' ≡ record x { runtime = r; executing = before ++ later; unfinished = newer ++ older }
        → Step x x'

  -- A runtime to which no task was added: no counter of a dependency is set, and all is empty.
  pub record IsFresh (r : Runtime Q Op W) : Type 0 where
    pub calm : r.force_terminate ≡ false
    pub alone : r.make_task_workers_run_services ≡ false
    pub polling : r.active_task_worker_count < 2 ^ 64
    pub inactive : r.active_task_count ≡ 0
    pub empty : (t : ℕ) → queued env.queue t r ≡ 0
    pub unused : (t : ℕ) → (r.tasks t).dependency_count ≡ 0

  -- The states that a run can get to.
  pub data Reach : Execution Q Op W → Type 0 where
    starts :
        (r : Runtime Q Op W)
        → IsFresh r
        → Reach (record { runtime = r; executing = []; unfinished = [] })
    next : {x x' : Execution Q Op W} → Reach x → Step x x' → Reach x'
