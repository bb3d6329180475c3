-- ===== src/Runtime/Callbacks.antt =====
-- The callback maps of include/taskr/runtime.hpp: what the constructor sets in them, the setters of
-- the user, and the callbacks for tasks and workers as they reach the user's functions. A user's
-- function is a number.
pub mod Handlers
use task_r.Base.{ℕ, Bool, true, false, Option, none, some, List, [], ◌∷◌, ◌≡◌, if◌then◌else◌}
use task_r.Runtime.State.{TaskEvent, on_task_execute, on_task_finish, on_task_suspend, on_task_sync}

-- `HiCR::tasking::CallbackMap`, which is not in the repository: at most one function for each event,
-- the one set last, which `trigger` calls where there is one.
pub record CallbackMap (Map E F : Type 0) (same : E → E → Bool) : Type 0 where
  pub empty : Map
  pub set_callback : Map → E → F → Map
  pub trigger : Map → E → Option F
  pub trigger-empty : (e : E) → trigger empty e ≡ none
  pub trigger-set :
      (m : Map) (e e' : E) (f : F)
      → trigger (set_callback m e f) e' ≡ (if same e e' then some f else trigger m e')

-- The events of a worker.
pub data WorkerEvent : Type 0 where
  on_worker_start : WorkerEvent
  on_worker_suspend : WorkerEvent
  on_worker_resume : WorkerEvent
  on_worker_terminate : WorkerEvent

abbrev pub same_worker_event : WorkerEvent → WorkerEvent → Bool
same_worker_event on_worker_start on_worker_start = true
same_worker_event on_worker_suspend on_worker_suspend = true
same_worker_event on_worker_resume on_worker_resume = true
same_worker_event on_worker_terminate on_worker_terminate = true
same_worker_event _ _ = false

abbrev pub same_task_event : TaskEvent → TaskEvent → Bool
same_task_event on_task_execute on_task_execute = true
same_task_event on_task_finish on_task_finish = true
same_task_event on_task_suspend on_task_suspend = true
same_task_event on_task_sync on_task_sync = true
same_task_event _ _ = false

-- What stands in the maps that the frontend triggers: a callback of the runtime, named by the event
-- it was written for, or a function of the user.
pub data Callback (E : Type 0) : Type 0 where
  own : E → Callback E
  user : ℕ → Callback E

-- The five maps of the runtime: two for tasks and three for workers.
pub record Callbacks (Tasks UserTasks Workers UserWorkers : Type 0) : Type 0 where
  pub hicr_task_callback_map : Tasks
  pub task_callback_map : UserTasks
  pub service_worker_callback_map : Workers
  pub task_worker_callback_map : Workers
  pub worker_callback_map : UserWorkers

-- The user's functions that a trigger of a map of them calls.
abbrev pub called : Option ℕ → List ℕ
called none = []
called (some f) = f ∷ []

module _ {T UT W UW : Type 0} (tasks : CallbackMap T TaskEvent (Callback TaskEvent) same_task_event)
    (user_tasks : CallbackMap UT TaskEvent ℕ same_task_event)
    (workers : CallbackMap W WorkerEvent (Callback WorkerEvent) same_worker_event)
    (user_workers : CallbackMap UW WorkerEvent ℕ same_worker_event) where
  abbrev set_own_task : T → TaskEvent → T
  set_own_task m e = tasks.set_callback m e (own e)

  abbrev set_own_worker : W → WorkerEvent → W
  set_own_worker m e = workers.set_callback m e (own e)

  -- The part of the constructor on a map of the workers.
  abbrev pub own_worker_callbacks : W
  own_worker_callbacks =
      set_own_worker
        (set_own_worker
          (set_own_worker (set_own_worker workers.empty on_worker_start) on_worker_suspend)
          on_worker_resume)
        on_worker_terminate

  -- The part of the constructor `Runtime(…)` on the callback maps.
  unfoldable pub set_callbacks : Callbacks T UT W UW
  set_callbacks = record {
    hicr_task_callback_map =
        set_own_task
          (set_own_task (set_own_task (set_own_task tasks.empty on_task_execute) on_task_finish)
            on_task_suspend)
          on_task_sync;
    task_callback_map = user_tasks.empty;
    service_worker_callback_map = own_worker_callbacks;
    task_worker_callback_map = own_worker_callbacks;
    worker_callback_map = user_workers.empty;
  }

  -- `setTaskCallbackHandler(event, fc)`.
  unfoldable pub set_task_callback_handler :
      TaskEvent → ℕ → Callbacks T UT W UW → Callbacks T UT W UW
  set_task_callback_handler e f c = record c {
    task_callback_map = user_tasks.set_callback c.task_callback_map e f;
  }

  -- `setServiceWorkerCallbackHandler(event, fc)`.
  unfoldable pub set_service_worker_callback_handler :
      WorkerEvent → ℕ → Callbacks T UT W UW → Callbacks T UT W UW
  set_service_worker_callback_handler e f c = record c {
    service_worker_callback_map = workers.set_callback c.service_worker_callback_map e (user f);
  }

  -- `setTaskWorkerCallbackHandler(event, fc)`.
  unfoldable pub set_task_worker_callback_handler :
      WorkerEvent → ℕ → Callbacks T UT W UW → Callbacks T UT W UW
  set_task_worker_callback_handler e f c = record c {
    task_worker_callback_map = workers.set_callback c.task_worker_callback_map e (user f);
  }

  -- `onWorkerStartCallback` and its siblings: the user's functions that they call.
  unfoldable pub on_worker_start_callback : Callbacks T UT W UW → List ℕ
  on_worker_start_callback c = called (user_workers.trigger c.worker_callback_map on_worker_start)

  unfoldable pub on_worker_suspend_callback : Callbacks T UT W UW → List ℕ
  on_worker_suspend_callback c =
      called (user_workers.trigger c.worker_callback_map on_worker_suspend)

  unfoldable pub on_worker_resume_callback : Callbacks T UT W UW → List ℕ
  on_worker_resume_callback c = called (user_workers.trigger c.worker_callback_map on_worker_resume)

  unfoldable pub on_worker_terminate_callback : Callbacks T UT W UW → List ℕ
  on_worker_terminate_callback c =
      called (user_workers.trigger c.worker_callback_map on_worker_terminate)

  abbrev worker_callback : Callbacks T UT W UW → Option (Callback WorkerEvent) → List ℕ
  worker_callback c none = []
  worker_callback c (some (user f)) = f ∷ []
  worker_callback c (some (own on_worker_start)) = on_worker_start_callback c
  worker_callback c (some (own on_worker_suspend)) = on_worker_suspend_callback c
  worker_callback c (some (own on_worker_resume)) = on_worker_resume_callback c
  worker_callback c (some (own on_worker_terminate)) = on_worker_terminate_callback c

  abbrev task_callback : Callbacks T UT W UW → Option (Callback TaskEvent) → List ℕ
  task_callback c none = []
  task_callback c (some (user f)) = f ∷ []
  task_callback c (some (own e)) = called (user_tasks.trigger c.task_callback_map e)

  -- The user's functions that run where the frontend triggers an event of a task worker, of a
  -- service worker, or of a task.
  unfoldable pub task_worker_event : WorkerEvent → Callbacks T UT W UW → List ℕ
  unfolding on_worker_start_callback on_worker_suspend_callback on_worker_resume_callback
      on_worker_terminate_callback
  task_worker_event e c = worker_callback c (workers.trigger c.task_worker_callback_map e)

  unfoldable pub service_worker_event : WorkerEvent → Callbacks T UT W UW → List ℕ
  unfolding on_worker_start_callback on_worker_suspend_callback on_worker_resume_callback
      on_worker_terminate_callback
  service_worker_event e c = worker_callback c (workers.trigger c.service_worker_callback_map e)

  unfoldable pub task_event : TaskEvent → Callbacks T UT W UW → List ℕ
  task_event e c = task_callback c (tasks.trigger c.hicr_task_callback_map e)
