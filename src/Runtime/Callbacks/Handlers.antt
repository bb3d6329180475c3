-- ===== src/Runtime/Callbacks/Handlers.antt =====
-- Which of the user's functions an event reaches, after any number of settings.
use task_r.Base.{ℕ, Option, none, some, List, [], ◌∷◌, ◌≡◌, if◌then◌else◌, arith, ◌⊎◌, Option-cases}
use task_r.Runtime.State.{TaskEvent, on_task_execute, on_task_finish, on_task_suspend, on_task_sync}
use task_r.Runtime.Callbacks.{
  CallbackMap, WorkerEvent, on_worker_start, on_worker_suspend, on_worker_resume,
  on_worker_terminate, same_worker_event, same_task_event, Callback, own, user, Callbacks, called,
  set_callbacks, own_worker_callbacks, set_task_callback_handler,
  set_service_worker_callback_handler, set_task_worker_callback_handler, task_worker_event,
  service_worker_event, task_event,
}

-- A call of one of the three setters.
pub data Setting : Type 0 where
  for_tasks : TaskEvent → ℕ → Setting
  for_service_workers : WorkerEvent → ℕ → Setting
  for_task_workers : WorkerEvent → ℕ → Setting

-- The function set last for an event, where there is one; `o` was set before.
abbrev pub last_for_task : TaskEvent → List Setting → Option ℕ → Option ℕ
last_for_task e [] o = o
last_for_task e (for_tasks e' f ∷ rest) o =
    last_for_task e rest (if same_task_event e' e then some f else o)
last_for_task e (for_service_workers e' f ∷ rest) o = last_for_task e rest o
last_for_task e (for_task_workers e' f ∷ rest) o = last_for_task e rest o

abbrev pub last_for_service_worker : WorkerEvent → List Setting → Option ℕ → Option ℕ
last_for_service_worker e [] o = o
last_for_service_worker e (for_tasks e' f ∷ rest) o = last_for_service_worker e rest o
last_for_service_worker e (for_service_workers e' f ∷ rest) o =
    last_for_service_worker e rest (if same_worker_event e' e then some f else o)
last_for_service_worker e (for_task_workers e' f ∷ rest) o = last_for_service_worker e rest o

abbrev pub last_for_task_worker : WorkerEvent → List Setting → Option ℕ → Option ℕ
last_for_task_worker e [] o = o
last_for_task_worker e (for_tasks e' f ∷ rest) o = last_for_task_worker e rest o
last_for_task_worker e (for_service_workers e' f ∷ rest) o = last_for_task_worker e rest o
last_for_task_worker e (for_task_workers e' f ∷ rest) o =
    last_for_task_worker e rest (if same_worker_event e' e then some f else o)

WorkerEvent-cases :
    (e : WorkerEvent)
    → (e ≡ on_worker_start)
      ⊎ (e ≡ on_worker_suspend)
      ⊎ (e ≡ on_worker_resume)
      ⊎ (e ≡ on_worker_terminate)
WorkerEvent-cases e = ground arith

module _ {T UT W UW : Type 0} (tasks : CallbackMap T TaskEvent (Callback TaskEvent) same_task_event)
    (user_tasks : CallbackMap UT TaskEvent ℕ same_task_event)
    (workers : CallbackMap W WorkerEvent (Callback WorkerEvent) same_worker_event)
    (user_workers : CallbackMap UW WorkerEvent ℕ same_worker_event) where
  abbrev pub set_one : Setting → Callbacks T UT W UW → Callbacks T UT W UW
  set_one (for_tasks e f) c = set_task_callback_handler tasks user_tasks workers user_workers e f c
  set_one (for_service_workers e f) c =
      set_service_worker_callback_handler tasks user_tasks workers user_workers e f c
  set_one (for_task_workers e f) c =
      set_task_worker_callback_handler tasks user_tasks workers user_workers e f c

  abbrev pub set_all : List Setting → Callbacks T UT W UW → Callbacks T UT W UW
  set_all [] c = c
  set_all (x ∷ xs) c = set_all xs (set_one x c)

  -- The user's function of an event takes the place of the runtime's own callback.
  abbrev instead : WorkerEvent → Option ℕ → Option (Callback WorkerEvent)
  instead e none = some (own e)
  instead e (some f) = some (user f)

  record Holds (t : TaskEvent → Option ℕ) (sw tw : WorkerEvent → Option ℕ) (c : Callbacks T UT W UW)
      : Type 0 where
    hicr : (e : TaskEvent) → tasks.trigger c.hicr_task_callback_map e ≡ some (own e)
    task : (e : TaskEvent) → user_tasks.trigger c.task_callback_map e ≡ t e
    service : (e : WorkerEvent) → workers.trigger c.service_worker_callback_map e ≡ instead e (sw e)
    worker : (e : WorkerEvent) → workers.trigger c.task_worker_callback_map e ≡ instead e (tw e)
    nothing : (e : WorkerEvent) → user_workers.trigger c.worker_callback_map e ≡ none

  own_worker :
      (e : WorkerEvent)
      → workers.trigger (own_worker_callbacks tasks user_tasks workers user_workers) e
        ≡ some (own e)
  own_worker e =
      let m1 = workers.set_callback workers.empty on_worker_start (own on_worker_start) in
      let m2 = workers.set_callback m1 on_worker_suspend (own on_worker_suspend) in
      let m3 = workers.set_callback m2 on_worker_resume (own on_worker_resume) in
      ground (
        arith,
        workers.trigger-set m3 on_worker_terminate e (own on_worker_terminate),
        workers.trigger-set m2 on_worker_resume e (own on_worker_resume),
        workers.trigger-set m1 on_worker_suspend e (own on_worker_suspend),
        workers.trigger-set workers.empty on_worker_start e (own on_worker_start),
      )

  own_task :
      (e : TaskEvent)
      → tasks.trigger (set_callbacks tasks user_tasks workers user_workers).hicr_task_callback_map e
        ≡ some (own e)
  unfolding set_callbacks
  own_task e =
      let m1 = tasks.set_callback tasks.empty on_task_execute (own on_task_execute) in
      let m2 = tasks.set_callback m1 on_task_finish (own on_task_finish) in
      let m3 = tasks.set_callback m2 on_task_suspend (own on_task_suspend) in
      ground (
        arith,
        tasks.trigger-set m3 on_task_sync e (own on_task_sync),
        tasks.trigger-set m2 on_task_suspend e (own on_task_suspend),
        tasks.trigger-set m1 on_task_finish e (own on_task_finish),
        tasks.trigger-set tasks.empty on_task_execute e (own on_task_execute),
      )

  created-Holds :
      Holds
        (λ e. none)
        (λ e. none)
        (λ e. none)
        (set_callbacks tasks user_tasks workers user_workers)
  unfolding set_callbacks
  created-Holds = record {
    hicr = own_task;
    task = λ e. user_tasks.trigger-empty e;
    service = own_worker;
    worker = own_worker;
    nothing = λ e. user_workers.trigger-empty e;
  }

  set_one-Holds :
      (x : Setting) (t : TaskEvent → Option ℕ) (sw tw : WorkerEvent → Option ℕ)
      (c : Callbacks T UT W UW)
      → Holds t sw tw c
      → Holds
          (λ e. last_for_task e (x ∷ []) (t e))
          (λ e. last_for_service_worker e (x ∷ []) (sw e))
          (λ e. last_for_task_worker e (x ∷ []) (tw e))
          (set_one x c)
  unfolding set_task_callback_handler set_service_worker_callback_handler
      set_task_worker_callback_handler
  set_one-Holds (for_tasks e' f) t sw tw c v = record {
    hicr = v.hicr;
    task = λ e. ground (arith, user_tasks.trigger-set c.task_callback_map e' e f, v.task e);
    service = v.service;
    worker = v.worker;
    nothing = v.nothing;
  }
  set_one-Holds (for_service_workers e' f) t sw tw c v = record {
    hicr = v.hicr;
    task = v.task;
    service = λ e.
        ground
          (arith, workers.trigger-set c.service_worker_callback_map e' e (user f), v.service e);
    worker = v.worker;
    nothing = v.nothing;
  }
  set_one-Holds (for_task_workers e' f) t sw tw c v = record {
    hicr = v.hicr;
    task = v.task;
    service = v.service;
    worker = λ e.
        ground (arith, workers.trigger-set c.task_worker_callback_map e' e (user f), v.worker e);
    nothing = v.nothing;
  }

  set_all-Holds :
      (xs : List Setting) (t : TaskEvent → Option ℕ) (sw tw : WorkerEvent → Option ℕ)
      (c : Callbacks T UT W UW)
      → Holds t sw tw c
      → Holds
          (λ e. last_for_task e xs (t e))
          (λ e. last_for_service_worker e xs (sw e))
          (λ e. last_for_task_worker e xs (tw e))
          (set_all xs c)
  set_all-Holds [] t sw tw c v = v
  set_all-Holds (for_tasks e f ∷ xs) t sw tw c v =
      set_all-Holds xs _ _ _ _ (set_one-Holds (for_tasks e f) t sw tw c v)
  set_all-Holds (for_service_workers e f ∷ xs) t sw tw c v =
      set_all-Holds xs _ _ _ _ (set_one-Holds (for_service_workers e f) t sw tw c v)
  set_all-Holds (for_task_workers e f ∷ xs) t sw tw c v =
      set_all-Holds xs _ _ _ _ (set_one-Holds (for_task_workers e f) t sw tw c v)

  service_worker_event-Holds :
      (e : WorkerEvent) (t : TaskEvent → Option ℕ) (sw tw : WorkerEvent → Option ℕ)
      (c : Callbacks T UT W UW)
      → Holds t sw tw c
      → service_worker_event tasks user_tasks workers user_workers e c ≡ called (sw e)
  unfolding service_worker_event
  service_worker_event-Holds e t sw tw c v =
      ground (arith, WorkerEvent-cases e, v.service e, v.nothing e, Option-cases (sw e))

  task_worker_event-Holds :
      (e : WorkerEvent) (t : TaskEvent → Option ℕ) (sw tw : WorkerEvent → Option ℕ)
      (c : Callbacks T UT W UW)
      → Holds t sw tw c
      → task_worker_event tasks user_tasks workers user_workers e c ≡ called (tw e)
  unfolding task_worker_event
  task_worker_event-Holds e t sw tw c v =
      ground (arith, WorkerEvent-cases e, v.worker e, v.nothing e, Option-cases (tw e))

  task_event-Holds :
      (e : TaskEvent) (t : TaskEvent → Option ℕ) (sw tw : WorkerEvent → Option ℕ)
      (c : Callbacks T UT W UW)
      → Holds t sw tw c
      → task_event tasks user_tasks workers user_workers e c ≡ called (t e)
  unfolding task_event
  task_event-Holds e t sw tw c v = ground (arith, v.hicr e, v.task e)

  -- After any settings of handlers, an event of a task, a service worker or a task worker runs the
  -- user's function that was set last for that event and that kind, once, and no other; and none
  -- where none was set.
  pub last_handler_runs :
      (xs : List Setting) (e : TaskEvent) (we : WorkerEvent)
      → (task_event tasks user_tasks workers user_workers e
            (set_all xs (set_callbacks tasks user_tasks workers user_workers))
          ≡ called (last_for_task e xs none))
        × (service_worker_event tasks user_tasks workers user_workers we
              (set_all xs (set_callbacks tasks user_tasks workers user_workers))
            ≡ called (last_for_service_worker we xs none))
        × (task_worker_event tasks user_tasks workers user_workers we
              (set_all xs (set_callbacks tasks user_tasks workers user_workers))
            ≡ called (last_for_task_worker we xs none))
  last_handler_runs xs e we =
      let v = set_all-Holds xs (λ e. none) (λ e. none) (λ e. none) _ created-Holds in
      (
        task_event-Holds e _ _ _ _ v,
        service_worker_event-Holds we _ _ _ _ v,
        task_worker_event-Holds we _ _ _ _ v,
      )
