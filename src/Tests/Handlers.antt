-- ===== src/Tests/Handlers.antt =====
-- Callback maps as functions, and an instance for the handlers of the user.
use task_r.Base.{Bool, Option, none, some, List, [], ◌∷◌, ◌≡◌, refl, if◌then◌else◌}
use task_r.Runtime.State.{on_task_finish}
use task_r.Runtime.Callbacks.{
  CallbackMap, on_worker_suspend, same_worker_event, same_task_event, set_callbacks, task_event,
  service_worker_event, task_worker_event,
}
use task_r.Runtime.Callbacks.Handlers.{
  Setting, for_tasks, for_task_workers, last_handler_runs, set_all,
}

abbrev table : {E F : Type 0} (same : E → E → Bool) → CallbackMap (E → Option F) E F same
table same = record {
  empty = λ e. none;
  set_callback = λ m e f e'. if same e e' then some f else m e';
  trigger = λ m e. m e;
  trigger-empty = λ e. refl;
  trigger-set = λ m e e' f. refl;
}

abbrev settings : List Setting
settings =
    for_task_workers on_worker_suspend 1
    ∷ for_tasks on_task_finish 2
    ∷ for_task_workers on_worker_suspend 3
    ∷ []

last_handler_runs_example :
    (task_event
        (table same_task_event)
        (table same_task_event)
        (table same_worker_event)
        (table same_worker_event)
        on_task_finish
        (set_all
          (table same_task_event)
          (table same_task_event)
          (table same_worker_event)
          (table same_worker_event)
          settings
          (set_callbacks
            (table same_task_event)
            (table same_task_event)
            (table same_worker_event)
            (table same_worker_event)))
      ≡ 2 ∷ [])
    × (service_worker_event
          (table same_task_event)
          (table same_task_event)
          (table same_worker_event)
          (table same_worker_event)
          on_worker_suspend
          (set_all
            (table same_task_event)
            (table same_task_event)
            (table same_worker_event)
            (table same_worker_event)
            settings
            (set_callbacks
              (table same_task_event)
              (table same_task_event)
              (table same_worker_event)
              (table same_worker_event)))
        ≡ [])
    × (task_worker_event
          (table same_task_event)
          (table same_task_event)
          (table same_worker_event)
          (table same_worker_event)
          on_worker_suspend
          (set_all
            (table same_task_event)
            (table same_task_event)
            (table same_worker_event)
            (table same_worker_event)
            settings
            (set_callbacks
              (table same_task_event)
              (table same_task_event)
              (table same_worker_event)
              (table same_worker_event)))
        ≡ 3 ∷ [])
last_handler_runs_example =
    last_handler_runs (table same_task_event) (table same_task_event) (table same_worker_event)
      (table same_worker_event) settings on_task_finish on_worker_suspend
