-- ===== src/Worker.antt =====
-- include/taskr/worker.hpp: a worker and its own queue of ready tasks. The thread behind it is the
-- tasking frontend's, and is not modelled here.
use task_r.Base.{ℕ, Bool, true, false, Option, none, if◌then◌else◌}
use task_r.Common.{default_max_worker_active_tasks}
use task_r.Clock.{elapsed, to_size_t, nanoseconds_per_ms}
use task_r.Queue
use task_r.Queue.{AtomicQueue}

-- `suspend_interval`, `processing_unit` and `callback_map_set` are what the calls of the base class
-- were given; `check_resume_set` says whether a resume check was set.
pub record Worker (Q : Type 0) : Type 0 where
  pub worker_id : ℕ
  pub check_resume_set : Bool
  pub has_failed_to_retrieve_task : Bool
  pub failed_to_retrieve_task_time : ℕ
  pub ready_task_queue : Q
  pub callback_map_set : Bool
  pub suspend_interval : Option ℕ
  pub processing_unit : Option ℕ

module _ {Q : Type 0} where
  -- `Worker(workerId, …)`.
  unfoldable pub create : AtomicQueue Q → ℕ → Worker Q
  unfolding Queue.create
  create lib worker_id = record {
    worker_id = worker_id;
    check_resume_set = false;
    has_failed_to_retrieve_task = false;
    failed_to_retrieve_task_time = 0;
    ready_task_queue = Queue.create lib default_max_worker_active_tasks;
    callback_map_set = false;
    suspend_interval = none;
    processing_unit = none;
  }

  -- The clock's reading is an argument; it is read only on the first failure of a streak.
  unfoldable pub set_failed_to_retrieve_task : ℕ → Worker Q → Worker Q
  set_failed_to_retrieve_task now w =
      if w.has_failed_to_retrieve_task
      then w
      else record w { has_failed_to_retrieve_task = true; failed_to_retrieve_task_time = now }

  unfoldable pub reset_retrieve_task_success_flag : Worker Q → Worker Q
  reset_retrieve_task_success_flag w = record w { has_failed_to_retrieve_task = false }

  unfoldable pub get_time_since_failed_to_retrieve_task_ms : ℕ → Worker Q → ℕ
  get_time_since_failed_to_retrieve_task_ms now w =
      to_size_t (elapsed nanoseconds_per_ms now w.failed_to_retrieve_task_time)

  unfoldable pub get_has_failed_to_retrieve_task : Worker Q → Bool
  get_has_failed_to_retrieve_task w = w.has_failed_to_retrieve_task

  unfoldable pub get_ready_task_queue : Worker Q → Q
  get_ready_task_queue w = w.ready_task_queue

  unfoldable pub get_worker_id : Worker Q → ℕ
  get_worker_id w = w.worker_id

  unfoldable pub set_check_resume_function : Worker Q → Worker Q
  set_check_resume_function w = record w { check_resume_set = true }
