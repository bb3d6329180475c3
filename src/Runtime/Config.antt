-- ===== src/Runtime/Config.antt =====
-- The constructor of the runtime: the defaults, and the entries of the JSON configuration.
pub mod Entries
use Prim.Native.String.{String}
use task_r.Base.{
  ℕ, ℤ, pos, Bool, true, false, List, [], Outcome, ok, throw, blocked, undefined, no_such_entry, M,
  ◌>>◌, ◌≡◌,
}
use task_r.Clock.{to_size_t}
use task_r.Common.{default_max_common_active_tasks, default_max_services}
use task_r.Queue
use task_r.Queue.{AtomicQueue}
use task_r.Service.{Service}
use task_r.Task.{Store}
use task_r.Runtime.State.{Runtime, uninitialized}

-- A JSON configuration, which is not in the repository's code: reading an entry that is not there
-- throws.
pub record Config : Type 0 where
  pub contains : String → Bool
  pub get_signed : String → Outcome ℤ
  pub get_unsigned : String → Outcome ℕ
  pub get_boolean : String → Outcome Bool
  pub get_boolean_missing : (k : String) → contains k ≡ false → get_boolean k ≡ throw no_such_entry

-- `if (config.contains(…)) member = get(…)`.
abbrev pub assign_if : {S A : Type 0} → Bool → Outcome A → (A → S → S) → M S (Unit {0})
assign_if false r write s = (s, ok tt)
assign_if true (ok a) write s = (write a s, ok tt)
assign_if true (throw e) write s = (s, throw e)
assign_if true blocked write s = (s, blocked)
assign_if true undefined write s = (s, undefined)

module _ {Q Op W : Type 0} where
  -- The members after the defaults were assigned. The tasks, the services and the world are those
  -- that exist around the runtime. `_forceTerminate` and the counter of active workers have no
  -- initial value in the source; `force` and `active` stand for what is there.
  unfoldable pub defaults :
      AtomicQueue Q → Bool → ℕ → List ℕ → Store Op → (ℕ → Service) → W → Runtime Q Op W
  unfolding Queue.create
  defaults lib force active compute_resources tasks services world = record {
    force_terminate = force;
    state = uninitialized;
    task_workers = [];
    service_workers = [];
    active_task_worker_count = active;
    active_task_count = 0;
    common_ready_task_queue = Queue.create lib default_max_common_active_tasks;
    compute_resources = compute_resources;
    service_queue = Queue.create lib default_max_services;
    task_worker_inactivity_time_ms = pos 10;
    task_worker_suspend_interval_time_ms = 1;
    minimum_active_task_workers = 1;
    service_worker_count = 0;
    make_task_workers_run_services = false;
    finish_on_last_task = true;
    tasks = tasks;
    services = services;
    world = world;
    calls = [];
  }

  -- The entries, in the order in which they are read.
  unfoldable pub parse : Config → M (Runtime Q Op W) (Unit {0})
  parse config = do
    assign_if (config.contains "Task Worker Inactivity Time (Ms)")
        (config.get_signed "Task Worker Inactivity Time (Ms)")
        (λ v s. record s { task_worker_inactivity_time_ms = v })
    assign_if (config.contains "Task Suspend Interval Time (Ms)")
        (config.get_signed "Task Suspend Interval Time (Ms)")
        (λ v s. record s { task_worker_suspend_interval_time_ms = to_size_t v })
    assign_if (config.contains "Minimum Active Task Workers")
        (config.get_unsigned "Minimum Active Task Workers")
        (λ v s. record s { minimum_active_task_workers = v })
    assign_if (config.contains "Service Worker Count") (config.get_unsigned "Service Worker Count")
        (λ v s. record s { service_worker_count = v })
    assign_if (config.contains "Make Task Workers Run Services")
        (config.get_boolean "Make Task Workers Run Services")
        (λ v s. record s { make_task_workers_run_services = v })
    assign_if (config.contains "Finish on Last Task") (config.get_boolean "Finish On Last Task")
        (λ v s. record s { finish_on_last_task = v })

  -- `Runtime(…, computeResources, config)`.
  unfoldable pub create :
      AtomicQueue Q
      → Bool
      → ℕ
      → List ℕ
      → Store Op
      → (ℕ → Service)
      → W
      → Config
      → Runtime Q Op W × Outcome (Unit {0})
  unfolding defaults parse
  create lib force active compute_resources tasks services world config =
      parse config (defaults lib force active compute_resources tasks services world)
