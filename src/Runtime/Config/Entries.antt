-- ===== src/Runtime/Config/Entries.antt =====
-- How the constructor of the runtime reads the entries of its configuration.
use task_r.Base.{ℕ, Bool, true, false, List, Outcome, ok, throw, no_such_entry, ◌≡◌, ◌⊎◌, arith}
use task_r.Queue.{AtomicQueue}
use task_r.Service.{Service}
use task_r.Task.{Store}
use task_r.Runtime.Config.{Config, create}

-- An entry that is not there, or that is read without an exception.
abbrev pub IsReadable : {A : Type 0} → Bool → Outcome A → Type 0
IsReadable {A} there r = (there ≡ false) ⊎ ((a : A) × (r ≡ ok a))

pub record OthersReadable (config : Config) : Type 0 where
  pub inactivity :
      IsReadable
        (config.contains "Task Worker Inactivity Time (Ms)")
        (config.get_signed "Task Worker Inactivity Time (Ms)")
  pub interval :
      IsReadable
        (config.contains "Task Suspend Interval Time (Ms)")
        (config.get_signed "Task Suspend Interval Time (Ms)")
  pub minimum :
      IsReadable
        (config.contains "Minimum Active Task Workers")
        (config.get_unsigned "Minimum Active Task Workers")
  pub services :
      IsReadable
        (config.contains "Service Worker Count")
        (config.get_unsigned "Service Worker Count")
  pub run_services :
      IsReadable
        (config.contains "Make Task Workers Run Services")
        (config.get_boolean "Make Task Workers Run Services")

-- A configuration with an entry "Finish on Last Task", the name that is looked for, and none called
-- "Finish On Last Task", the name that is read, makes the constructor throw, whatever the readable
-- other entries say.
pub create_finish_entry :
    {Q Op W : Type 0} (lib : AtomicQueue Q) (force : Bool) (active : ℕ) (resources : List ℕ)
    (tasks : Store Op) (services : ℕ → Service) (world : W) (config : Config)
    → OthersReadable config
    → config.contains "Finish on Last Task" ≡ true
    → config.contains "Finish On Last Task" ≡ false
    → (create lib force active resources tasks services world config).1 ≡ throw no_such_entry
unfolding create
create_finish_entry lib force active resources tasks services world config others there missing =
    ground (arith, config.get_boolean_missing "Finish On Last Task" missing)
