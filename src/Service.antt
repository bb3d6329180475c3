-- ===== src/Service.antt =====
-- include/taskr/service.hpp: a function that is run again and again, at most once in an interval.
pub mod Laws
use task_r.Base.{ℕ, Bool, true, false, ℤ, pos, leb_ℤ, M, ◌>>=◌, ◌>>◌, modify, if◌then◌else◌}
use task_r.Clock.{elapsed, nanoseconds_per_ms}

-- The function is called through the `run` of its user.
pub record Service : Type 0 where
  pub interval : ℕ
  pub enabled : Bool
  pub last_execution_time : ℕ

-- `Service(fc, interval)`: enabled, and last run at the epoch of the clock.
unfoldable pub create : ℕ → Service
create interval = record { interval = interval; enabled = true; last_execution_time = 0 }

unfoldable pub enable : Service → Service
enable s = record s { enabled = true }

unfoldable pub disable : Service → Service
disable s = record s { enabled = false }

unfoldable pub is_enabled : Service → Bool
is_enabled s = s.enabled

-- The clock's reading is an argument. The source compares as `double`s, which agrees with the
-- comparison of integers up to 2 ^ 53.
unfoldable pub is_active : ℕ → Service → Bool
is_active now s =
    if leb_ℤ (pos s.interval) (elapsed nanoseconds_per_ms now s.last_execution_time)
    then true
    else false

-- `run()`, in a state that holds the service: call the function, then read the clock and keep the
-- time in the service.
unfoldable pub run :
    {S : Type 0} → M S (Unit {0}) → M S ℕ → ((Service → Service) → S → S) → M S (Unit {0})
run fc now update = do fc; t ← now; modify (update λ s. record s { last_execution_time = t })

unfoldable pub get_interval : Service → ℕ
get_interval s = s.interval

unfoldable pub set_interval : ℕ → Service → Service
set_interval interval s = record s { interval = interval }
