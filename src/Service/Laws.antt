-- ===== src/Service/Laws.antt =====
-- When a service is due.
use task_r.Base.{ℕ, ◌-◌, ◌*◌, ◌≤◌, ◌≡◌, ◌↔◌, true, arith}
use task_r.Clock.{elapsed_forward, nanoseconds_per_ms}
use task_r.Service.{Service, is_active}

-- On a clock that has not been set back since the last run, a service is active exactly when its
-- whole interval, in nanoseconds, has passed since then.
pub is_active_iff :
    (now : ℕ) (s : Service)
    → s.last_execution_time ≤ now
    → (is_active now s ≡ true) ↔ (s.interval * nanoseconds_per_ms ≤ now - s.last_execution_time)
unfolding is_active
is_active_iff now s h =
    rw (elapsed_forward nanoseconds_per_ms now s.last_execution_time h) (ground arith)
