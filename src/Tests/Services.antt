-- ===== src/Tests/Services.antt =====
-- Instances for services.
use task_r.Base.{◌-◌, ◌*◌, ◌≤◌, ◌≡◌, ◌↔◌, refl, true, arith}
use task_r.Clock.{nanoseconds_per_ms}
use task_r.Service.{is_active}
use task_r.Service.Laws.{is_active_iff}
use task_r.Runtime.Services.Rotation.{IsQuiet}
use task_r.Tests.Samples.{env, service}

is_active_iff_example :
    (is_active 3_000_000 (service 0) ≡ true) ↔ (2 * nanoseconds_per_ms ≤ 3_000_000 - 1_000_000)
is_active_iff_example = is_active_iff 3_000_000 (service 0) (omega arith)

quiet : IsQuiet env 30
quiet = record { returns = λ s. refl; queue = λ s. refl }
