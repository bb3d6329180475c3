-- ===== src/Tests/Python.antt =====
-- Instances for the wrapper for Python: two devices, with processors 0, 1 and 2, 3.
use task_r.Base.{
  ℕ, ◌≡◌, refl, List, [], ◌∷◌, some, none, ok, throw, illegal_worker_count, arith, false, length,
  ◌++◌, ℕ_discrete,
}
use mathlib.Core.List.{flatten}
use mathlib.Core.List.Memᴰ
use task_r.Runtime.State.{Runtime}
use task_r.Runtime.Lifecycle.{initialize}
use task_r.PyRuntime.{
  PyRuntime, ComputeResource, nosv_init, nosv_attach, topology_init, create_with_count,
  create_with_set,
}
use task_r.PyRuntime.Selection.{
  counted_runtime_starts, selected_runtime_starts, illegal_count_leaves_open,
}
use task_r.Tests.Samples.{env, tasks, service}

-- The clock at first.
abbrev start : ℕ
start = 0

abbrev first : List ComputeResource
first = record { address = 10; processor_id = 0 } ∷ record { address = 11; processor_id = 1 } ∷ []

abbrev second : List ComputeResource
second = record { address = 12; processor_id = 2 } ∷ record { address = 13; processor_id = 3 } ∷ []

counted_runtime_starts_example :
    (p : PyRuntime _ _ _) × (r : Runtime _ _ _) × (s' : Runtime _ _ _) × (create_with_count
        env.queue false 0 tasks service start "nosv" 1
        (first ∷ second ∷ [])
      ≡ (p, ok tt))
    × (p.runtime ≡ some r)
    × ((rest : List ℕ) × (10 ∷ 11 ∷ [] ≡ r.compute_resources ++ rest))
    × (length r.compute_resources ≡ 1)
    × (initialize env r ≡ (s', ok tt))
    × (p.num_workers ≡ some (length s'.task_workers))
counted_runtime_starts_example =
    counted_runtime_starts env false 0 tasks service start "nosv" 1 first (second ∷ []) refl
      (omega arith) (omega arith)

selected_runtime_starts_example :
    (p : PyRuntime _ _ _) × (r : Runtime _ _ _) × (s' : Runtime _ _ _) × (create_with_set env.queue
        false 0 tasks service start "threading"
        (3 ∷ 0 ∷ [])
        (first ∷ second ∷ [])
      ≡ (p, ok tt))
    × (p.runtime ≡ some r)
    × (r.compute_resources ≡ 10 ∷ 13 ∷ [])
    × (initialize env r ≡ (s', ok tt))
    × (length s'.task_workers ≡ 2)
    × (p.num_workers ≡ some (length s'.task_workers))
unfolding flatten ℕ_discrete
selected_runtime_starts_example =
    selected_runtime_starts env false 0 tasks service start "threading" (3 ∷ 0 ∷ [])
      (record { address = 10; processor_id = 0 }) (first ∷ second ∷ []) refl ∣ Memᴰ.head refl ∣₁
      ∣ Memᴰ.tail (Memᴰ.head refl) ∣₁

illegal_count_leaves_open_example :
    ((create_with_count env.queue false 0 tasks service start "nosv" 3 (first ∷ [])).1
      ≡ throw illegal_worker_count)
    × ((create_with_count env.queue false 0 tasks service start "nosv" 3 (first ∷ [])).0.calls
        ≡ nosv_init ∷ nosv_attach ∷ topology_init ∷ [])
    × ((create_with_count env.queue false 0 tasks service start "nosv" 3 (first ∷ [])).0.runtime
        ≡ none)
illegal_count_leaves_open_example =
    illegal_count_leaves_open env false 0 tasks service start "nosv" 3 first [] refl (omega arith)
