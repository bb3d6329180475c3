-- ===== src/Runtime/Execution/Lists.antt =====
-- Counting the tasks that are executed.
use task_r.Base.{
  ℕ, ◌+◌, ◌≡◌, ◌==◌, if◌then◌else◌, ◌++◌, List, [], ◌∷◌, Option, none, some, arith, refl,
}
use task_r.Runtime.Scheduling.Picking.{taken}
use task_r.Runtime.Execution.{executes, given_out}

pub executes-middle :
    (i t u : ℕ) (before later : List (ℕ × ℕ))
    → executes u (before ++ (i, t) ∷ later)
      ≡ (if t == u then 1 else 0) + executes u (before ++ later)
executes-middle i t u [] later = refl
executes-middle i t u ((j, v) ∷ before) later = omega (arith, executes-middle i t u before later)

pub executes-given_out :
    (i u : ℕ) (found : Option ℕ) (e : List (ℕ × ℕ))
    → executes u (given_out i found e) ≡ executes u e + taken found u
executes-given_out i u none e = omega arith
executes-given_out i u (some t) e = omega arith
