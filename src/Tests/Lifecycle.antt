-- ===== src/Tests/Lifecycle.antt =====
-- Runs and instances for the life of a runtime and for its configuration.
use Prim.Native.String.{String}
use task_r.Base.{
  ℕ, ◌≡◌, refl, [], ◌∷◌, ok, throw, no_such_entry, inl, Bool, true, false, length, arith,
  run_uninitialized, Outcome,
}
use text.Mathlib.Text.{◌==◌ as str_eq}
use task_r.Queue.{Bounded, bounded}
use task_r.Runtime.Config.{Config, create}
use task_r.Runtime.Config.Entries.{OthersReadable, create_finish_entry}
use task_r.Runtime.Lifecycle.{initialize, run}
use task_r.Runtime.Lifecycle.Invariant.{
  op_initialize, op_run, op_await, op_finalize, step, Follows, step-Follows, history,
  history-IsWellFormed, IsWellFormed,
}
use task_r.Tests.Samples.{env, fresh, tasks, service}

-- Three resources and one service worker give two task workers.
initialize_workers :
    (length (initialize env fresh).0.task_workers ≡ 2)
    × (length (initialize env fresh).0.service_workers ≡ 1)
unfolding initialize
initialize_workers = (refl, refl)

run_too_early : (run fresh).1 ≡ throw run_uninitialized
unfolding run
run_too_early = refl

step-Follows_example : Follows env op_initialize fresh (step env op_initialize fresh)
step-Follows_example = step-Follows env op_initialize fresh (refl, refl)

history-IsWellFormed_example : IsWellFormed (
    history env (op_run ∷ op_initialize ∷ op_run ∷ op_finalize ∷ op_await ∷ op_finalize ∷ []) fresh)
history-IsWellFormed_example =
    history-IsWellFormed env
      (op_run ∷ op_initialize ∷ op_run ∷ op_finalize ∷ op_await ∷ op_finalize ∷ []) fresh
      (refl, refl)

-- A configuration whose only entry is "Finish on Last Task".
only_finish : String → Bool
only_finish k = str_eq k "Finish on Last Task"

config_boolean : String → Bool → Outcome Bool
config_boolean k true = ok false
config_boolean k false = throw no_such_entry

config_missing :
    (k : String) → only_finish k ≡ false → config_boolean k (only_finish k) ≡ throw no_such_entry
unfolding config_boolean
config_missing k e = ground arith

abbrev config : Config
unfolding only_finish config_boolean
config = record {
  contains = only_finish;
  get_signed = λ k. throw no_such_entry;
  get_unsigned = λ k. throw no_such_entry;
  get_boolean = λ k. config_boolean k (only_finish k);
  get_boolean_missing = config_missing;
}

others : OthersReadable config
unfolding only_finish config
others = record {
  inactivity = inl refl;
  interval = inl refl;
  minimum = inl refl;
  services = inl refl;
  run_services = inl refl;
}

create_finish_entry_example :
    (create {Q = Bounded} {Op = Bool} {W = ℕ} bounded false 0 (10 ∷ []) tasks service 0 config).1
    ≡ throw no_such_entry
unfolding only_finish config
create_finish_entry_example =
    create_finish_entry bounded false 0 (10 ∷ []) tasks service 0 config others refl refl
