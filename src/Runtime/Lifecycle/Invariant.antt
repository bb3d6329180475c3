-- ===== src/Runtime/Lifecycle/Invariant.antt =====
-- The states of the runtime and the workers that exist in each, after any calls of the four
-- operations, those that throw included.
use task_r.Base.{
  ℕ, ◌+◌, ◌-◌, ◌<◌, ◌≤◌, ◌≡◌, ◌≢◌, ◌⊎◌, inl, inr, refl, List, [], ◌∷◌, length, Bool, true, false,
  Option, none, some, sym, subst, ap, ap₂, ◌∙◌, arith, ok, Outcome, M, leb, ltb,
}
use task_r.Runtime.State.{Runtime, Environment, State, uninitialized, initialized, running}
use task_r.Runtime.Lifecycle.{initialize, run, await, finalize, initialized_already, is_empty}
use task_r.Runtime.Lifecycle.Loops.{
  Numbered, ServiceLoop, TaskLoop, create_service_workers_lem, create_task_workers_lem,
}

pub data Operation : Type 0 where
  op_initialize : Operation
  op_run : Operation
  op_await : Operation
  op_finalize : Operation

-- The documented life of a runtime: `staffed` says whether there are more compute resources than
-- service workers. `none` is an operation that the state does not allow.
abbrev pub transition : (staffed : Bool) → Operation → State → Option State
transition true op_initialize uninitialized = some initialized
transition staffed op_run initialized = some running
transition staffed op_await running = some initialized
transition staffed op_finalize initialized = some uninitialized
transition staffed _ _ = none

-- Whether the call returns, and the state that it leaves.
abbrev pub allowed : Option State → Bool
allowed none = false
allowed (some s) = true

abbrev pub state_after : Option State → State → State
state_after none old = old
state_after (some new) old = new

abbrev pub returns : Outcome (Unit {0}) → Bool
returns (ok _) = true
returns _ = false

module _ {Q Op W : Type 0} where
  pub record IsStaffed (s : Runtime Q Op W) : Type 0 where
    pub service_workers : length s.service_workers ≡ s.service_worker_count
    pub task_workers : length s.task_workers + s.service_worker_count ≡ length s.compute_resources
    pub some_task_worker : 0 < length s.task_workers
    pub services_numbered : Numbered 0 s.service_workers
    pub tasks_numbered : Numbered 0 s.task_workers

  abbrev pub Staffing : State → Runtime Q Op W → Type 0
  Staffing uninitialized s = (s.service_workers ≡ []) × (s.task_workers ≡ [])
  Staffing initialized s = IsStaffed s
  Staffing running s = IsStaffed s

  -- There are no workers before `initialize`; afterwards there is one for each compute resource, at
  -- least one of them for tasks, and each worker's identifier is its place.
  abbrev pub IsWellFormed : Runtime Q Op W → Type 0
  IsWellFormed s = Staffing s.state s

  abbrev pub can_staff : Runtime Q Op W → Bool
  can_staff s = ltb s.service_worker_count (length s.compute_resources)

is_empty-false : (rs : List ℕ) → 0 < length rs → is_empty rs ≡ false
is_empty-false [] h = absurd (omega arith)
is_empty-false (r ∷ rs) h = refl

not_le : (a b : ℕ) → a < b → leb b a ≡ false
not_le a b h = ground arith

module _ {Q Op W : Type 0} (env : Environment Q Op W) where
  abbrev pub step : Operation → M (Runtime Q Op W) (Unit {0})
  step op_initialize = initialize env
  step op_run = run
  step op_await = await
  step op_finalize = finalize

  -- One operation does what the documented life says, and keeps the workers in order.
  pub record Follows (o : Operation) (s : Runtime Q Op W) (r : Runtime Q Op W × Outcome (Unit {0}))
      : Type 0 where
    pub outcome : returns r.1 ≡ allowed (transition (can_staff s) o s.state)
    pub state : r.0.state ≡ state_after (transition (can_staff s) o s.state) s.state
    pub well_formed : IsWellFormed r.0

  run-Follows : (s : Runtime Q Op W) → IsWellFormed s → Follows op_run s (run s)
  unfolding run
  run-Follows s v = ground arith

  await-Follows : (s : Runtime Q Op W) → IsWellFormed s → Follows op_await s (await s)
  unfolding await
  await-Follows s v = ground arith

  finalize-Follows : (s : Runtime Q Op W) → IsWellFormed s → Follows op_finalize s (finalize s)
  unfolding finalize
  finalize-Follows s v = ground arith

  staffed :
      (s s1 s2 : Runtime Q Op W)
      → s.service_worker_count < length s.compute_resources
      → s.service_workers ≡ []
      → s.task_workers ≡ []
      → ServiceLoop env s.service_worker_count s s1
      → TaskLoop env (length s.compute_resources - s.service_worker_count) s1 s2
      → IsStaffed (record s2 { state = initialized })
  staffed s s1 s2 few no_services no_tasks v1 v2 =
      let r1 = ap length v1.plan.resources in
      let r2 = ap length v2.plan.resources in
      let none_before = ap length no_services in
      let no_task_before = ap length no_tasks in
      let kept = ap length v2.service_workers in
      let kept_tasks = ap length v1.task_workers in
      record {
        service_workers = omega (arith, v1.added, v1.plan.services, v2.plan.services);
        task_workers = omega (arith, v2.added, v1.plan.services, v2.plan.services);
        some_task_worker = omega (arith, v2.added);
        services_numbered = rw v2.service_workers (v1.numbered (rw no_services tt));
        tasks_numbered = v2.numbered (rw (v1.task_workers, no_tasks) tt);
      }

  -- `initialize` of a runtime without workers, with more resources than service workers.
  pub initialize_staffs :
      (s : Runtime Q Op W)
      → s.state ≡ uninitialized
      → s.service_worker_count < length s.compute_resources
      → s.service_workers ≡ []
      → s.task_workers ≡ []
      → (s' : Runtime Q Op W) × (initialize env s ≡ (s', ok tt))
        × (s'.state ≡ initialized)
        × IsStaffed s'
        × (length s'.task_workers + s.service_worker_count ≡ length s.compute_resources)
  unfolding initialize
  initialize_staffs s e few no_services no_tasks =
      let (s1, f1, v1) =
        create_service_workers_lem env s.service_worker_count 0 0 s (omega arith)
          (rw no_services) in
      let (s2, f2, v2) =
        create_task_workers_lem env (length s.compute_resources - s.service_worker_count)
          s.service_worker_count 0 s1 (omega (arith, ap length v1.plan.resources))
          (rw (v1.task_workers, no_tasks)) in
      (
        record s2 { state = initialized },
        rw (
          ap initialized_already e,
          is_empty-false s.compute_resources (omega arith),
          not_le s.service_worker_count (length s.compute_resources) few,
          f1,
          f2,
        ),
        refl,
        staffed s s1 s2 few no_services no_tasks v1 v2,
        omega (arith, v2.added, ap length v1.task_workers, ap length no_tasks),
      )

  initialize_refuses :
      (s : Runtime Q Op W)
      → (s.state ≢ uninitialized) ⊎ (length s.compute_resources ≤ s.service_worker_count)
      → ((initialize env s).0 ≡ s) × (returns (initialize env s).1 ≡ false)
  unfolding initialize
  initialize_refuses s h = ground arith

  not_staffed :
      (s : Runtime Q Op W)
      → can_staff s ≡ false
      → length s.compute_resources ≤ s.service_worker_count
  not_staffed s h = ground arith

  staffable :
      (s : Runtime Q Op W)
      → can_staff s ≡ true
      → s.service_worker_count < length s.compute_resources
  staffable s h = ground arith

  initialize-Follows_staffed :
      (s : Runtime Q Op W)
      → s.state ≡ uninitialized
      → can_staff s ≡ true
      → Staffing uninitialized s
      → Follows op_initialize s (initialize env s)
  initialize-Follows_staffed s e few v =
      let (s', f, now, w, _) = initialize_staffs s e (staffable s few) v.0 v.1 in
      let next : transition (can_staff s) op_initialize s.state ≡ some initialized =
        ap₂ (λ b st. transition b op_initialize st) few e in
      record {
        outcome = rw (f, ap allowed next);
        state = rw (f, ap (λ t. state_after t s.state) next) now;
        well_formed = rw f (rw now w);
      }

  initialize-Follows_refused :
      (s : Runtime Q Op W)
      → (s.state ≢ uninitialized) ⊎ (length s.compute_resources ≤ s.service_worker_count)
      → transition (can_staff s) op_initialize s.state ≡ none
      → IsWellFormed s
      → Follows op_initialize s (initialize env s)
  initialize-Follows_refused s h next v =
      let (same, throws) = initialize_refuses s h in
      record {
        outcome = throws ∙ sym (ap allowed next);
        state =
            ap (λ (t : Runtime Q Op W). t.state) same ∙ sym (ap (λ t. state_after t s.state) next);
        well_formed = rw same v;
      }

  initialize-Follows_from :
      (st : State) (b : Bool) (s : Runtime Q Op W)
      → s.state ≡ st
      → can_staff s ≡ b
      → IsWellFormed s
      → Follows op_initialize s (initialize env s)
  initialize-Follows_from uninitialized true s e f v =
      initialize-Follows_staffed s e f (subst (λ st. Staffing st s) e v)
  initialize-Follows_from uninitialized false s e f v =
      initialize-Follows_refused s (inr (not_staffed s f))
        (ap₂ (λ b st. transition b op_initialize st) f e) v
  initialize-Follows_from initialized b s e f v =
      initialize-Follows_refused s (inl (λ g. cc)) (ground arith) v
  initialize-Follows_from running b s e f v =
      initialize-Follows_refused s (inl (λ g. cc)) (ground arith) v

  -- Each of the four operations, called in any state whose workers are in order, returns exactly
  -- when the documented life of the runtime allows it, leaves the state of that life, or the old
  -- one where it throws, and leaves the workers in order.
  pub step-Follows : (o : Operation) (s : Runtime Q Op W) → IsWellFormed s → Follows o s (step o s)
  step-Follows op_initialize s v = initialize-Follows_from s.state (can_staff s) s refl refl v
  step-Follows op_run s v = run-Follows s v
  step-Follows op_await s v = await-Follows s v
  step-Follows op_finalize s v = finalize-Follows s v

  -- The operations in turn, whatever they throw.
  abbrev pub history : List Operation → Runtime Q Op W → Runtime Q Op W
  history [] s = s
  history (o ∷ os) s = history os (step o s).0

  -- After any operations on a runtime without workers, there are workers exactly while it is
  -- initialized or running, and then as many as compute resources, one of them for tasks.
  pub history-IsWellFormed :
      (os : List Operation) (s : Runtime Q Op W) → IsWellFormed s → IsWellFormed (history os s)
  history-IsWellFormed [] s v = v
  history-IsWellFormed (o ∷ os) s v =
      history-IsWellFormed os (step o s).0 (step-Follows o s v).well_formed
