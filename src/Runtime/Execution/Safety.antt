-- ===== src/Runtime/Execution/Safety.antt =====
-- What holds in every state of a run.
use task_r.Base.{ℕ, ◌+◌, ◌≡◌, ◌↔◌, ◌++◌, List, [], ◌∷◌, arith, refl, ok, true, length, sym, subst}
use task_r.Task.Graph.{count, waits_for}
use task_r.Task.Order.{oldest, oldest_waits_for_none, oldest_counted}
use task_r.Runtime.State.{Runtime, Environment, WorkerRef}
use task_r.Runtime.Queued.{queued}
use task_r.Runtime.Services.{check_termination}
use task_r.Runtime.Execution.{
  Execution, Handlers, Step, adds, turns, suspends, finishes, Reach, starts, next, IsFresh,
  executes,
}
use task_r.Runtime.Execution.Lists.{executes-middle}
use task_r.Runtime.Execution.Invariant.{Invariant, turns-Invariant, suspends-Invariant}
use task_r.Runtime.Execution.Additions.{adds-Invariant}
use task_r.Runtime.Execution.Finishes.{finishes-Invariant}

empty_at : (xs : List ℕ) → length xs ≡ 0 → xs ≡ []
empty_at [] h = refl
empty_at (x ∷ xs) h = absurd (omega arith)

module _ {Q Op W : Type 0} (env : Environment Q Op W) where
  abbrev pub Sound : Execution Q Op W → Type 0
  Sound x = Invariant env x.runtime x.executing x.unfinished

  fresh-Sound : (r : Runtime Q Op W) → IsFresh env r → Invariant env r [] []
  fresh-Sound r v = record {
    settings = record {
      calm = v.calm;
      alone = v.alone;
      polling = v.polling;
      active = v.inactive;
      few = omega arith;
      valid = λ t h. absurd (omega arith);
    };
    tasks = record {
      distinct = λ t. omega arith;
      known = λ t h. absurd (omega arith);
      graph = record { counted = v.unused; fits = λ t. omega arith };
      order = tt;
    };
    once = λ t. ground (arith, v.empty t);
  }

  Step-Sound : (h : Handlers env) (x x' : Execution Q Op W) → Step env x x' → Sound x → Sound x'
  Step-Sound h x x' (adds t task_id fc a ds r fresh all small few valid run e) v =
      subst Sound (sym e) (
        adds-Invariant env t task_id fc a ds x.runtime r x.executing x.unfinished fresh all small
          few valid run v)
  Step-Sound h x x' (turns i w found r at idle room run e) v =
      subst Sound (sym e)
        (turns-Invariant env i w found x.runtime r x.executing x.unfinished at room run v)
  Step-Sound h x x' (suspends i t ops before later r at run e) v = subst Sound (sym e) (
      suspends-Invariant env h i t ops before later x.runtime r x.unfinished run
        (subst (λ l. Invariant env x.runtime l x.unfinished) at v))
  Step-Sound h x x' (finishes i t before later newer older r at place room run e) v =
      subst Sound (sym e) (
        finishes-Invariant env h i t before later newer older x.runtime r room run (
          subst (λ l. Invariant env x.runtime (before ++ (i, t) ∷ later) l) place
            (subst (λ l. Invariant env x.runtime l x.unfinished) at v)))

  -- In every state of a run, where the handler of a suspended task resumes it and that of a finished
  -- one leaves the runtime alone: the counter of active tasks is the number of unfinished ones; every
  -- unfinished task that waits for no other stands in one ready queue once or is executed once, and
  -- no other task stands in a queue or is executed; and the counters and lists of dependencies agree,
  -- without a cycle.
  pub Reach-Sound : (h : Handlers env) (x : Execution Q Op W) → Reach env x → Sound x
  Reach-Sound h x (starts r v) = fresh-Sound r v
  Reach-Sound h x (next {x = y} reach step) = Step-Sound h y x step (Reach-Sound h y reach)

  -- In every state of a run, with such handlers, a task that a worker executes is unfinished and waits
  -- for no unfinished task, no other worker executes it and it stands in no ready queue.
  pub executed_once :
      (h : Handlers env) (x : Execution Q Op W) (i t : ℕ) (before later : List (ℕ × ℕ))
      → Reach env x
      → x.executing ≡ before ++ (i, t) ∷ later
      → (count t x.unfinished ≡ 1)
        × (waits_for x.runtime.tasks x.unfinished t ≡ 0)
        × (executes t (before ++ later) ≡ 0)
        × (queued env.queue t x.runtime ≡ 0)
  executed_once h x i t before later reach at =
      let v = subst (λ l. Invariant env x.runtime l x.unfinished) at (Reach-Sound h x reach) in
      ground (arith, v.once t, v.tasks.distinct t, executes-middle i t t before later)

  -- In every state of a run, with such handlers, of a runtime that finishes with its last task, the
  -- check of a worker tells it to terminate exactly when no task is unfinished.
  pub terminates_when_done :
      (h : Handlers env) (x : Execution Q Op W) (worker : WorkerRef)
      → Reach env x
      → x.runtime.finish_on_last_task ≡ true
      → ((check_termination worker x.runtime).1 ≡ ok true) ↔ (x.unfinished ≡ [])
  unfolding check_termination
  terminates_when_done h x worker reach ends =
      let v = Reach-Sound h x reach in
      let done : x.runtime.active_task_count ≡ 0 → x.unfinished ≡ [] =
        λ k. empty_at x.unfinished (ground (arith, v.settings.active)) in
      (λ e. done (ground arith), λ e. ground (arith, v.settings.active))

  -- In every state of a run, with such handlers, in which some task is unfinished, the oldest
  -- unfinished one stands in a ready queue once or is executed once: tasks never all wait for one
  -- another.
  pub some_task_can_run :
      (h : Handlers env) (x : Execution Q Op W) (u : ℕ) (us : List ℕ)
      → Reach env x
      → x.unfinished ≡ u ∷ us
      → queued env.queue (oldest u us) x.runtime + executes (oldest u us) x.executing ≡ 1
  some_task_can_run h x u us reach e =
      let v = subst (λ l. Invariant env x.runtime x.executing l) e (Reach-Sound h x reach) in
      ground (
        arith,
        v.once (oldest u us),
        oldest_counted u us,
        oldest_waits_for_none x.runtime.tasks u us v.tasks.order,
      )
