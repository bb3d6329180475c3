-- ===== src/Runtime/Execution/Frames.antt =====
-- What the callbacks and the calls of a run do where they return, and what they leave alone.
use task_r.Base.{
  inl, inr, ◌⊎◌, ℕ, ◌<◌, ◌≡◌, List, [], ◌∷◌, arith, refl, ok, Outcome, dec64, ◌∙◌, ap, sym, subst,
}
use task_r.Task
use task_r.Task.{Task, Store}
use task_r.Runtime.State.{Runtime, Environment}
use task_r.Runtime.Frame.{Frame, Frame-refl, Frame-trans}
use task_r.Runtime.Frame.Operations.{resume_task-Frame}
use task_r.Runtime.Tasks.{
  add_task, set_finished_task, on_task_finish_callback, on_task_suspend_callback,
}
use task_r.Runtime.Tasks.Resume.{
  Resumed, waiting, refused, full, ready, Enqueues, resume_task-Resumed,
}
use task_r.Runtime.Tasks.Add.{counted_in, add_task-resume_task, counted_in-dependencies}
use task_r.Runtime.Execution.{Handlers, pends}

module _ {Q Op W : Type 0} (env : Environment Q Op W) where
  -- A call that returns left the state that it returned with.
  pub same_state :
      {A : Type 0} (m : Runtime Q Op W × Outcome A) (s s' : Runtime Q Op W) (a b : Outcome A)
      → m ≡ (s, a)
      → m ≡ (s', b)
      → s' ≡ s
  same_state m s s' a b e f = ap (λ p. p.0) (sym f ∙ e)

  -- The task was resumed by a call that returned: it waits, or it entered a queue.
  pub resumed :
      (t : ℕ) (s r : Runtime Q Op W) {p : Runtime Q Op W × Outcome (Unit {0})}
      → Resumed env t s p
      → p ≡ (r, ok tt)
      → ((0 < (s.tasks t).dependency_count) × (r ≡ s))
        ⊎ (((s.tasks t).dependency_count ≡ 0) × Enqueues env t s r)
  resumed t s r (waiting w) e = inl (w, ap (λ p. p.0) (sym e))
  resumed t s r (refused w v) e = cc
  resumed t s r (full w v) e = cc
  resumed t s r (ready w v) e = inr (w, rw (ap (λ p. p.0) e) at v)

  pended-Frame :
      (t : ℕ) (op : Op) (s : Runtime Q Op W)
      → Frame s (record s { tasks = Task.update t (Task.add_pending_operation op) s.tasks })
  unfolding Task.update Task.add_pending_operation
  pended-Frame t op s = record {
    setting = record {
      force_terminate = refl;
      services = refl;
      finish_on_last_task = refl;
      workers = refl;
      affinity = λ u. ground arith;
      outputs = λ u. ground arith;
    };
    counts = λ u. ground arith;
  }

  pub pends-Frame :
      (t : ℕ) (ops : List Op) (s : Runtime Q Op W)
      → Frame s (record s { tasks = pends t ops s.tasks })
  pends-Frame t [] s = Frame-refl s
  pends-Frame t (op ∷ ops) s = Frame-trans (pended-Frame t op s) (
      pends-Frame t ops
        (record s { tasks = Task.update t (Task.add_pending_operation op) s.tasks }))

  pub counted_in-outputs :
      (t u : ℕ) (s : Runtime Q Op W)
      → ((counted_in env t s).tasks u).output_dependencies ≡ (s.tasks u).output_dependencies
  unfolding Task.update
  counted_in-outputs t u s = ground arith

  -- A suspension that returns: the task waits, or entered a queue.
  pub suspension_resumed :
      (h : Handlers env) (t : ℕ) (s r : Runtime Q Op W)
      → on_task_suspend_callback env t s ≡ (r, ok tt)
      → ((0 < (s.tasks t).dependency_count) × (r ≡ s))
        ⊎ (((s.tasks t).dependency_count ≡ 0) × Enqueues env t s r)
  unfolding on_task_suspend_callback
  suspension_resumed h t s r e =
      resumed t s r (resume_task-Resumed env t s) (sym (h.suspend t s) ∙ e)

  pub suspension-Frame :
      (h : Handlers env) (t : ℕ) (s r : Runtime Q Op W)
      → on_task_suspend_callback env t s ≡ (r, ok tt)
      → Frame s r
  unfolding on_task_suspend_callback
  suspension-Frame h t s r e =
      subst (λ x. Frame s x) (ap (λ p. p.0) (sym (h.suspend t s) ∙ e)) (resume_task-Frame env t s)

  -- An addition that returns: the task waits, or entered a queue.
  pub addition_resumed :
      (t : ℕ) (s r : Runtime Q Op W)
      → add_task env t s ≡ (r, ok tt)
      → ((0 < (s.tasks t).dependency_count) × (r ≡ counted_in env t s))
        ⊎ (((s.tasks t).dependency_count ≡ 0) × Enqueues env t (counted_in env t s) r)
  addition_resumed t s r e = rw (counted_in-dependencies env t t s) at (
      resumed t (counted_in env t s) r (resume_task-Resumed env t (counted_in env t s))
        (sym (add_task-resume_task env t s) ∙ e))

  pub addition-Frame :
      (t : ℕ) (s r : Runtime Q Op W) → add_task env t s ≡ (r, ok tt) → Frame (counted_in env t s) r
  addition-Frame t s r e =
      subst (λ x. Frame (counted_in env t s) x)
        (ap (λ p. p.0) (sym (add_task-resume_task env t s) ∙ e))
        (resume_task-Frame env t (counted_in env t s))

  -- What the finish of a task does after the release of its dependents.
  pub finish_eq :
      (h : Handlers env) (t : ℕ) (s s' r : Runtime Q Op W)
      → set_finished_task env t s ≡ (s', ok tt)
      → on_task_finish_callback env t s ≡ (r, ok tt)
      → r ≡ record s' { active_task_count = dec64 s'.active_task_count }
  unfolding on_task_finish_callback
  finish_eq h t s s' r e f =
      same_state (on_task_finish_callback env t s) _ r (ok tt) (ok tt) (rw (e, h.finish t s') refl)
        f
