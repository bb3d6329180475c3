-- ===== src/Runtime/Execution/Invariant.antt =====
-- The invariant of a run, and that the turns of workers and the suspensions of tasks keep it.
use task_r.Base.{
  inl, inr, subst, Outcome, ℕ, ◌+◌, ◌<◌, ◌^◌, ◌≡◌, ◌==◌, ◌&&◌, ◌++◌, ltb, if◌then◌else◌, List, ◌∷◌,
  Option, some, get_elem?, length, arith, refl, ok, false, sym, ◌∙◌,
}
use task_r.Task.{Store}
use task_r.Task.Graph.{count, waits_for, waits_for_same, IsConsistent}
use task_r.Task.Order.{IsOrdered, same-IsOrdered}
use task_r.Worker.{Worker}
use task_r.Runtime.State.{Runtime, Environment}
use task_r.Runtime.Queued.{queued, RoomFor}
use task_r.Runtime.Frame.{Frame, Frame-trans, Setting}
use task_r.Runtime.Tasks.Resume.{HasValidAffinity}
use task_r.Runtime.Scheduling.{task_worker_loop}
use task_r.Runtime.Tasks.{on_task_suspend_callback}
use task_r.Runtime.Scheduling.Loop.{Works, task_worker_loop-Works, task_worker_loop-Frame}
use task_r.Runtime.Execution.{Handlers, executes, given_out, pends}
use task_r.Runtime.Execution.Lists.{executes-middle, executes-given_out}
use task_r.Runtime.Execution.Frames.{suspension_resumed, suspension-Frame, pends-Frame}

-- A task can run: it is unfinished and waits for no other.
abbrev pub runnable : {Op : Type 0} → Store Op → List ℕ → ℕ → ℕ
runnable store unfinished t =
    if ltb 0 (count t unfinished) && waits_for store unfinished t == 0 then 1 else 0

module _ {Q Op W : Type 0} (env : Environment Q Op W) where
  -- Of the settings and counters of the runtime.
  pub record IsCalm (r : Runtime Q Op W) (unfinished : List ℕ) : Type 0 where
    pub calm : r.force_terminate ≡ false
    pub alone : r.make_task_workers_run_services ≡ false
    pub polling : r.active_task_worker_count < 2 ^ 64
    pub active : r.active_task_count ≡ length unfinished
    pub few : length unfinished < 2 ^ 64
    pub valid : (t : ℕ) → 0 < count t unfinished → HasValidAffinity env r t

  -- Of the unfinished tasks and their dependencies.
  pub record IsAcyclic (store : Store Op) (unfinished : List ℕ) : Type 0 where
    pub distinct : (t : ℕ) → count t unfinished < 2
    pub known : (t : ℕ) → 0 < waits_for store unfinished t → count t unfinished ≡ 1
    pub graph : IsConsistent store unfinished
    pub order : IsOrdered store unfinished

  -- A task that can run stands in one queue once or is executed once, and no other does.
  pub record Invariant (r : Runtime Q Op W) (e : List (ℕ × ℕ)) (unfinished : List ℕ) : Type 0 where
    pub settings : IsCalm r unfinished
    pub tasks : IsAcyclic r.tasks unfinished
    pub once : (t : ℕ) → queued env.queue t r + executes t e ≡ runnable r.tasks unfinished t

  pub Frame-IsAcyclic :
      {r r' : Runtime Q Op W} (us : List ℕ)
      → Frame r r'
      → IsAcyclic r.tasks us
      → IsAcyclic r'.tasks us
  Frame-IsAcyclic {r} {r'} us f v =
      let same = λ (t : ℕ). waits_for_same r.tasks r'.tasks us t f.setting.outputs in
      record {
        distinct = v.distinct;
        known = λ t h. v.known t (ground (arith, same t));
        graph = record {
          counted = λ t. f.counts t ∙ v.graph.counted t ∙ sym (same t);
          fits = λ t. ground (arith, same t, v.graph.fits t);
        };
        order = same-IsOrdered r.tasks r'.tasks us f.setting.outputs v.order;
      }

  pub Setting-IsCalm :
      {r r' : Runtime Q Op W} (us us' : List ℕ)
      → Setting r r'
      → IsCalm r us
      → r'.active_task_worker_count ≡ r.active_task_worker_count
      → r'.active_task_count ≡ length us'
      → length us' < 2 ^ 64
      → ((t : ℕ) → 0 < count t us' → 0 < count t us)
      → IsCalm r' us'
  Setting-IsCalm us us' f v same active few within = record {
    calm = f.force_terminate ∙ v.calm;
    alone = f.services ∙ v.alone;
    polling = ground (arith, v.polling);
    active = active;
    few = few;
    valid = λ t h. rw (f.workers, f.affinity t) (v.valid t (within t h));
  }

  -- Neither the tasks nor their number changes, and each is queued or executed as often as before.
  pub keeps-Invariant :
      {r r' : Runtime Q Op W} (e e' : List (ℕ × ℕ)) (us : List ℕ)
      → Frame r r'
      → r'.active_task_worker_count ≡ r.active_task_worker_count
      → r'.active_task_count ≡ r.active_task_count
      → ((t : ℕ) → queued env.queue t r' + executes t e' ≡ queued env.queue t r + executes t e)
      → Invariant r e us
      → Invariant r' e' us
  keeps-Invariant {r} {r'} e e' us f workers active once v = record {
    settings =
        Setting-IsCalm us us f.setting v.settings workers (active ∙ v.settings.active)
          v.settings.few (λ t h. h);
    tasks = Frame-IsAcyclic us f v.tasks;
    once =
        λ t. once t ∙ v.once t ∙ rw (waits_for_same r.tasks r'.tasks us t f.setting.outputs) refl;
  }

  queued_ready :
      (r : Runtime Q Op W) (e : List (ℕ × ℕ)) (us : List ℕ) (t : ℕ)
      → Invariant r e us
      → 0 < queued env.queue t r
      → ((r.tasks t).dependency_count ≡ 0) × (0 < count t us)
  queued_ready r e us t v h =
      (ground (arith, v.once t, v.tasks.graph.counted t), ground (arith, v.once t))

  pub turns-Invariant :
      (i : ℕ) (w : Worker Q) (found : Option ℕ) (s r : Runtime Q Op W) (e : List (ℕ × ℕ))
      (us : List ℕ)
      → get_elem? s.task_workers i ≡ some w
      → RoomFor env.queue 1 s
      → task_worker_loop env i s ≡ (r, ok found)
      → Invariant s e us
      → Invariant r (given_out i found e) us
  turns-Invariant i w found s r e us at room run v =
      let (s', r', f, works) =
        task_worker_loop-Works env i w s at v.settings.calm v.settings.alone v.settings.polling
          (λ t h. (queued_ready s e us t v h).0)
          (λ t h. v.settings.valid t (queued_ready s e us t v h).1) room in
      let same : s' ≡ r = cc in
      let found_same : r' ≡ found = cc in
      let g : Works env s r found =
        subst (λ x. Works env s x found) same (subst (λ x. Works env s s' x) found_same works) in
      keeps-Invariant e (given_out i found e) us
        (subst (λ (p : Runtime Q Op W × Outcome (Option ℕ)). Frame s p.0) run
          (task_worker_loop-Frame env i w s at v.settings.calm v.settings.alone))
        g.active_workers g.active (λ t. omega (arith, g.kept t, executes-given_out i t found e)) v

  pub suspends-Invariant :
      (h : Handlers env) (i t : ℕ) (ops : List Op) (before later : List (ℕ × ℕ))
      (s r : Runtime Q Op W) (us : List ℕ)
      → on_task_suspend_callback env t (record s { tasks = pends t ops s.tasks }) ≡ (r, ok tt)
      → Invariant s (before ++ (i, t) ∷ later) us
      → Invariant r (before ++ later) us
  suspends-Invariant h i t ops before later s r us run v =
      let pended = record s { tasks = pends t ops s.tasks } in
      let first = pends-Frame env t ops s in
      let frame = Frame-trans first (suspension-Frame env h t pended r run) in
      let was = v.once t in
      elim (suspension_resumed env h t pended r run) [
        | inl (waits, e) ↦ absurd (
            ground (
              arith,
              first.counts t,
              v.tasks.graph.counted t,
              v.once t,
              executes-middle i t t before later,
            ))
        | inr (ready, k) ↦
            keeps-Invariant (before ++ (i, t) ∷ later) (before ++ later) us frame k.active_workers
              k.active (λ u. omega (arith, k.entered u, executes-middle i t u before later)) v
      ]
