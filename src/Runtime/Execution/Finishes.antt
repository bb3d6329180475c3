-- ===== src/Runtime/Execution/Finishes.antt =====
-- A task that is done keeps the invariant of a run: the tasks that waited for it alone enter a queue.
use task_r.Base.{
  Outcome, ℕ, ◌+◌, ◌≡◌, ◌++◌, List, [], ◌∷◌, length, arith, ok, All, dec64, sym, ap, refl, subst,
  ◌∙◌, dec64-sub,
}
use task_r.Task.{Store}
use task_r.Task.Graph.{count, waits_for, waits_for_middle, waits_for_same, IsConsistent}
use task_r.Task.Order.{count-middle, All-count, same-IsOrdered, remove-IsOrdered}
use task_r.Runtime.State.{Runtime, Environment}
use task_r.Runtime.Queued.{queued, RoomFor}
use task_r.Runtime.Frame.{Setting, Setting-trans, plain-Frame}
use task_r.Runtime.Frame.Operations.{release_all-Setting}
use task_r.Runtime.Tasks.{set_finished_task, on_task_finish_callback}
use task_r.Runtime.Tasks.Resume.{HasValidAffinity}
use task_r.Runtime.Tasks.Finish.{
  set_finished_task-Releases, release_all-Releases, waits_for-Releases, made_ready,
}
use task_r.Runtime.Execution.{Handlers}
use task_r.Runtime.Execution.Lists.{executes-middle}
use task_r.Runtime.Execution.Frames.{finish_eq}
use task_r.Runtime.Execution.Invariant.{Invariant, IsAcyclic, IsCalm, Setting-IsCalm}

-- One unfinished task stands first.
first-IsConsistent :
    {Op : Type 0} (store : Store Op) (newer older : List ℕ) (t : ℕ)
    → IsConsistent store (newer ++ t ∷ older)
    → IsConsistent store (t ∷ newer ++ older)
first-IsConsistent store newer older t c = record {
  counted = λ u. c.counted u ∙ waits_for_middle store newer older t u;
  fits = λ u. ground (arith, c.fits u, waits_for_middle store newer older t u);
}

module _ {Q Op W : Type 0} (env : Environment Q Op W) where
  -- What the release of the dependents of `t` and the rest of the callback did.
  record Finished (t : ℕ) (others : List ℕ) (s r : Runtime Q Op W) : Type 0 where
    setting : Setting s r
    graph : IsConsistent r.tasks others
    entered :
        (u : ℕ)
        → queued env.queue u r
          ≡ queued env.queue u s
            + made_ready env (waits_for s.tasks others u) (count u (s.tasks t).output_dependencies)
    active : r.active_task_count ≡ dec64 s.active_task_count
    active_workers : r.active_task_worker_count ≡ s.active_task_worker_count

  finish-Finished :
      (h : Handlers env) (t : ℕ) (others : List ℕ) (s r : Runtime Q Op W)
      → IsConsistent s.tasks (t ∷ others)
      → RoomFor env.queue (length (s.tasks t).output_dependencies) s
      → All (HasValidAffinity env s) (s.tasks t).output_dependencies
      → on_task_finish_callback env t s ≡ (r, ok tt)
      → Finished t others s r
  unfolding set_finished_task
  finish-Finished h t others s r c room valid run =
      let (s', e, graph, active, entered) =
        set_finished_task-Releases env t others s c room valid in
      let going = (s.tasks t).output_dependencies in
      let k =
        release_all-Releases env (waits_for s.tasks others) going s s'
          (waits_for-Releases env t others s c) e in
      let same : Setting s s' =
        subst (λ (p : Runtime Q Op W × Outcome (Unit {0})). Setting s p.0) e
          (release_all-Setting env going s) in
      subst (λ x. Finished t others s x) (sym (finish_eq env h t s s' r e run))
        (record {
          setting =
              Setting-trans same
                (plain-Frame s' (record s' { active_task_count = dec64 s'.active_task_count }) refl
                  refl refl refl refl).setting;
          graph = graph;
          entered = k.entered;
          active = ap dec64 active;
          active_workers = k.active_workers;
        })

  outputs_valid :
      (s : Runtime Q Op W) (newer older : List ℕ) (t : ℕ)
      → IsCalm env s (newer ++ t ∷ older)
      → IsAcyclic env s.tasks (newer ++ t ∷ older)
      → All (HasValidAffinity env s) (s.tasks t).output_dependencies
  outputs_valid s newer older t v a =
      All-count (HasValidAffinity env s) (s.tasks t).output_dependencies
        (λ u h. v.valid u (ground (arith, a.known u, waits_for_middle s.tasks newer older t u)))

  finished-IsAcyclic :
      (s r : Runtime Q Op W) (newer older : List ℕ) (t : ℕ)
      → waits_for s.tasks (newer ++ t ∷ older) t ≡ 0
      → Finished t (newer ++ older) s r
      → IsAcyclic env s.tasks (newer ++ t ∷ older)
      → IsAcyclic env r.tasks (newer ++ older)
  finished-IsAcyclic s r newer older t ready k a = record {
    distinct = λ u. ground (arith, a.distinct u, count-middle t u newer older);
    known = λ u h. ground (
      arith,
      a.known u,
      count-middle t u newer older,
      waits_for_middle s.tasks newer older t u,
      waits_for_same s.tasks r.tasks (newer ++ older) u k.setting.outputs,
    );
    graph = k.graph;
    order =
        same-IsOrdered s.tasks r.tasks (newer ++ older) k.setting.outputs
          (remove-IsOrdered s.tasks newer older t a.order);
  }

  length-middle :
      (t : ℕ) (newer older : List ℕ) → length (newer ++ t ∷ older) ≡ length (newer ++ older) + 1
  length-middle t [] older = omega arith
  length-middle t (n ∷ newer) older = omega (arith, length-middle t newer older)

  pub finishes-Invariant :
      (h : Handlers env) (i t : ℕ) (before later : List (ℕ × ℕ)) (newer older : List ℕ)
      (s r : Runtime Q Op W)
      → RoomFor env.queue (length (s.tasks t).output_dependencies) s
      → on_task_finish_callback env t s ≡ (r, ok tt)
      → Invariant env s (before ++ (i, t) ∷ later) (newer ++ t ∷ older)
      → Invariant env r (before ++ later) (newer ++ older)
  finishes-Invariant h i t before later newer older s r room run v =
      let k =
        finish-Finished h t (newer ++ older) s r
          (first-IsConsistent s.tasks newer older t v.tasks.graph) room
          (outputs_valid s newer older t v.settings v.tasks) run in
      let here = executes-middle i t t before later in
      let ready : waits_for s.tasks (newer ++ t ∷ older) t ≡ 0 = ground (arith, v.once t, here) in
      record {
        settings =
            Setting-IsCalm env (newer ++ t ∷ older) (newer ++ older) k.setting v.settings
              k.active_workers
              (ground (
                arith,
                k.active,
                v.settings.active,
                v.settings.few,
                length-middle t newer older,
                dec64-sub s.active_task_count,
              ))
              (omega (arith, v.settings.few, length-middle t newer older))
              (λ u h. ground (arith, count-middle t u newer older));
        tasks = finished-IsAcyclic s r newer older t ready k v.tasks;
        once = λ u. ground (
          arith,
          k.entered u,
          v.once u,
          executes-middle i t u before later,
          count-middle t u newer older,
          count-middle t t newer older,
          v.tasks.distinct t,
          waits_for_middle s.tasks newer older t u,
          v.tasks.known u,
          waits_for_same s.tasks r.tasks (newer ++ older) u k.setting.outputs,
        );
      }
