-- ===== src/Runtime/Execution/Additions.antt =====
-- Adding a task keeps the invariant of a run.
use task_r.Base.{
  Option, ℕ, ◌+◌, ◌<◌, ◌^◌, ◌≡◌, ◌==◌, if◌then◌else◌, List, ◌∷◌, length, arith, ok, All, inc64, sym,
  ap, refl, subst, ◌&&◌, ◌∙◌, inc64-add, ℤ, pos, leb_ℤ, false, inl, inr,
}
use task_r.Task.{Store, Function}
use task_r.Task.Graph.{count, waits_for, waits_for_same}
use task_r.Task.Order.{
  All-count, same-IsOrdered, created, depend_on, Built, created-Built, depend_on-Built,
}
use task_r.Runtime.State.{Runtime, Environment}
use task_r.Runtime.Queued.{queued}
use task_r.Runtime.Tasks.{add_task}
use task_r.Runtime.Tasks.Add.{counted_in, counted_in-dependencies, counted_in-affinity}
use task_r.Runtime.Execution.Frames.{addition_resumed, addition-Frame, counted_in-outputs}
use task_r.Runtime.Execution.Invariant.{Invariant, IsAcyclic, Frame-IsAcyclic}

module _ {Q Op W : Type 0} (env : Environment Q Op W) where
  Built-IsAcyclic :
      (t : ℕ) (a : ℤ) (us : List ℕ) (n : ℕ) (store store' : Store Op)
      → Built t a us n store store'
      → count t us ≡ 0
      → IsAcyclic env store us
      → IsAcyclic env store' (t ∷ us)
  Built-IsAcyclic t a us n store store' b fresh v = record {
    distinct = λ u. ground (arith, v.distinct u);
    known = λ u h. ground (arith, b.waits u, v.known u);
    graph = b.consistent;
    order = (
      All-count (λ u. count u (store' t).output_dependencies ≡ 0) (t ∷ us)
          (λ u h. ap (count u) b.no_outputs),
      b.ordered,
    );
  }

  counted_in-IsAcyclic :
      (t : ℕ) (s : Runtime Q Op W) (us : List ℕ)
      → IsAcyclic env s.tasks us
      → IsAcyclic env (counted_in env t s).tasks us
  counted_in-IsAcyclic t s us v =
      let same = λ (u : ℕ).
        waits_for_same s.tasks (counted_in env t s).tasks us u
          (λ u. counted_in-outputs env t u s) in
      record {
        distinct = v.distinct;
        known = λ u h. v.known u (ground (arith, same u));
        graph = record {
          counted = λ u. counted_in-dependencies env t u s ∙ v.graph.counted u ∙ sym (same u);
          fits = λ u. ground (arith, same u, v.graph.fits u);
        };
        order =
            same-IsOrdered s.tasks (counted_in env t s).tasks us (λ u. counted_in-outputs env t u s)
              v.order;
      }

  -- The state in which the new task is added, with its dependencies.
  abbrev prepared : Store Op → Runtime Q Op W → Runtime Q Op W
  prepared store s = record s { tasks = store }

  -- The counters and the queues after the addition.
  record Added (t n : ℕ) (s r : Runtime Q Op W) : Type 0 where
    entered :
        (u : ℕ) → queued env.queue u r ≡ queued env.queue u s + (if t == u && n == 0 then 1 else 0)
    active : r.active_task_count ≡ inc64 s.active_task_count
    active_workers : r.active_task_worker_count ≡ s.active_task_worker_count

  add-Added :
      (t n : ℕ) (s r : Runtime Q Op W)
      → (s.tasks t).dependency_count ≡ n
      → add_task env t s ≡ (r, ok tt)
      → Added t n s r
  add-Added t n s r e run = elim (addition_resumed env t s r run) [
    | inl (waits, f) ↦
        subst (λ x. Added t n s x) (sym f)
          (record { entered = λ u. ground arith; active = refl; active_workers = refl })
    | inr (ready, k) ↦ record {
      entered = λ u. ground (arith, k.entered u);
      active = k.active;
      active_workers = k.active_workers;
    }
  ]

  add-Invariant :
      (t n : ℕ) (a : ℤ) (store : Store Op) (s r : Runtime Q Op W) (e : List (ℕ × ℕ)) (us : List ℕ)
      → count t us ≡ 0
      → length us + 1 < 2 ^ 64
      → leb_ℤ (pos (length s.task_workers)) a ≡ false
      → Built t a us n s.tasks store
      → add_task env t (prepared store s) ≡ (r, ok tt)
      → Invariant env s e us
      → Invariant env r e (t ∷ us)
  add-Invariant t n a store s r e us fresh few valid b run v =
      let p = prepared store s in
      let f = addition-Frame env t p r run in
      let unused : waits_for s.tasks us t ≡ 0 = ground (arith, v.tasks.known t) in
      let k = add-Added t n p r (ground (arith, b.consistent.counted t, b.waits t)) run in
      let acyclic = Frame-IsAcyclic env (t ∷ us) f (
        counted_in-IsAcyclic t p (t ∷ us)
          (Built-IsAcyclic t a us n s.tasks store b fresh v.tasks)) in
      record {
        settings = record {
          calm = f.setting.force_terminate ∙ v.settings.calm;
          alone = f.setting.services ∙ v.settings.alone;
          polling = ground (arith, k.active_workers, v.settings.polling);
          active = ground (arith, k.active, v.settings.active, inc64-add s.active_task_count);
          few = omega arith;
          valid = λ u h. ground (
            arith,
            f.setting.workers,
            f.setting.affinity u,
            counted_in-affinity env t u p,
            b.affinity u,
            v.settings.valid u,
          );
        };
        tasks = acyclic;
        once = λ u. ground (
          arith,
          k.entered u,
          v.once u,
          b.waits u,
          b.waits t,
          waits_for_same store (counted_in env t p).tasks (t ∷ us) u
              (λ w. counted_in-outputs env t w p),
          waits_for_same (counted_in env t p).tasks r.tasks (t ∷ us) u f.setting.outputs,
        );
      }

  -- `addTask` of a new task that depends on unfinished ones.
  pub adds-Invariant :
      (t : ℕ) (task_id : Option ℕ) (fc : Function) (a : ℤ) (ds : List ℕ) (s r : Runtime Q Op W)
      (e : List (ℕ × ℕ)) (us : List ℕ)
      → count t us ≡ 0
      → All (λ d. count d us ≡ 1) ds
      → length ds < 2 ^ 64
      → length us + 1 < 2 ^ 64
      → leb_ℤ (pos (length s.task_workers)) a ≡ false
      → add_task env t (record s { tasks = depend_on t ds (created t task_id fc a s.tasks) })
        ≡ (r, ok tt)
      → Invariant env s e us
      → Invariant env r e (t ∷ us)
  adds-Invariant t task_id fc a ds s r e us fresh all small few valid run v =
      let unused : waits_for s.tasks us t ≡ 0 = ground (arith, v.tasks.known t) in
      add-Invariant t (0 + length ds) a (depend_on t ds (created t task_id fc a s.tasks)) s r e us
        fresh few valid
        (depend_on-Built t a us ds 0 s.tasks (created t task_id fc a s.tasks)
          (created-Built t task_id fc a us s.tasks v.tasks.graph v.tasks.order fresh unused) all
          fresh unused (omega arith))
        run v
