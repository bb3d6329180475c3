-- ===== src/Runtime/Lifecycle/Loops.antt =====
-- The two loops of `initialize`: how many workers they make, and with which identifiers.
use task_r.Base.{
  ℕ, zero, suc, ◌+◌, ◌≤◌, ◌≡◌, refl, List, [], ◌∷◌, ◌++◌, length, length-append, get_elem?-some,
  arith, ok,
}
use task_r.Worker.{Worker}
use task_r.Runtime.State.{Runtime, Environment}
use task_r.Runtime.Lifecycle.{
  create_service_workers, create_task_workers, new_service_worker, new_task_worker,
}

-- The workers of a list carry their places as identifiers, from a first one on.
abbrev pub Numbered : {Q : Type 0} → ℕ → List (Worker Q) → Type 0
Numbered n [] = Unit {0}
Numbered n (w ∷ ws) = (w.worker_id ≡ n) × Numbered (n + 1) ws

module _ {Q : Type 0} where
  pub Numbered-append :
      (n m : ℕ) (ws : List (Worker Q)) (w : Worker Q)
      → Numbered n ws
      → n + length ws ≡ m
      → w.worker_id ≡ m
      → Numbered n (ws ++ w ∷ [])
  Numbered-append n m [] w h e f = (omega arith, tt)
  Numbered-append n m (v ∷ ws) w h e f = (h.0, Numbered-append (n + 1) m ws w h.1 (omega arith) f)

module _ {Q Op W : Type 0} (env : Environment Q Op W) where
  -- What a loop of `initialize` keeps of the state.
  pub record SamePlan (s s' : Runtime Q Op W) : Type 0 where
    pub resources : s'.compute_resources ≡ s.compute_resources
    pub services : s'.service_worker_count ≡ s.service_worker_count
    pub state : s'.state ≡ s.state

  pub record ServiceLoop (n : ℕ) (s s' : Runtime Q Op W) : Type 0 where
    pub plan : SamePlan s s'
    pub task_workers : s'.task_workers ≡ s.task_workers
    pub added : length s'.service_workers ≡ length s.service_workers + n
    pub numbered : Numbered 0 s.service_workers → Numbered 0 s'.service_workers

  pub create_service_workers_lem :
      (n resource id : ℕ) (s : Runtime Q Op W)
      → resource + n ≤ length s.compute_resources
      → length s.service_workers ≡ id
      → (s' : Runtime Q Op W) × (create_service_workers env n resource id s ≡ (s', ok tt))
        × ServiceLoop n s s'
  unfolding create_service_workers new_service_worker
  create_service_workers_lem zero resource id s fits at = (
    s,
    refl,
    record {
      plan = record { resources = refl; services = refl; state = refl };
      task_workers = refl;
      added = omega arith;
      numbered = λ h. h;
    },
  )
  create_service_workers_lem (suc n) resource id s fits at =
      let (r, e) = get_elem?-some s.compute_resources resource (omega arith) in
      let w : Worker Q = new_service_worker env id r in
      let s1 : Runtime Q Op W = record s { service_workers = s.service_workers ++ w ∷ [] } in
      let (s', f, v) =
        create_service_workers_lem n (resource + 1) (id + 1) s1 (omega arith)
          (omega (arith, length-append s.service_workers (w ∷ []))) in
      (
        s',
        rw e f,
        record {
          plan = record {
            resources = v.plan.resources;
            services = v.plan.services;
            state = v.plan.state;
          };
          task_workers = v.task_workers;
          added = omega (arith, v.added, length-append s.service_workers (w ∷ []));
          numbered =
              λ h. v.numbered (Numbered-append 0 id s.service_workers w h (omega arith) refl);
        },
      )

  pub record TaskLoop (n : ℕ) (s s' : Runtime Q Op W) : Type 0 where
    pub plan : SamePlan s s'
    pub service_workers : s'.service_workers ≡ s.service_workers
    pub added : length s'.task_workers ≡ length s.task_workers + n
    pub numbered : Numbered 0 s.task_workers → Numbered 0 s'.task_workers

  pub create_task_workers_lem :
      (n resource id : ℕ) (s : Runtime Q Op W)
      → resource + n ≤ length s.compute_resources
      → length s.task_workers ≡ id
      → (s' : Runtime Q Op W) × (create_task_workers env n resource id s ≡ (s', ok tt))
        × TaskLoop n s s'
  unfolding create_task_workers new_task_worker
  create_task_workers_lem zero resource id s fits at = (
    s,
    refl,
    record {
      plan = record { resources = refl; services = refl; state = refl };
      service_workers = refl;
      added = omega arith;
      numbered = λ h. h;
    },
  )
  create_task_workers_lem (suc n) resource id s fits at =
      let (r, e) = get_elem?-some s.compute_resources resource (omega arith) in
      let w : Worker Q = new_task_worker env id s.task_worker_suspend_interval_time_ms r in
      let s1 : Runtime Q Op W = record s { task_workers = s.task_workers ++ w ∷ [] } in
      let (s', f, v) =
        create_task_workers_lem n (resource + 1) (id + 1) s1 (omega arith)
          (omega (arith, length-append s.task_workers (w ∷ []))) in
      (
        s',
        rw e f,
        record {
          plan = record {
            resources = v.plan.resources;
            services = v.plan.services;
            state = v.plan.state;
          };
          service_workers = v.service_workers;
          added = omega (arith, v.added, length-append s.task_workers (w ∷ []));
          numbered = λ h. v.numbered (Numbered-append 0 id s.task_workers w h (omega arith) refl);
        },
      )
