-- ===== src/Runtime/Frame.antt =====
-- What no operation of a worker or of a task changes, on any of its branches: the settings of the
-- runtime, the number of workers, and of each task its affinity and its output dependencies.
pub mod Operations
use task_r.Base.{
  ℕ, ◌==◌, ◌≡◌, refl, ◌∙◌, List, [], ◌∷◌, Option, none, some, get_elem?, length, length-set, set, M,
  Outcome, ok, throw, blocked, undefined, arith, ◌>>=◌, ◌>>◌, after, Option-cases, Bool-cases, inl,
  inr, true, pure, ltb, leb_ℤ, pos, negsuc, ℤ,
}
use task_r.Queue
use task_r.Task
use task_r.Worker
use task_r.Worker.{Worker}
use task_r.Runtime.State.{Runtime, Environment, task_worker}
use task_r.Runtime.Tasks.{push_common, push_own, make_ready, resume_task, release, release_all}
use task_r.Runtime.Services.{check_termination}
use task_r.Runtime.Scheduling.{
  next_task, poll, poll_task, settle, set_failed, check_task_worker_suspension, asked,
}

module _ {Q Op W : Type 0} where
  pub record Setting (s s' : Runtime Q Op W) : Type 0 where
    pub force_terminate : s'.force_terminate ≡ s.force_terminate
    pub services : s'.make_task_workers_run_services ≡ s.make_task_workers_run_services
    pub finish_on_last_task : s'.finish_on_last_task ≡ s.finish_on_last_task
    pub workers : length s'.task_workers ≡ length s.task_workers
    pub affinity : (u : ℕ) → (s'.tasks u).worker_affinity ≡ (s.tasks u).worker_affinity
    pub outputs : (u : ℕ) → (s'.tasks u).output_dependencies ≡ (s.tasks u).output_dependencies

  -- The same, and no counter of dependencies changes either.
  pub record Frame (s s' : Runtime Q Op W) : Type 0 where
    pub setting : Setting s s'
    pub counts : (u : ℕ) → (s'.tasks u).dependency_count ≡ (s.tasks u).dependency_count

  pub Setting-refl : (s : Runtime Q Op W) → Setting s s
  Setting-refl s = record {
    force_terminate = refl;
    services = refl;
    finish_on_last_task = refl;
    workers = refl;
    affinity = λ u. refl;
    outputs = λ u. refl;
  }

  pub Setting-trans : {s s' s'' : Runtime Q Op W} → Setting s s' → Setting s' s'' → Setting s s''
  Setting-trans v w = record {
    force_terminate = w.force_terminate ∙ v.force_terminate;
    services = w.services ∙ v.services;
    finish_on_last_task = w.finish_on_last_task ∙ v.finish_on_last_task;
    workers = w.workers ∙ v.workers;
    affinity = λ u. w.affinity u ∙ v.affinity u;
    outputs = λ u. w.outputs u ∙ v.outputs u;
  }

  pub Frame-refl : (s : Runtime Q Op W) → Frame s s
  Frame-refl s = record { setting = Setting-refl s; counts = λ u. refl }

  pub Frame-trans : {s s' s'' : Runtime Q Op W} → Frame s s' → Frame s' s'' → Frame s s''
  Frame-trans v w = record {
    setting = Setting-trans v.setting w.setting;
    counts = λ u. w.counts u ∙ v.counts u;
  }

  -- A sequence keeps what both calls keep.
  pub after-Frame :
      {A B : Type 0} (s : Runtime Q Op W) (r : Runtime Q Op W × Outcome A)
      (f : A → M (Runtime Q Op W) B)
      → Frame s r.0
      → ((a : A) → r.1 ≡ ok a → Frame r.0 (f a r.0).0)
      → Frame s (after r f).0
  after-Frame s (s1, ok a) f v h = Frame-trans v (h a refl)
  after-Frame s (s1, throw e) f v h = v
  after-Frame s (s1, blocked) f v h = v
  after-Frame s (s1, undefined) f v h = v

  pub bind-Frame :
      {A B : Type 0} (s : Runtime Q Op W) (m : M (Runtime Q Op W) A) (f : A → M (Runtime Q Op W) B)
      → Frame s (m s).0
      → ((a : A) (s1 : Runtime Q Op W) → Frame s1 (f a s1).0)
      → Frame s ((m >>= f) s).0
  bind-Frame s m f v h = after-Frame s (m s) f v (λ a e. h a (m s).0)

  -- A worker in the place of another.
  pub set-Frame :
      (i : ℕ) (w : Worker Q) (s : Runtime Q Op W)
      → Frame s (record s { task_workers = set s.task_workers i w })
  set-Frame i w s = record {
    setting = record {
      force_terminate = refl;
      services = refl;
      finish_on_last_task = refl;
      workers = length-set s.task_workers i w;
      affinity = λ u. refl;
      outputs = λ u. refl;
    };
    counts = λ u. refl;
  }

  -- A change of the queues, the world, the calls or the counters.
  pub plain-Frame :
      (s s' : Runtime Q Op W)
      → s'.force_terminate ≡ s.force_terminate
      → s'.make_task_workers_run_services ≡ s.make_task_workers_run_services
      → s'.finish_on_last_task ≡ s.finish_on_last_task
      → s'.task_workers ≡ s.task_workers
      → s'.tasks ≡ s.tasks
      → Frame s s'
  plain-Frame s s' e f g h k = record {
    setting = record {
      force_terminate = e;
      services = f;
      finish_on_last_task = g;
      workers = ground arith;
      affinity = λ u. ground arith;
      outputs = λ u. ground arith;
    };
    counts = λ u. ground arith;
  }
