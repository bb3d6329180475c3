-- ===== src/Runtime/Frame/Operations.antt =====
-- The operations of tasks and the parts of a turn of a worker keep what Runtime/Frame says.
use task_r.Base.{
  ℕ, ◌==◌, refl, List, [], ◌∷◌, Option, none, some, get_elem?, length, M, Outcome, ok, throw,
  blocked, undefined, arith, ◌>>=◌, ◌>>◌, after, Option-cases, Bool-cases, inl, inr, true, pure,
  ltb, leb_ℤ, pos, negsuc, ℤ,
}
use task_r.Queue
use task_r.Task
use task_r.Worker
use task_r.Worker.{Worker}
use task_r.Runtime.State.{Runtime, Environment, task_worker}
use task_r.Runtime.Tasks.{push_common, push_own, make_ready, resume_task, release, release_all}
use task_r.Runtime.Services.{check_termination}
use task_r.Runtime.Scheduling.{
  next_task, poll, poll_task, settle, set_failed, check_task_worker_suspension, asked,
}
use task_r.Runtime.Frame.{
  Setting, Frame, Setting-refl, Setting-trans, Frame-refl, Frame-trans, bind-Frame, set-Frame,
  plain-Frame,
}

module _ {Q Op W : Type 0} (env : Environment Q Op W) where
  push_common-Frame : (t : ℕ) (s : Runtime Q Op W) → Frame s (push_common env t s).0
  unfolding push_common
  push_common-Frame t s = elim (Option-cases (Queue.push env.queue s.common_ready_task_queue t)) [
    | inl e ↦ rw e (Frame-refl s)
    | inr (q, e) ↦ rw e (plain-Frame s _ refl refl refl refl refl)
  ]

  push_own-Frame : (i t : ℕ) (s : Runtime Q Op W) → Frame s (push_own env i t s).0
  unfolding push_own
  push_own-Frame i t s = elim (Option-cases (get_elem? s.task_workers i)) [
    | inl e ↦ rw e (Frame-refl s)
    | inr (w, e) ↦ elim (Option-cases (Queue.push env.queue w.ready_task_queue t)) [
      | inl f ↦ rw (e, f) (Frame-refl s)
      | inr (q, f) ↦ rw (e, f) (set-Frame i (record w { ready_task_queue = q }) s)
    ]
  ]

  make_ready-Frame : (a : ℤ) (t : ℕ) (s : Runtime Q Op W) → Frame s (make_ready env a t s).0
  unfolding make_ready
  make_ready-Frame (pos i) t s =
      bind-Frame s (push_own env i t) _ (push_own-Frame i t s)
        (λ a s1. plain-Frame s1 _ refl refl refl refl refl)
  make_ready-Frame (negsuc i) t s = push_common-Frame t s

  pub resume_task-Frame : (t : ℕ) (s : Runtime Q Op W) → Frame s (resume_task env t s).0
  unfolding resume_task
  resume_task-Frame t s = elim (Bool-cases (ltb 0 (s.tasks t).dependency_count)) [
    | inl e ↦ rw e (Frame-refl s)
    | inr e ↦ elim (Bool-cases (leb_ℤ (pos (length s.task_workers)) (s.tasks t).worker_affinity)) [
      | inl f ↦ rw (e, f) (Frame-refl s)
      | inr f ↦ rw (e, f) (make_ready-Frame (s.tasks t).worker_affinity t s)
    ]
  ]

  -- Releases change counters of dependencies only, and the queues.
  release-Setting : (t : ℕ) (s : Runtime Q Op W) → Setting s (release env t s).0
  unfolding release Task.update Task.decrement_dependency_count
  release-Setting t s =
      let s1 = record s { tasks = Task.update t Task.decrement_dependency_count s.tasks } in
      let first : Setting s s1 = record {
        force_terminate = refl;
        services = refl;
        finish_on_last_task = refl;
        workers = refl;
        affinity = λ u. ground arith;
        outputs = λ u. ground arith;
      } in
      elim (Bool-cases ((s1.tasks t).dependency_count == 0)) [
        | inl e ↦ rw e (Setting-trans first (resume_task-Frame t s1).setting)
        | inr e ↦ rw e first
      ]

  after-Setting :
      {A B : Type 0} (s : Runtime Q Op W) (r : Runtime Q Op W × Outcome A)
      (f : A → M (Runtime Q Op W) B)
      → Setting s r.0
      → ((a : A) → Setting r.0 (f a r.0).0)
      → Setting s (after r f).0
  after-Setting s (s1, ok a) f v h = Setting-trans v (h a)
  after-Setting s (s1, throw e) f v h = v
  after-Setting s (s1, blocked) f v h = v
  after-Setting s (s1, undefined) f v h = v

  pub release_all-Setting : (ts : List ℕ) (s : Runtime Q Op W) → Setting s (release_all env ts s).0
  unfolding release_all
  release_all-Setting [] s = Setting-refl s
  release_all-Setting (t ∷ ts) s =
      after-Setting s (release env t s) (λ _. release_all env ts) (release-Setting t s)
        (λ a. release_all-Setting ts (release env t s).0)

  next_task-Frame : (i : ℕ) (s : Runtime Q Op W) → Frame s (next_task env i s).0
  unfolding next_task
  next_task-Frame i s = elim (Option-cases (get_elem? s.task_workers i)) [
    | inl e ↦ rw e (Frame-refl s)
    | inr (w, e) ↦
        let popped = Queue.pop env.queue w.ready_task_queue in
        let first = set-Frame i (record w { ready_task_queue = popped.1 }) s in
        elim (Option-cases popped.0) [
          | inl f ↦ rw (e, f) (Frame-trans first (plain-Frame _ _ refl refl refl refl refl))
          | inr (t, f) ↦ rw (e, f) first
        ]
  ]

  poll-Frame : (t : ℕ) (ops : List Op) (s : Runtime Q Op W) → Frame s (poll env t ops s).0
  unfolding poll Task.update
  poll-Frame t [] s = Frame-refl s
  poll-Frame t (op ∷ rest) s =
      let s1 = asked env (env.check op s.world).1 s in
      let s2 = record s1 {
        tasks = Task.update t (λ k. record k { pending_operations = rest }) s1.tasks;
      } in
      let popped : Frame s s2 = record {
        setting = record {
          force_terminate = refl;
          services = refl;
          finish_on_last_task = refl;
          workers = refl;
          affinity = λ u. ground arith;
          outputs = λ u. ground arith;
        };
        counts = λ u. ground arith;
      } in
      elim (Bool-cases (env.check op s.world).0) [
        | inl e ↦ rw e (Frame-trans popped (poll-Frame t rest s2))
        | inr e ↦ rw e (
            bind-Frame s (λ s. resume_task env t (asked env (env.check op s.world).1 s))
              (λ _. pure none)
              (Frame-trans (plain-Frame s s1 refl refl refl refl refl) (resume_task-Frame t s1))
              (λ a s3. Frame-refl s3))
      ]

  poll_task-Frame : (found : Option ℕ) (s : Runtime Q Op W) → Frame s (poll_task env found s).0
  unfolding Task.get_pending_operations
  poll_task-Frame none s = Frame-refl s
  poll_task-Frame (some t) s = poll-Frame t (s.tasks t).pending_operations s

  set_failed-Frame : (i : ℕ) (s : Runtime Q Op W) → Frame s (set_failed env i s).0
  unfolding set_failed
  set_failed-Frame i s = elim (Option-cases (get_elem? s.task_workers i)) [
    | inl e ↦ rw e (Frame-refl s)
    | inr (w, e) ↦ elim (Bool-cases w.has_failed_to_retrieve_task) [
      | inl f ↦ rw (e, f) (Frame-refl s)
      | inr f ↦
          rw (e, f)
            (Frame-trans
              (plain-Frame s (record s { world = (env.read_clock s.world).1 }) refl refl refl refl
                refl)
              (set-Frame i
                (record w {
                  has_failed_to_retrieve_task = true;
                  failed_to_retrieve_task_time = (env.read_clock s.world).0;
                })
                (record s { world = (env.read_clock s.world).1 })))
    ]
  ]

  suspension-Frame : (i : ℕ) (s : Runtime Q Op W) → Frame s (check_task_worker_suspension env i s).0
  unfolding check_task_worker_suspension
  suspension-Frame i s =
      plain-Frame s (check_task_worker_suspension env i s).0 (ground arith) (ground arith)
        (ground arith) (ground arith) (ground arith)

  termination-Frame : (i : ℕ) (s : Runtime Q Op W) → Frame s (check_termination (task_worker i) s).0
  unfolding check_termination
  termination-Frame i s =
      plain-Frame s (check_termination (task_worker i) s).0 (ground arith) (ground arith)
        (ground arith) (ground arith) (ground arith)

  settle-Frame : (i : ℕ) (r : Option ℕ) (s : Runtime Q Op W) → Frame s (settle env i r s).0
  unfolding settle
  settle-Frame i none s = bind-Frame s (set_failed env i) _ (set_failed-Frame i s) (λ a s1.
      bind-Frame s1 (check_task_worker_suspension env i) _ (suspension-Frame i s1) (λ b s2.
        bind-Frame s2 (check_termination (task_worker i)) _ (termination-Frame i s2)
          (λ c s3. Frame-refl s3)))
  settle-Frame i (some t) s = elim (Option-cases (get_elem? s.task_workers i)) [
    | inl e ↦ rw e (Frame-refl s)
    | inr (w, e) ↦ rw e (set-Frame i (Worker.reset_retrieve_task_success_flag w) s)
  ]

  -- The parts of a turn, from the search for a task to the end.
  pub turn-Frame :
      {A : Type 0} (i : ℕ) (s : Runtime Q Op W) (leave : Option ℕ → M (Runtime Q Op W) A)
      → ((r : Option ℕ) (s1 : Runtime Q Op W) → Frame s1 (leave r s1).0)
      → Frame s
          ((next_task env i >>= λ found. poll_task env found >>= λ r. settle env i r >> leave r)
            s).0
  turn-Frame i s leave last = bind-Frame s (next_task env i) _ (next_task-Frame i s) (λ found s1.
      bind-Frame s1 (poll_task env found) _ (poll_task-Frame found s1)
        (λ r s2. bind-Frame s2 (settle env i r) _ (settle-Frame i r s2) (λ a s3. last r s3)))
