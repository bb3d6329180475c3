-- ===== src/Runtime/Scheduling/Polling.antt =====
-- The loop over the pending operations of a task.
use task_r.Base.{
  ℕ, ◌≡◌, refl, List, [], ◌∷◌, Option, none, some, arith, M, ◌>>◌, pure, if◌then◌else◌, Bool-cases,
  inl, inr,
}
use task_r.Task
use task_r.Runtime.State.{Runtime, Environment}
use task_r.Runtime.Tasks.{resume_task}
use task_r.Runtime.Scheduling.{poll, asked}

module _ {Q Op W : Type 0} (env : Environment Q Op W) where
  -- The operations that are left once the satisfied ones before the first unsatisfied are removed,
  -- and the world after asking each once.
  unfoldable pub outstanding : List Op → W → List Op × W
  outstanding [] w = ([], w)
  outstanding (op ∷ rest) w =
      let (result, w') = env.check op w in
      let later = outstanding rest w' in if result then later else (op ∷ rest, w')

  -- The state that the loop leaves, with `left` still pending.
  pub record LeavesPending (t : ℕ) (left : List Op) (w : W) (s s' : Runtime Q Op W) : Type 0 where
    pub pending : (s'.tasks t).pending_operations ≡ left
    pub world : s'.world ≡ w
    pub others :
        (u : ℕ)
        → ((s'.tasks u).dependency_count ≡ (s.tasks u).dependency_count)
          × ((s'.tasks u).worker_affinity ≡ (s.tasks u).worker_affinity)
          × ((s'.tasks u).output_dependencies ≡ (s.tasks u).output_dependencies)
    pub workers : s'.task_workers ≡ s.task_workers
    pub common : s'.common_ready_task_queue ≡ s.common_ready_task_queue
    pub active : s'.active_task_count ≡ s.active_task_count
    pub active_workers : s'.active_task_worker_count ≡ s.active_task_worker_count

  -- A task with nothing left to wait for is handed out; any other is put back, and no task is.
  abbrev pub hand_out : ℕ → List Op → M (Runtime Q Op W) (Option ℕ)
  hand_out t [] = pure (some t)
  hand_out t (op ∷ rest) = do resume_task env t; pure none

  abbrev popped_front : ℕ → List Op → Runtime Q Op W → Runtime Q Op W
  popped_front t rest s = record s {
    tasks = Task.update t (λ k. record k { pending_operations = rest }) s.tasks;
  }

  popped_front-pending :
      (t : ℕ) (rest : List Op) (s : Runtime Q Op W)
      → ((popped_front t rest s).tasks t).pending_operations ≡ rest
  unfolding Task.update
  popped_front-pending t rest s = ground arith

  LeavesPending-popped :
      (t : ℕ) (rest left : List Op) (w w' : W) (s s' : Runtime Q Op W)
      → LeavesPending t left w (popped_front t rest (asked env w' s)) s'
      → LeavesPending t left w s s'
  unfolding Task.update
  LeavesPending-popped t rest left w w' s s' v = record {
    pending = v.pending;
    world = v.world;
    others = λ u. ground (arith, v.others u);
    workers = v.workers;
    common = v.common;
    active = v.active;
    active_workers = v.active_workers;
  }

  unfoldable pub Polls : ℕ → List Op → Runtime Q Op W → Type 0
  unfolding outstanding
  Polls t ops s =
      let (left, w) = outstanding ops s.world in
      (s1 : Runtime Q Op W) × (poll env t ops s ≡ hand_out t left s1) × LeavesPending t left w s s1

  -- Polling asks the pending operations in order up to the first that is not satisfied, removes the
  -- satisfied ones, and hands the task out if all of them were, and otherwise resumes it.
  pub poll-Polls :
      (t : ℕ) (ops : List Op) (s : Runtime Q Op W)
      → (s.tasks t).pending_operations ≡ ops
      → Polls t ops s
  unfolding Polls poll
  poll-Polls t [] s e = (s, refl, ground arith)
  poll-Polls t (op ∷ rest) s e = elim (Bool-cases (env.check op s.world).0) [
    | inl satisfied ↦
        let s1 = popped_front t rest (asked env (env.check op s.world).1 s) in
        let (s2, f, v) =
          poll-Polls t rest s1
            (popped_front-pending t rest (asked env (env.check op s.world).1 s)) in
        rw satisfied (s2, f, LeavesPending-popped t rest _ _ (env.check op s.world).1 s s2 v)
    | inr unsatisfied ↦ rw unsatisfied (asked env (env.check op s.world).1 s, refl, ground arith)
  ]
