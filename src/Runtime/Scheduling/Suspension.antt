-- ===== src/Runtime/Scheduling/Suspension.antt =====
-- When a task worker is put to sleep, and when it wakes up.
use task_r.Base.{
  ℕ, ◌-◌, ◌/◌, ◌<◌, ◌≤◌, ◌≡◌, ◌⊎◌, refl, List, [], ◌∷◌, ◌++◌, some, get_elem?, length, arith, ok,
  true, false, pos, negsuc, inl, inr, ap, get_elem?-set_self, get_elem?-lt, sym, ◌∙◌, Option-cases,
  after-eq-ok, ◌>>◌,
}
use task_r.Clock.{elapsed_forward, nanoseconds_per_ms}
use task_r.Queue
use task_r.Worker.{Worker}
use task_r.Runtime.State.{Runtime, Environment, suspend_worker, task_worker, resume_worker, call}
use task_r.Runtime.Tasks.{resume_task, push_own, make_ready}
use task_r.Runtime.Scheduling.{check_task_worker_suspension, check_resume_worker}

-- A list with an item at its end is not empty.
append-cons : (xs : List ℕ) (t : ℕ) → (y : ℕ) × (ys : List ℕ) × (xs ++ t ∷ [] ≡ y ∷ ys)
append-cons [] t = (t, [], refl)
append-cons (x ∷ xs) t = (x, xs ++ t ∷ [], refl)

module _ {Q Op W : Type 0} (env : Environment Q Op W) where
  -- The conditions for putting a worker to sleep, where `limit` is the time of inactivity: it failed
  -- to find a task last time, it has failed for longer than the limit, and more workers are active
  -- than the minimum.
  pub record IsIdle (limit : ℕ) (w : Worker Q) (s : Runtime Q Op W) : Type 0 where
    pub failed : w.has_failed_to_retrieve_task ≡ true
    pub long :
        limit < ((env.read_clock s.world).0 - w.failed_to_retrieve_task_time) / nanoseconds_per_ms
    pub spare : s.minimum_active_task_workers < s.active_task_worker_count

  -- With a time of inactivity set and a clock that was not set back since the worker's first failure,
  -- the check returns and asks the worker to suspend exactly when it is idle.
  pub suspends_when-IsIdle :
      (i limit : ℕ) (w : Worker Q) (s : Runtime Q Op W)
      → get_elem? s.task_workers i ≡ some w
      → s.task_worker_inactivity_time_ms ≡ pos limit
      → w.failed_to_retrieve_task_time ≤ (env.read_clock s.world).0
      → ((check_task_worker_suspension env i s).1 ≡ ok tt)
        × ((IsIdle limit w s
              × ((check_task_worker_suspension env i s).0.calls
                  ≡ s.calls ++ suspend_worker (task_worker i) ∷ []))
            ⊎ ((¬ IsIdle limit w s) × ((check_task_worker_suspension env i s).0.calls ≡ s.calls)))
  unfolding check_task_worker_suspension
  suspends_when-IsIdle i limit w s at set_limit forward = ground (
    arith,
    elapsed_forward nanoseconds_per_ms (env.read_clock s.world).0 w.failed_to_retrieve_task_time,
  )

  -- With a negative time of inactivity no worker is ever suspended.
  pub never_suspends :
      (i n : ℕ) (s : Runtime Q Op W)
      → s.task_worker_inactivity_time_ms ≡ negsuc n
      → (check_task_worker_suspension env i s).0 ≡ s
  unfolding check_task_worker_suspension
  never_suspends i n s e = ground arith

  own_queue_filled :
      (i t : ℕ) (s s' : Runtime Q Op W) (w : Worker Q)
      → push_own env i t s ≡ (s', ok tt)
      → get_elem? s'.task_workers i ≡ some w
      → Queue.was_empty env.queue w.ready_task_queue ≡ false
  unfolding push_own
  own_queue_filled i t s s' w h at = elim (Option-cases (get_elem? s.task_workers i)) [
    | inl e ↦ ground arith
    | inr (v, e) ↦ elim (Option-cases (Queue.push env.queue v.ready_task_queue t)) [
      | inl f ↦ ground arith
      | inr (q, f) ↦
          let (x, xs, g) = append-cons (env.queue.contents v.ready_task_queue) t in
          Queue.was_empty-false env.queue w.ready_task_queue x xs (
            ground (
              arith,
              g,
              Queue.contents-push env.queue v.ready_task_queue q t f,
              get_elem?-set_self s.task_workers i (record v { ready_task_queue = q })
                  (get_elem?-lt s.task_workers i e),
            ))
    ]
  ]

  resume_task_ready :
      (i t : ℕ) (s : Runtime Q Op W)
      → (s.tasks t).dependency_count ≡ 0
      → (s.tasks t).worker_affinity ≡ pos i
      → i < length s.task_workers
      → resume_task env t s ≡ make_ready env (pos i) t s
  unfolding resume_task
  resume_task_ready i t s none_left own lt = ground arith

  in_range :
      (i t : ℕ) (s s' : Runtime Q Op W)
      → (s.tasks t).dependency_count ≡ 0
      → (s.tasks t).worker_affinity ≡ pos i
      → resume_task env t s ≡ (s', ok tt)
      → i < length s.task_workers
  unfolding resume_task
  in_range i t s s' none_left own h = ground arith

  resume_task_own :
      (i t : ℕ) (s : Runtime Q Op W)
      → (s.tasks t).dependency_count ≡ 0
      → (s.tasks t).worker_affinity ≡ pos i
      → i < length s.task_workers
      → resume_task env t s ≡ (push_own env i t >> call (resume_worker (task_worker i))) s
  unfolding make_ready
  resume_task_own i t s none_left own lt = resume_task_ready i t s none_left own lt

  resume_task_pushes :
      (i t : ℕ) (s s' : Runtime Q Op W)
      → (s.tasks t).dependency_count ≡ 0
      → (s.tasks t).worker_affinity ≡ pos i
      → resume_task env t s ≡ (s', ok tt)
      → (s1 : Runtime Q Op W) × (push_own env i t s ≡ (s1, ok tt))
        × (s'.task_workers ≡ s1.task_workers)
  resume_task_pushes i t s s' none_left own h =
      let (s1, u, e, f) =
        after-eq-ok (push_own env i t s) _
          (sym (resume_task_own i t s none_left own (in_range i t s s' none_left own h)) ∙ h) in
      (s1, ground arith, ground arith)

  -- No wake-up is lost: after a task with an affinity was resumed, the resume check of its worker,
  -- also of one that sleeps, answers that it must go on.
  pub resumed_worker_wakes :
      (i t : ℕ) (s s' : Runtime Q Op W) (w : Worker Q)
      → (s.tasks t).dependency_count ≡ 0
      → (s.tasks t).worker_affinity ≡ pos i
      → resume_task env t s ≡ (s', ok tt)
      → get_elem? s'.task_workers i ≡ some w
      → check_resume_worker env i w s' ≡ true
  unfolding check_resume_worker
  resumed_worker_wakes i t s s' w none_left own h at =
      let (s1, e, f) = resume_task_pushes i t s s' none_left own h in
      let filled = own_queue_filled i t s s1 w e (ap (λ ws. get_elem? ws i) (sym f) ∙ at) in
      ground arith
