-- ===== src/Runtime/Scheduling/Settling.antt =====
-- What the end of a turn of a task worker leaves alone: the queues, the tasks and the counters.
use task_r.Base.{
  ℕ, ◌<◌, ◌≡◌, refl, ◌∙◌, Option, none, some, get_elem?, get_elem?-some, length, length-set, arith,
  ok, Outcome, M, ◌>>=◌, ◌>>◌, false, set, pure,
}
use task_r.Worker
use task_r.Worker.{Worker}
use task_r.Runtime.State.{Runtime, Environment, task_worker}
use task_r.Runtime.Queued.{queued, queued_own-put}
use task_r.Runtime.Services.{check_termination}
use task_r.Runtime.Scheduling.{set_failed, check_task_worker_suspension, settle}

module _ {Q Op W : Type 0} (env : Environment Q Op W) where
  pub record Keeps (s s' : Runtime Q Op W) : Type 0 where
    pub queues : (u : ℕ) → queued env.queue u s' ≡ queued env.queue u s
    pub tasks : s'.tasks ≡ s.tasks
    pub active : s'.active_task_count ≡ s.active_task_count
    pub active_workers : s'.active_task_worker_count ≡ s.active_task_worker_count
    pub workers : length s'.task_workers ≡ length s.task_workers

  Keeps-trans : {s s' s'' : Runtime Q Op W} → Keeps s s' → Keeps s' s'' → Keeps s s''
  Keeps-trans v w = record {
    queues = λ u. w.queues u ∙ v.queues u;
    tasks = w.tasks ∙ v.tasks;
    active = w.active ∙ v.active;
    active_workers = w.active_workers ∙ v.active_workers;
    workers = w.workers ∙ v.workers;
  }

  failed_queue :
      (t : ℕ) (w : Worker Q)
      → (Worker.set_failed_to_retrieve_task t w).ready_task_queue ≡ w.ready_task_queue
  unfolding Worker.set_failed_to_retrieve_task
  failed_queue t w = ground arith

  put-Keeps :
      (i : ℕ) (w w' : Worker Q) (world : W) (s : Runtime Q Op W)
      → get_elem? s.task_workers i ≡ some w
      → w'.ready_task_queue ≡ w.ready_task_queue
      → Keeps s (record s { task_workers = set s.task_workers i w'; world = world })
  put-Keeps i w w' world s at same = record {
    queues = λ u. ground (arith, queued_own-put env.queue u i s.task_workers w w' at same);
    tasks = refl;
    active = refl;
    active_workers = refl;
    workers = length-set s.task_workers i w';
  }

  -- The calls that return and keep the queues.
  seq :
      (m k : M (Runtime Q Op W) (Unit {0})) (s : Runtime Q Op W)
      → (m s).1 ≡ ok tt
      → (m >> k) s ≡ k (m s).0
  seq m k s e = ground arith

  abbrev KeepsQueues : Runtime Q Op W → Runtime Q Op W × Outcome (Unit {0}) → Type 0
  KeepsQueues s r = (r.1 ≡ ok tt) × Keeps s r.0

  set_failed-Keeps :
      (i : ℕ) (s : Runtime Q Op W) → i < length s.task_workers → KeepsQueues s (set_failed env i s)
  unfolding set_failed
  set_failed-Keeps i s lt =
      let (w, at) = get_elem?-some s.task_workers i lt in
      let t = env.read_clock s.world in
      (
        ground arith,
        ground (
          arith,
          put-Keeps i w (Worker.set_failed_to_retrieve_task t.0 w) t.1 s at (failed_queue t.0 w),
        ),
      )

  check_task_worker_suspension-Keeps :
      (i : ℕ) (s : Runtime Q Op W)
      → i < length s.task_workers
      → KeepsQueues s (check_task_worker_suspension env i s)
  unfolding check_task_worker_suspension
  check_task_worker_suspension-Keeps i s lt =
      let (w, at) = get_elem?-some s.task_workers i lt in ground arith

  seq-Keeps :
      (m k : M (Runtime Q Op W) (Unit {0})) (s : Runtime Q Op W)
      → KeepsQueues s (m s)
      → KeepsQueues (m s).0 (k (m s).0)
      → KeepsQueues s ((m >> k) s)
  seq-Keeps m k s (e, v) (f, w) = rw (seq m k s e) (f, Keeps-trans v w)

  terminating-Keeps :
      (i : ℕ) (s : Runtime Q Op W)
      → KeepsQueues s ((check_termination (task_worker i) >>= λ _. pure tt) s)
  unfolding check_termination
  terminating-Keeps i s = ground arith

  pub settle-Keeps :
      (i : ℕ) (r : Option ℕ) (s : Runtime Q Op W)
      → i < length s.task_workers
      → KeepsQueues s (settle env i r s)
  unfolding settle
  settle-Keeps i none s lt =
      let first = set_failed-Keeps i s lt in
      let s1 = (set_failed env i s).0 in
      let second = check_task_worker_suspension-Keeps i s1 (omega (arith, first.1.workers)) in
      seq-Keeps (set_failed env i)
        (check_task_worker_suspension env i >> (check_termination (task_worker i) >>= λ _. pure tt))
        s first
        (seq-Keeps (check_task_worker_suspension env i)
          (check_termination (task_worker i) >>= λ _. pure tt) s1 second
          (terminating-Keeps i (check_task_worker_suspension env i s1).0))
  settle-Keeps i (some t) s lt =
      let (w, at) = get_elem?-some s.task_workers i lt in
      (
        ground arith,
        ground (
          arith,
          put-Keeps i w (record w { has_failed_to_retrieve_task = false }) s.world s at refl,
        ),
      )
