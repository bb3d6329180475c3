-- ===== src/Runtime/Scheduling/Loop.antt =====
-- One turn of `taskWorkerLoop`, without a forced termination and without services.
use task_r.Base.{
  ℕ, ◌+◌, ◌<◌, ◌^◌, ◌≡◌, refl, ap, ◌∙◌, Option, none, some, List, [], ◌∷◌, get_elem?, get_elem?-lt,
  length, arith, ok, M, modify, pure, ◌>>=◌, ◌>>◌, false, inc64, dec64, dec64-inc64,
}
use task_r.Task
use task_r.Worker.{Worker}
use task_r.Runtime.State.{Runtime, Environment}
use task_r.Runtime.Queued.{queued, RoomFor}
use task_r.Runtime.Frame.{Frame, Frame-trans, plain-Frame}
use task_r.Runtime.Frame.Operations.{turn-Frame}
use task_r.Runtime.Tasks.Resume.{HasValidAffinity, resume_task-Resumed, Resumed-Enqueues}
use task_r.Runtime.Scheduling.{task_worker_loop, next_task, poll_task, settle}
use task_r.Runtime.Scheduling.Picking.{taken, next_task-Finds, Finds}
use task_r.Runtime.Scheduling.Polling.{poll-Polls, Polls, hand_out, LeavesPending}
use task_r.Runtime.Scheduling.Settling.{Keeps, settle-Keeps}

module _ {Q Op W : Type 0} (env : Environment Q Op W) where
  -- What became of a task that was taken out of a queue.
  pub record Hands (t : ℕ) (s s' : Runtime Q Op W) (r : Option ℕ) : Type 0 where
    pub kept : (u : ℕ) → queued env.queue u s' + taken r u ≡ queued env.queue u s + taken (some t) u
    pub satisfied : (v : ℕ) → r ≡ some v → (s'.tasks v).pending_operations ≡ []
    pub active : s'.active_task_count ≡ s.active_task_count
    pub active_workers : s'.active_task_worker_count ≡ s.active_task_worker_count
    pub workers : length s'.task_workers ≡ length s.task_workers

  hand_out-Hands :
      (t : ℕ) (left : List Op) (w : W) (s s1 : Runtime Q Op W)
      → LeavesPending env t left w s s1
      → (s.tasks t).dependency_count ≡ 0
      → HasValidAffinity env s t
      → RoomFor env.queue 1 s
      → (s' : Runtime Q Op W) × (r : Option ℕ) × (hand_out env t left s1 ≡ (s', ok r))
        × Hands t s s' r
  hand_out-Hands t [] w s s1 v none_left valid room = (
    s1,
    some t,
    refl,
    record {
      kept = λ u. rw (v.workers, v.common) refl;
      satisfied = λ u e. ground (arith, v.pending);
      active = v.active;
      active_workers = v.active_workers;
      workers = ap length v.workers;
    },
  )
  hand_out-Hands t (op ∷ rest) w s s1 v none_left valid room =
      let (s', e, k) =
        Resumed-Enqueues env t s1 (resume_task-Resumed env t s1) ((v.others t).0 ∙ none_left)
          (rw (v.workers, (v.others t).1) valid) (rw (v.common, v.workers) room) in
      (
        s',
        none,
        ground arith,
        record {
          kept = λ u. ground (arith, k.entered u, v.workers, v.common);
          satisfied = λ u f. cc;
          active = k.active ∙ v.active;
          active_workers = k.active_workers ∙ v.active_workers;
          workers = k.workers ∙ ap length v.workers;
        },
      )

  -- Nothing was found, or the task that was found is polled.
  polled :
      (found : Option ℕ) (s : Runtime Q Op W)
      → ((t : ℕ) → found ≡ some t → (s.tasks t).dependency_count ≡ 0)
      → ((t : ℕ) → found ≡ some t → HasValidAffinity env s t)
      → ((t : ℕ) → found ≡ some t → RoomFor env.queue 1 s)
      → (s' : Runtime Q Op W) × (r : Option ℕ) × (poll_task env found s ≡ (s', ok r))
        × ((u : ℕ) → queued env.queue u s' + taken r u ≡ queued env.queue u s + taken found u)
        × ((v : ℕ) → r ≡ some v → (s'.tasks v).pending_operations ≡ [])
        × (s'.active_task_count ≡ s.active_task_count)
        × (s'.active_task_worker_count ≡ s.active_task_worker_count)
        × (length s'.task_workers ≡ length s.task_workers)
  unfolding Task.get_pending_operations Polls
  polled none s ready valid room = (s, none, refl, λ u. refl, λ v e. cc, refl, refl, refl)
  polled (some t) s ready valid room =
      let (s1, e, v) = poll-Polls env t (s.tasks t).pending_operations s refl in
      let (s', r, f, h) = hand_out-Hands t _ _ s s1 v (ready t refl) (valid t refl) (room t refl) in
      (s', r, e ∙ f, h.kept, h.satisfied, h.active, h.active_workers, h.workers)

  -- The state in which the worker looks for a task.
  abbrev polling_state : Runtime Q Op W → Runtime Q Op W
  polling_state s = record s { active_task_worker_count = inc64 s.active_task_worker_count }

  abbrev leave : Option ℕ → M (Runtime Q Op W) (Option ℕ)
  leave task = do
    modify (λ s. record s { active_task_worker_count = dec64 s.active_task_worker_count })
    pure task

  turn :
      (i : ℕ) (w : Worker Q) (s : Runtime Q Op W)
      → get_elem? s.task_workers i ≡ some w
      → s.force_terminate ≡ false
      → s.make_task_workers_run_services ≡ false
      → task_worker_loop env i s
        ≡ (next_task env i >>= λ found.
              poll_task env found >>= λ task. settle env i task >> leave task)
            (polling_state s)
  unfolding task_worker_loop
  turn i w s at calm alone = ground arith

  -- What one turn of a task worker does to the queues, the counters and the task it hands out.
  pub record Works (s s' : Runtime Q Op W) (r : Option ℕ) : Type 0 where
    pub kept : (u : ℕ) → queued env.queue u s' + taken r u ≡ queued env.queue u s
    pub satisfied : (t : ℕ) → r ≡ some t → (s'.tasks t).pending_operations ≡ []
    pub active : s'.active_task_count ≡ s.active_task_count
    pub active_workers : s'.active_task_worker_count ≡ s.active_task_worker_count

  -- What is known of the turn when the task was settled on, in state `s2`.
  record Settles (s s2 : Runtime Q Op W) (r : Option ℕ) : Type 0 where
    kept : (u : ℕ) → queued env.queue u s2 + taken r u ≡ queued env.queue u s
    satisfied : (t : ℕ) → r ≡ some t → (s2.tasks t).pending_operations ≡ []
    active : s2.active_task_count ≡ s.active_task_count
    active_workers : s2.active_task_worker_count ≡ inc64 s.active_task_worker_count

  left : Runtime Q Op W → Runtime Q Op W
  left s = record s { active_task_worker_count = dec64 s.active_task_worker_count }

  Settles-Works :
      (s s2 s3 : Runtime Q Op W) (r : Option ℕ)
      → Settles s s2 r
      → Keeps env s2 s3
      → s.active_task_worker_count < 2 ^ 64
      → Works s (left s3) r
  unfolding left
  Settles-Works s s2 s3 r v k few = record {
    kept = λ u. ground (arith, v.kept u, k.queues u);
    satisfied = λ t e. ap (λ ts. (ts t).pending_operations) k.tasks ∙ v.satisfied t e;
    active = k.active ∙ v.active;
    active_workers =
        ap dec64 (k.active_workers ∙ v.active_workers) ∙ dec64-inc64 s.active_task_worker_count few;
  }

  turn-Works :
      (i : ℕ) (s s1 s2 : Runtime Q Op W) (found r : Option ℕ)
      → i < length s2.task_workers
      → next_task env i (polling_state s) ≡ (s1, ok found)
      → poll_task env found s1 ≡ (s2, ok r)
      → Settles s s2 r
      → s.active_task_worker_count < 2 ^ 64
      → (s' : Runtime Q Op W) × ((next_task env i >>= λ found.
              poll_task env found >>= λ task. settle env i task >> leave task)
            (polling_state s)
          ≡ (s', ok r))
        × Works s s' r
  unfolding left
  turn-Works i s s1 s2 found r lt e f v few =
      let (done, k) = settle-Keeps env i r s2 lt in
      (left (settle env i r s2).0, ground arith, Settles-Works s s2 (settle env i r s2).0 r v k few)

  first_taken :
      (i : ℕ) (w : Worker Q) (s s' : Runtime Q Op W) {r : Option ℕ} (t : ℕ)
      → Finds env i w s s' r
      → r ≡ some t
      → 0 < queued env.queue t s
  first_taken i w s s' t v e = ground (arith, v.kept t)

  -- One turn of a task worker whose queues hold only tasks without dependencies, with room for a
  -- task to be put back and valid affinities: it returns. A task that it hands out has no pending
  -- operation left and has left the queues, once; all other tasks are queued as often as before, so
  -- that none is lost or duplicated; the two counters are as before.
  pub task_worker_loop-Works :
      (i : ℕ) (w : Worker Q) (s : Runtime Q Op W)
      → get_elem? s.task_workers i ≡ some w
      → s.force_terminate ≡ false
      → s.make_task_workers_run_services ≡ false
      → s.active_task_worker_count < 2 ^ 64
      → ((t : ℕ) → 0 < queued env.queue t s → (s.tasks t).dependency_count ≡ 0)
      → ((t : ℕ) → 0 < queued env.queue t s → HasValidAffinity env s t)
      → RoomFor env.queue 1 s
      → (s' : Runtime Q Op W) × (r : Option ℕ) × (task_worker_loop env i s ≡ (s', ok r))
        × Works s s' r
  task_worker_loop-Works i w s at calm alone few ready valid room =
      let (s1, found, e, v) = next_task-Finds env i w (polling_state s) at in
      let (s2, r, f, kept, satisfied, active, active_workers, workers) =
        polled found s1
          (λ t g.
            ap (λ ts. (ts t).dependency_count) v.same.tasks
            ∙ ready t (first_taken i w (polling_state s) s1 t v g))
          (λ t g.
            rw (v.same.workers, v.same.tasks)
              (valid t (first_taken i w (polling_state s) s1 t v g)))
          (λ t g. v.same.room 1 room) in
      let (s', g, works) =
        turn-Works i s s1 s2 found r
          (omega (arith, get_elem?-lt s.task_workers i at, v.same.workers)) e f
          (record {
            kept = λ u. kept u ∙ v.kept u;
            satisfied = satisfied;
            active = active ∙ v.same.active;
            active_workers = active_workers ∙ v.same.active_workers;
          })
          few in
      (s', r, turn i w s at calm alone ∙ g, works)

  -- A turn leaves the settings, the number of workers and the dependencies of all tasks alone.
  pub task_worker_loop-Frame :
      (i : ℕ) (w : Worker Q) (s : Runtime Q Op W)
      → get_elem? s.task_workers i ≡ some w
      → s.force_terminate ≡ false
      → s.make_task_workers_run_services ≡ false
      → Frame s (task_worker_loop env i s).0
  task_worker_loop-Frame i w s at calm alone = rw (turn i w s at calm alone) (
      Frame-trans (plain-Frame s (polling_state s) refl refl refl refl refl) (
        turn-Frame env i (polling_state s) leave
          (λ r s1. plain-Frame s1 _ refl refl refl refl refl)))
