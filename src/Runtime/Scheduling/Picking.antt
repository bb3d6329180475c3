-- ===== src/Runtime/Scheduling/Picking.antt =====
-- The search for a task: the worker's own queue first, then the common one.
use task_r.Base.{
  ℕ, ◌+◌, ◌≤◌, ◌≡◌, inl, inr, refl, List, [], ◌∷◌, Option, none, some, length, length-set,
  get_elem?, set, arith, ok, ◌==◌, if◌then◌else◌, ap,
}
use task_r.Queue
use task_r.Worker.{Worker}
use task_r.Runtime.State.{Runtime, Environment}
use task_r.Runtime.Queued.{queued, queued_own-pop, queued_own-put, RoomFor, WorkersHaveRoom-put}
use task_r.Runtime.Scheduling.{next_task}

-- How often a task stands in the queues together with the one that was taken.
abbrev pub taken : Option ℕ → ℕ → ℕ
taken none u = 0
taken (some t) u = if t == u then 1 else 0

-- The result of the search: the oldest task of the worker's own queue, if it has one, or else the
-- oldest of the common queue, or else none.
abbrev pub first_of_queues : List ℕ → List ℕ → Option ℕ
first_of_queues (t ∷ own) common = some t
first_of_queues [] (t ∷ common) = some t
first_of_queues [] [] = none

module _ {Q Op W : Type 0} (env : Environment Q Op W) where
  -- What a search for a task leaves as it was.
  pub record SameBesidesQueues (s s' : Runtime Q Op W) : Type 0 where
    pub tasks : s'.tasks ≡ s.tasks
    pub world : s'.world ≡ s.world
    pub active : s'.active_task_count ≡ s.active_task_count
    pub active_workers : s'.active_task_worker_count ≡ s.active_task_worker_count
    pub workers : length s'.task_workers ≡ length s.task_workers
    pub room : (n : ℕ) → RoomFor env.queue n s → RoomFor env.queue n s'

  pub record Finds (i : ℕ) (w : Worker Q) (s s' : Runtime Q Op W) (r : Option ℕ) : Type 0 where
    pub oldest :
        r
        ≡ first_of_queues
            (env.queue.contents w.ready_task_queue)
            (env.queue.contents s.common_ready_task_queue)
    pub kept : (u : ℕ) → queued env.queue u s' + taken r u ≡ queued env.queue u s
    pub same : SameBesidesQueues s s'

  popped-Same :
      (i : ℕ) (w : Worker Q) (s : Runtime Q Op W) (q c : Q)
      → get_elem? s.task_workers i ≡ some w
      → length (env.queue.contents q) ≤ length (env.queue.contents w.ready_task_queue)
      → env.queue.capacity q ≡ env.queue.capacity w.ready_task_queue
      → length (env.queue.contents c) ≤ length (env.queue.contents s.common_ready_task_queue)
      → env.queue.capacity c ≡ env.queue.capacity s.common_ready_task_queue
      → SameBesidesQueues s (record s {
        task_workers = set s.task_workers i (record w { ready_task_queue = q });
        common_ready_task_queue = c;
      })
  popped-Same i w s q c at fewer cap fewer' cap' = record {
    tasks = refl;
    world = refl;
    active = refl;
    active_workers = refl;
    workers = length-set s.task_workers i (record w { ready_task_queue = q });
    room =
        λ n r. (omega arith, WorkersHaveRoom-put env.queue n i s.task_workers w q at fewer cap r.1);
  }

  -- A worker takes the oldest task of its own queue, and of the common queue only if its own is
  -- empty; the task leaves that queue and no other task leaves or enters one.
  pub next_task-Finds :
      (i : ℕ) (w : Worker Q) (s : Runtime Q Op W)
      → get_elem? s.task_workers i ≡ some w
      → (s' : Runtime Q Op W) × (r : Option ℕ) × (next_task env i s ≡ (s', ok r)) × Finds i w s s' r
  unfolding next_task
  next_task-Finds i w s at = elim (Queue.pop-cases env.queue w.ready_task_queue) [
    | inl (nil, _, e) ↦ elim (Queue.pop-cases env.queue s.common_ready_task_queue) [
      | inl (nil', _, f) ↦ (
        record s { task_workers = set s.task_workers i w },
        none,
        ground arith,
        record {
          oldest = ground arith;
          kept = λ u. ground (arith, queued_own-put env.queue u i s.task_workers w w at refl);
          same =
              popped-Same i w s w.ready_task_queue s.common_ready_task_queue at (omega arith) refl
                (omega arith) refl;
        },
      )
      | inr (t, q, f, items, cap', _) ↦ (
        record s { task_workers = set s.task_workers i w; common_ready_task_queue = q },
        some t,
        ground arith,
        record {
          oldest = ground arith;
          kept = λ u. ground (arith, queued_own-put env.queue u i s.task_workers w w at refl);
          same =
              popped-Same i w s w.ready_task_queue q at (omega arith) refl
                (omega (arith, ap length items)) cap';
        },
      )
    ]
    | inr (t, q, e, items, cap', _) ↦ (
      record s { task_workers = set s.task_workers i (record w { ready_task_queue = q }) },
      some t,
      ground arith,
      record {
        oldest = ground arith;
        kept = λ u. ground (arith, queued_own-pop env.queue u t i s.task_workers w q at items);
        same =
            popped-Same i w s q s.common_ready_task_queue at (omega (arith, ap length items)) cap'
              (omega arith) refl;
      },
    )
  ]
