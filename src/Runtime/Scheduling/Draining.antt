-- ===== src/Runtime/Scheduling/Draining.antt =====
-- A forced termination: the queues are emptied, and each discarded task is taken off the counter.
use task_r.Base.{
  ℕ, zero, suc, ◌+◌, ◌<◌, ◌≤◌, ◌^◌, ◌≡◌, refl, [], some, get_elem?, set, length, arith, ok, dec64,
  dec64-sub, get_elem?-set_self, get_elem?-lt, inl, inr, ap,
}
use task_r.Queue
use task_r.Worker.{Worker}
use task_r.Runtime.State.{Runtime, Environment}
use task_r.Runtime.Scheduling.{drain_common, drain_own, clear_queues}

module _ {Q Op W : Type 0} (env : Environment Q Op W) where
  pub record DrainsCommon (s s' : Runtime Q Op W) : Type 0 where
    pub empty : env.queue.contents s'.common_ready_task_queue ≡ []
    pub counted :
        s'.active_task_count + length (env.queue.contents s.common_ready_task_queue)
        ≡ s.active_task_count
    pub workers : s'.task_workers ≡ s.task_workers

  pub drain_common_lem :
      (fuel : ℕ) (s : Runtime Q Op W)
      → length (env.queue.contents s.common_ready_task_queue) < fuel
      → length (env.queue.contents s.common_ready_task_queue) ≤ s.active_task_count
      → s.active_task_count < 2 ^ 64
      → (s' : Runtime Q Op W) × (drain_common env fuel s ≡ (s', ok tt)) × DrainsCommon s s'
  unfolding drain_common
  drain_common_lem zero s enough few small = absurd (omega arith)
  drain_common_lem (suc fuel) s enough few small =
      elim (Queue.pop-cases env.queue s.common_ready_task_queue) [
        | inl (nil, e, _) ↦ (
          s,
          rw e,
          record { empty = nil; counted = omega (arith, ap length nil); workers = refl },
        )
        | inr (task, q, popped, items, _, e) ↦
            let size = ap length items in
            let s1 : Runtime Q Op W = record s {
              common_ready_task_queue = q;
              active_task_count = dec64 s.active_task_count;
            } in
            let one = dec64-sub s.active_task_count (omega arith) small in
            let (s', f, v) = drain_common_lem fuel s1 (omega arith) (omega arith) (omega arith) in
            (
              s',
              rw (e, popped) f,
              record { empty = v.empty; counted = omega (arith, v.counted); workers = v.workers },
            )
      ]

  pub record DrainsOwn (i : ℕ) (w : Worker Q) (s s' : Runtime Q Op W) : Type 0 where
    pub left :
        (w' : Worker Q) × (get_elem? s'.task_workers i ≡ some w')
        × (env.queue.contents w'.ready_task_queue ≡ [])
    pub counted :
        s'.active_task_count + length (env.queue.contents w.ready_task_queue) ≡ s.active_task_count
    pub common : s'.common_ready_task_queue ≡ s.common_ready_task_queue

  pub drain_own_lem :
      (fuel i : ℕ) (w : Worker Q) (s : Runtime Q Op W)
      → get_elem? s.task_workers i ≡ some w
      → length (env.queue.contents w.ready_task_queue) < fuel
      → length (env.queue.contents w.ready_task_queue) ≤ s.active_task_count
      → s.active_task_count < 2 ^ 64
      → (s' : Runtime Q Op W) × (drain_own env fuel i w s ≡ (s', ok tt)) × DrainsOwn i w s s'
  unfolding drain_own
  drain_own_lem zero i w s at enough few small = absurd (omega arith)
  drain_own_lem (suc fuel) i w s at enough few small =
      elim (Queue.pop-cases env.queue w.ready_task_queue) [
        | inl (nil, e, _) ↦ (
          s,
          rw e,
          record { left = (w, at, nil); counted = omega (arith, ap length nil); common = refl },
        )
        | inr (task, q, popped, items, _, e) ↦
            let size = ap length items in
            let w1 : Worker Q = record w { ready_task_queue = q } in
            let s1 : Runtime Q Op W = record s {
              task_workers = set s.task_workers i w1;
              active_task_count = dec64 s.active_task_count;
            } in
            let one = dec64-sub s.active_task_count (omega arith) small in
            let (s', f, v) =
              drain_own_lem fuel i w1 s1
                (get_elem?-set_self s.task_workers i w1 (get_elem?-lt s.task_workers i at))
                (omega arith) (omega arith) (omega arith) in
            (
              s',
              rw (e, popped) f,
              record { left = v.left; counted = omega (arith, v.counted); common = v.common },
            )
      ]

  -- With the counter of active tasks at least the number of queued ones, a forced termination
  -- empties the common queue and the worker's own, and takes exactly the discarded tasks off the
  -- counter. Both loops end.
  pub clear_queues_lem :
      (i : ℕ) (w : Worker Q) (s : Runtime Q Op W)
      → get_elem? s.task_workers i ≡ some w
      → length (env.queue.contents s.common_ready_task_queue)
          + length (env.queue.contents w.ready_task_queue)
        ≤ s.active_task_count
      → s.active_task_count < 2 ^ 64
      → (s' : Runtime Q Op W) × (clear_queues env i s ≡ (s', ok tt))
        × (env.queue.contents s'.common_ready_task_queue ≡ [])
        × ((w' : Worker Q) × (get_elem? s'.task_workers i ≡ some w')
            × (env.queue.contents w'.ready_task_queue ≡ []))
        × (s'.active_task_count
              + (length (env.queue.contents s.common_ready_task_queue)
                  + length (env.queue.contents w.ready_task_queue))
            ≡ s.active_task_count)
  unfolding clear_queues
  clear_queues_lem i w s at few small =
      let common_size = env.queue.was_size-length s.common_ready_task_queue in
      let own_size = env.queue.was_size-length w.ready_task_queue in
      let (s1, e, v) =
        drain_common_lem (suc (env.queue.was_size s.common_ready_task_queue)) s (omega arith)
          (omega arith) small in
      let at1 : get_elem? s1.task_workers i ≡ some w = rw v.workers at in
      let (s2, f, u) =
        drain_own_lem (suc (env.queue.was_size w.ready_task_queue)) i w s1 at1 (omega arith)
          (omega (arith, v.counted)) (omega (arith, v.counted)) in
      (s2, rw (e, at1, f), rw u.common v.empty, u.left, omega (arith, u.counted, v.counted))
