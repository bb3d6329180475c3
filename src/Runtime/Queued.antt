-- ===== src/Runtime/Queued.antt =====
-- The abstract view of the ready queues: how often a task stands in them, whichever queue it is.
use task_r.Base.{
  ℕ, zero, suc, ◌+◌, ◌≤◌, ◌≡◌, length-append, List, [], ◌∷◌, ◌++◌, some, get_elem?, set, ◌==◌,
  if◌then◌else◌, arith, length,
}
use task_r.Task.Graph.{count, count-append}
use task_r.Queue.{AtomicQueue}
use task_r.Worker.{Worker}
use task_r.Runtime.State.{Runtime}

module _ {Q : Type 0} (lib : AtomicQueue Q) where
  abbrev pub queued_own : ℕ → List (Worker Q) → ℕ
  queued_own t [] = 0
  queued_own t (w ∷ ws) = count t (lib.contents w.ready_task_queue) + queued_own t ws

  -- Replacing a worker's queue by one with an item more counts that item once more.
  pub queued_own-push :
      (u t i : ℕ) (ws : List (Worker Q)) (w : Worker Q) (q : Q)
      → get_elem? ws i ≡ some w
      → lib.contents q ≡ lib.contents w.ready_task_queue ++ t ∷ []
      → queued_own u (set ws i (record w { ready_task_queue = q }))
        ≡ queued_own u ws + (if t == u then 1 else 0)
  queued_own-push u t i [] w q e h = cc
  queued_own-push u t zero (v ∷ ws) w q e h =
      ground (arith, count-append u (lib.contents w.ready_task_queue) (t ∷ []))
  queued_own-push u t (suc i) (v ∷ ws) w q e h = ground (arith, queued_own-push u t i ws w q e h)

  -- Replacing a worker's queue by one without its oldest item counts that item once less.
  pub queued_own-pop :
      (u t i : ℕ) (ws : List (Worker Q)) (w : Worker Q) (q : Q)
      → get_elem? ws i ≡ some w
      → lib.contents w.ready_task_queue ≡ t ∷ lib.contents q
      → queued_own u (set ws i (record w { ready_task_queue = q })) + (if t == u then 1 else 0)
        ≡ queued_own u ws
  queued_own-pop u t i [] w q e h = cc
  queued_own-pop u t zero (v ∷ ws) w q e h = ground arith
  queued_own-pop u t (suc i) (v ∷ ws) w q e h = ground (arith, queued_own-pop u t i ws w q e h)

  -- How often `t` stands in the ready queues of a runtime.
  abbrev pub queued : {Op W : Type 0} → ℕ → Runtime Q Op W → ℕ
  queued t s = count t (lib.contents s.common_ready_task_queue) + queued_own t s.task_workers

  -- Room for `n` more entries in a queue, in each worker's queue, and in every ready queue.
  abbrev pub HasRoom : ℕ → Q → Type 0
  HasRoom n q = length (lib.contents q) + n ≤ lib.capacity q

  abbrev pub WorkersHaveRoom : ℕ → List (Worker Q) → Type 0
  WorkersHaveRoom n [] = Unit {0}
  WorkersHaveRoom n (w ∷ ws) = HasRoom n w.ready_task_queue × WorkersHaveRoom n ws

  abbrev pub RoomFor : {Op W : Type 0} → ℕ → Runtime Q Op W → Type 0
  RoomFor n s = HasRoom n s.common_ready_task_queue × WorkersHaveRoom n s.task_workers

  pub WorkersHaveRoom-suc :
      (n : ℕ) (ws : List (Worker Q)) → WorkersHaveRoom (suc n) ws → WorkersHaveRoom n ws
  WorkersHaveRoom-suc n [] h = tt
  WorkersHaveRoom-suc n (w ∷ ws) h = (omega arith, WorkersHaveRoom-suc n ws h.1)

  pub WorkersHaveRoom-get_elem? :
      (n i : ℕ) (ws : List (Worker Q)) (w : Worker Q)
      → get_elem? ws i ≡ some w
      → WorkersHaveRoom n ws
      → HasRoom n w.ready_task_queue
  WorkersHaveRoom-get_elem? n i [] w e h = cc
  WorkersHaveRoom-get_elem? n zero (v ∷ ws) w e h = ground arith
  WorkersHaveRoom-get_elem? n (suc i) (v ∷ ws) w e h = WorkersHaveRoom-get_elem? n i ws w e h.1

  pub WorkersHaveRoom-push :
      (n t i : ℕ) (ws : List (Worker Q)) (w : Worker Q) (q : Q)
      → get_elem? ws i ≡ some w
      → lib.contents q ≡ lib.contents w.ready_task_queue ++ t ∷ []
      → lib.capacity q ≡ lib.capacity w.ready_task_queue
      → WorkersHaveRoom (suc n) ws
      → WorkersHaveRoom n (set ws i (record w { ready_task_queue = q }))
  WorkersHaveRoom-push n t i [] w q e h k r = cc
  WorkersHaveRoom-push n t zero (v ∷ ws) w q e h k r = (
    ground (arith, length-append (lib.contents w.ready_task_queue) (t ∷ [])),
    WorkersHaveRoom-suc n ws r.1,
  )
  WorkersHaveRoom-push n t (suc i) (v ∷ ws) w q e h k r =
      (omega arith, WorkersHaveRoom-push n t i ws w q e h k r.1)

  pub RoomFor-suc : {Op W : Type 0} (n : ℕ) (s : Runtime Q Op W) → RoomFor (suc n) s → RoomFor n s
  RoomFor-suc n s r = (omega arith, WorkersHaveRoom-suc n s.task_workers r.1)

  -- Replacing a worker by one with the same queue changes no count.
  pub queued_own-put :
      (u i : ℕ) (ws : List (Worker Q)) (w w' : Worker Q)
      → get_elem? ws i ≡ some w
      → w'.ready_task_queue ≡ w.ready_task_queue
      → queued_own u (set ws i w') ≡ queued_own u ws
  queued_own-put u i [] w w' e h = cc
  queued_own-put u zero (v ∷ ws) w w' e h = ground arith
  queued_own-put u (suc i) (v ∷ ws) w w' e h = ground (arith, queued_own-put u i ws w w' e h)

  pub WorkersHaveRoom-put :
      (n i : ℕ) (ws : List (Worker Q)) (w : Worker Q) (q : Q)
      → get_elem? ws i ≡ some w
      → length (lib.contents q) ≤ length (lib.contents w.ready_task_queue)
      → lib.capacity q ≡ lib.capacity w.ready_task_queue
      → WorkersHaveRoom n ws
      → WorkersHaveRoom n (set ws i (record w { ready_task_queue = q }))
  WorkersHaveRoom-put n i [] w q e h k r = cc
  WorkersHaveRoom-put n zero (v ∷ ws) w q e h k r = (ground arith, r.1)
  WorkersHaveRoom-put n (suc i) (v ∷ ws) w q e h k r =
      (r.0, WorkersHaveRoom-put n i ws w q e h k r.1)
