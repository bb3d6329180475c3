-- ===== src/Runtime/Tasks/Resume.antt =====
-- What `resumeTask` does with a task: nothing, an exception, or one entry in one ready queue.
use task_r.Base.{
  get_elem?-some, length-append, suc, ltb, dec_lt, ◌⊎◌, ℕ, ℤ, pos, negsuc, ◌+◌, ◌<◌, ◌≤◌, ◌≡◌, refl,
  List, [], ◌∷◌, ◌++◌, Option, none, some, get_elem?, set, ◌==◌, if◌then◌else◌, arith, length,
  length-set, Outcome, ok, throw, blocked, invalid_affinity, Option-cases, inl, inr, leb_ℤ, true,
  false, Bool-cases,
}
use task_r.Task.Graph.{count-append}
use task_r.Queue
use task_r.Worker.{Worker}
use task_r.Runtime.State.{Runtime, Environment, Call, resume_worker, task_worker}
use task_r.Runtime.Queued.{
  queued_own-push, queued, RoomFor, WorkersHaveRoom-suc, WorkersHaveRoom-push,
  WorkersHaveRoom-get_elem?, RoomFor-suc,
}
use task_r.Runtime.Tasks.{push_common, push_own, make_ready, resume_task}

module _ {Q Op W : Type 0} (env : Environment Q Op W) where
  -- `t` entered one ready queue, and all that is no queue and no call is as before.
  pub record Enqueues (t : ℕ) (s s' : Runtime Q Op W) : Type 0 where
    pub entered : (u : ℕ) → queued env.queue u s' ≡ queued env.queue u s + (if t == u then 1 else 0)
    pub tasks : s'.tasks ≡ s.tasks
    pub active : s'.active_task_count ≡ s.active_task_count
    pub active_workers : s'.active_task_worker_count ≡ s.active_task_worker_count
    pub workers : length s'.task_workers ≡ length s.task_workers
    pub room : (n : ℕ) → RoomFor env.queue (suc n) s → RoomFor env.queue n s'

  push_common-Enqueues :
      (t : ℕ) (s s' : Runtime Q Op W) → push_common env t s ≡ (s', ok tt) → Enqueues t s s'
  unfolding push_common
  push_common-Enqueues t s s' h = record {
    entered = λ u. ground (
      arith,
      Queue.contents-push env.queue s.common_ready_task_queue s'.common_ready_task_queue t,
      count-append u (env.queue.contents s.common_ready_task_queue) (t ∷ []),
    );
    tasks = ground arith;
    active = ground arith;
    active_workers = ground arith;
    workers = ground arith;
    room = λ n r. (
      ground (
        arith,
        Queue.contents-push env.queue s.common_ready_task_queue s'.common_ready_task_queue t,
        env.queue.capacity-push s.common_ready_task_queue s'.common_ready_task_queue t,
        length-append (env.queue.contents s.common_ready_task_queue) (t ∷ []),
      ),
      ground (arith, WorkersHaveRoom-suc env.queue n s.task_workers r.1),
    );
  }

  push_own-Enqueues :
      (t i : ℕ) (s s' : Runtime Q Op W) → push_own env i t s ≡ (s', ok tt) → Enqueues t s s'
  unfolding push_own
  push_own-Enqueues t i s s' h = elim (Option-cases (get_elem? s.task_workers i)) [
    | inl e ↦ ground arith
    | inr (w, e) ↦ elim (Option-cases (Queue.push env.queue w.ready_task_queue t)) [
      | inl f ↦ ground arith
      | inr (q, f) ↦ record {
        entered = λ u. ground (
          arith,
          queued_own-push env.queue u t i s.task_workers w q e
              (Queue.contents-push env.queue w.ready_task_queue q t f),
        );
        tasks = ground arith;
        active = ground arith;
        active_workers = ground arith;
        workers = ground (arith, length-set s.task_workers i (record w { ready_task_queue = q }));
        room = λ n r. (
          ground arith,
          ground (
            arith,
            WorkersHaveRoom-push env.queue n t i s.task_workers w q e
                (Queue.contents-push env.queue w.ready_task_queue q t f)
                (env.queue.capacity-push w.ready_task_queue q t f) r.1,
          ),
        );
      }
    ]
  ]

  Enqueues-calls :
      (t : ℕ) (s s' : Runtime Q Op W) (calls : List Call)
      → Enqueues t s s'
      → Enqueues t s (record s' { calls = calls })
  Enqueues-calls t s s' calls v = record {
    entered = v.entered;
    tasks = v.tasks;
    active = v.active;
    active_workers = v.active_workers;
    workers = v.workers;
    room = v.room;
  }

  -- The ready queue that a task goes to.
  abbrev own_queue : Option (Worker Q) → Option Q
  own_queue none = none
  own_queue (some w) = some w.ready_task_queue

  abbrev pub destination : ℤ → Runtime Q Op W → Option Q
  destination (pos i) s = own_queue (get_elem? s.task_workers i)
  destination (negsuc _) s = some s.common_ready_task_queue

  abbrev pub IsFull : Option Q → Type 0
  IsFull none = ⊥
  IsFull (some q) = env.queue.capacity q ≤ length (env.queue.contents q)

  push_none-IsFull : (t : ℕ) (q : Q) → Queue.push env.queue q t ≡ none → IsFull (some q)
  unfolding Queue.push
  push_none-IsFull t q h = elim (dec_lt (length (env.queue.contents q)) (env.queue.capacity q)) [
    | yes room ↦ let (q', e) = env.queue.push_returns q t room in cc
    | no full ↦ omega arith
  ]

  make_ready-cases :
      (affinity : ℤ) (t : ℕ) (s : Runtime Q Op W)
      → leb_ℤ (pos (length s.task_workers)) affinity ≡ false
      → (IsFull (destination affinity s) × (make_ready env affinity t s ≡ (s, blocked)))
        ⊎ ((s' : Runtime Q Op W) × (make_ready env affinity t s ≡ (s', ok tt)) × Enqueues t s s')
  unfolding make_ready
  make_ready-cases (pos i) t s h =
      let (w, e) = get_elem?-some s.task_workers i (ground arith) in
      elim (Option-cases (Queue.push env.queue w.ready_task_queue t)) [
        | inl f ↦ inl (rw e (push_none-IsFull t w.ready_task_queue f), ground arith)
        | inr (q, f) ↦
            let pushed : List (Worker Q) =
              set s.task_workers i (record w { ready_task_queue = q }) in
            inr (
              record s {
                task_workers = pushed;
                calls = s.calls ++ resume_worker (task_worker i) ∷ [];
              },
              ground arith,
              Enqueues-calls t s (record s { task_workers = pushed }) _
                  (push_own-Enqueues t i s _ (ground arith)),
            )
      ]
  make_ready-cases (negsuc i) t s h =
      elim (Option-cases (Queue.push env.queue s.common_ready_task_queue t)) [
        | inl e ↦ inl (push_none-IsFull t s.common_ready_task_queue e, ground arith)
        | inr (q, e) ↦ inr (
          record s { common_ready_task_queue = q },
          ground arith,
          push_common-Enqueues t s _ (ground arith),
        )
      ]

  -- The ways in which `resumeTask` can end.
  pub data Resumed (t : ℕ) (s : Runtime Q Op W) : Runtime Q Op W × Outcome (Unit {0}) → Type 0 where
    waiting : 0 < (s.tasks t).dependency_count → Resumed t s (s, ok tt)
    refused :
        (s.tasks t).dependency_count ≡ 0
        → leb_ℤ (pos (length s.task_workers)) (s.tasks t).worker_affinity ≡ true
        → Resumed t s (s, throw invalid_affinity)
    full :
        (s.tasks t).dependency_count ≡ 0
        → IsFull (destination (s.tasks t).worker_affinity s)
        → Resumed t s (s, blocked)
    ready :
        {s' : Runtime Q Op W}
        → (s.tasks t).dependency_count ≡ 0
        → Enqueues t s s'
        → Resumed t s (s', ok tt)

  pub resume_task-Resumed : (t : ℕ) (s : Runtime Q Op W) → Resumed t s (resume_task env t s)
  unfolding resume_task
  resume_task-Resumed t s = elim (Bool-cases (ltb 0 (s.tasks t).dependency_count)) [
    | inl e ↦ rw e (waiting (ground arith))
    | inr e ↦ elim (Bool-cases (leb_ℤ (pos (length s.task_workers)) (s.tasks t).worker_affinity)) [
      | inl f ↦ rw (e, f) (refused (ground arith) f)
      | inr f ↦ elim (make_ready-cases (s.tasks t).worker_affinity t s f) [
        | inl (no_room, g) ↦ rw (e, f, g) (full (ground arith) no_room)
        | inr (s', g, entered) ↦ rw (e, f, g) (ready (ground arith) entered)
      ]
    ]
  ]

  destination_room :
      (affinity : ℤ) (n : ℕ) (s : Runtime Q Op W)
      → RoomFor env.queue (suc n) s
      → ¬ IsFull (destination affinity s)
  destination_room (pos i) n s r f = elim (Option-cases (get_elem? s.task_workers i)) [
    | inl e ↦ rw e at f
    | inr (w, e) ↦
        let g : IsFull (own_queue (some w)) = rw e at f in
        let h = WorkersHaveRoom-get_elem? env.queue (suc n) i s.task_workers w e r.1 in omega arith
  ]
  destination_room (negsuc _) n s r f = omega arith

  -- The affinity of a task names a worker, or none is set.
  abbrev pub HasValidAffinity : Runtime Q Op W → ℕ → Type 0
  HasValidAffinity s t = leb_ℤ (pos (length s.task_workers)) (s.tasks t).worker_affinity ≡ false

  -- What a resumed task leaves behind where there is room for one entry more.
  pub record Returns (n : ℕ) (s s' : Runtime Q Op W) : Type 0 where
    pub tasks : s'.tasks ≡ s.tasks
    pub workers : length s'.task_workers ≡ length s.task_workers
    pub room : RoomFor env.queue n s'

  pub Resumed-Returns :
      (t n : ℕ) (s : Runtime Q Op W) {r : Runtime Q Op W × Outcome (Unit {0})}
      → Resumed t s r
      → RoomFor env.queue (suc n) s
      → HasValidAffinity s t
      → (s' : Runtime Q Op W) × (r ≡ (s', ok tt)) × Returns n s s'
  Resumed-Returns t n s (waiting p) room valid =
      (s, refl, record { tasks = refl; workers = refl; room = RoomFor-suc env.queue n s room })
  Resumed-Returns t n s (refused p q) room valid = cc
  Resumed-Returns t n s (full p q) room valid =
      absurd (destination_room (s.tasks t).worker_affinity n s room q)
  Resumed-Returns t n s (ready {s'} p v) room valid =
      (s', refl, record { tasks = v.tasks; workers = v.workers; room = v.room n room })

  -- A task without dependencies enters a queue where there is room.
  pub Resumed-Enqueues :
      (t : ℕ) (s : Runtime Q Op W) {r : Runtime Q Op W × Outcome (Unit {0})}
      → Resumed t s r
      → (s.tasks t).dependency_count ≡ 0
      → HasValidAffinity s t
      → RoomFor env.queue 1 s
      → (s' : Runtime Q Op W) × (r ≡ (s', ok tt)) × Enqueues t s s'
  Resumed-Enqueues t s (waiting p) none_left valid room = absurd (omega arith)
  Resumed-Enqueues t s (refused p q) none_left valid room = cc
  Resumed-Enqueues t s (full p q) none_left valid room =
      absurd (destination_room (s.tasks t).worker_affinity 0 s room q)
  Resumed-Enqueues t s (ready {s'} p v) none_left valid room = (s', refl, v)
