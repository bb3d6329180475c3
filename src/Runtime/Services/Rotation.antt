-- ===== src/Runtime/Services/Rotation.antt =====
-- Services take turns: a worker takes the oldest, runs it if it is due, and puts it back last.
use task_r.Base.{
  ℕ, ◌-◌, ◌*◌, ◌<◌, ◌≤◌, ◌≡◌, inl, inr, ap, subst, ◌∙◌, List, [], ◌∷◌, ◌++◌, some, length, arith,
  ok, true,
}
use task_r.Clock.{nanoseconds_per_ms}
use task_r.Queue
use task_r.Service.Laws.{is_active_iff}
use task_r.Runtime.State.{Runtime, Environment}
use task_r.Runtime.Services.{try_run_service, service_round, add_service, serve, update_service}

first_of : {xs : List ℕ} {t u : ℕ} {ts us : List ℕ} → xs ≡ t ∷ ts → xs ≡ u ∷ us → u ≡ t
first_of e f = cc

module _ {Q Op W : Type 0} (env : Environment Q Op W) where
  -- The state after the clock was read.
  abbrev ticked : Runtime Q Op W → Runtime Q Op W
  ticked s = record s { world = (env.read_clock s.world).1 }

  abbrev reading : Runtime Q Op W → ℕ
  reading s = (env.read_clock s.world).0

  -- An enabled service whose interval has passed is run, and where its function returns, the reading
  -- of the clock after it becomes the time of its last run, the rest being as the function left it.
  pub try_run_service_runs :
      (service : ℕ) (s s' : Runtime Q Op W)
      → (s.services service).last_execution_time ≤ reading s
      → (s.services service).enabled ≡ true
      → (s.services service).interval * nanoseconds_per_ms
        ≤ reading s - (s.services service).last_execution_time
      → env.service_function service (ticked s) ≡ (s', ok tt)
      → try_run_service env service s ≡ (
        update_service env service (λ v. record v { last_execution_time = reading s' }) (ticked s'),
        ok tt,
      )
  unfolding try_run_service
  try_run_service_runs service s s' forward on late returned =
      let due = is_active_iff (reading s) (s.services service) forward in ground arith

  -- A function of a service that returns and leaves the queue of services alone.
  pub record IsQuiet (service : ℕ) : Type 0 where
    pub returns : (s : Runtime Q Op W) → (env.service_function service s).1 ≡ ok tt
    pub queue :
        (s : Runtime Q Op W) → (env.service_function service s).0.service_queue ≡ s.service_queue

  try_run_service_quiet :
      (service : ℕ) (s : Runtime Q Op W)
      → IsQuiet service
      → ((try_run_service env service s).1 ≡ ok tt)
        × ((try_run_service env service s).0.service_queue ≡ s.service_queue)
  unfolding try_run_service
  try_run_service_quiet service s quiet =
      ground (arith, quiet.returns (ticked s), quiet.queue (ticked s))

  add_service_lem :
      (service : ℕ) (s : Runtime Q Op W)
      → length (env.queue.contents s.service_queue) < env.queue.capacity s.service_queue
      → (s' : Runtime Q Op W) × (add_service env service s ≡ (s', ok tt))
        × (env.queue.contents s'.service_queue ≡ env.queue.contents s.service_queue ++ service ∷ [])
  unfolding add_service
  add_service_lem service s room =
      let (q, e) = env.queue.push_returns s.service_queue service room in
      (
        record s { service_queue = q },
        ground arith,
        env.queue.contents-push s.service_queue q service e,
      )

  serve_lem :
      (service : ℕ) (s : Runtime Q Op W)
      → length (env.queue.contents s.service_queue) < env.queue.capacity s.service_queue
      → IsQuiet service
      → (s' : Runtime Q Op W) × (serve env (some service) s ≡ (s', ok tt))
        × (env.queue.contents s'.service_queue ≡ env.queue.contents s.service_queue ++ service ∷ [])
  serve_lem service s room quiet =
      let (returned, kept) = try_run_service_quiet service s quiet in
      let s1 = (try_run_service env service s).0 in
      let (s', e, f) = add_service_lem service s1 (rw kept room) in (s', ground arith, rw kept at f)

  pop_service_lem :
      (t : ℕ) (q : Q) (s : Runtime Q Op W)
      → Queue.pop env.queue s.service_queue ≡ (some t, q)
      → service_round env s ≡ serve env (some t) (record s { service_queue = q })
  unfolding service_round
  pop_service_lem t q s e = rw e

  -- In a queue that holds no more than its capacity, with a service at its head whose function
  -- returns and leaves the queue alone: a round of services returns, and the head has moved to the
  -- end, whether it was run or not.
  pub service_round_rotates :
      (service : ℕ) (rest : List ℕ) (s : Runtime Q Op W)
      → env.queue.contents s.service_queue ≡ service ∷ rest
      → length (env.queue.contents s.service_queue) ≤ env.queue.capacity s.service_queue
      → IsQuiet service
      → (s' : Runtime Q Op W) × (service_round env s ≡ (s', ok tt))
        × (env.queue.contents s'.service_queue ≡ rest ++ service ∷ [])
  service_round_rotates service rest s head fits quiet =
      elim (Queue.pop-cases env.queue s.service_queue) [
        | inl (nil, _, e) ↦ cc
        | inr (t, q, e, items, cap', _) ↦
            let (s', f, g) =
              serve_lem t (record s { service_queue = q }) (omega (arith, ap length items))
                (subst IsQuiet (first_of items head) quiet) in
            (s', pop_service_lem t q s e ∙ f, ground (arith, g, items))
      ]
