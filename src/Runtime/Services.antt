-- ===== src/Runtime/Services.antt =====
-- Services and the loop of service workers: `addService`, `tryRunService`, `serviceWorkerLoop` and
-- `checkTermination` of include/taskr/runtime.hpp.
pub mod Rotation
use task_r.Base.{
  ℕ, Bool, true, false, Option, none, some, M, get, modify, pure, spin, fault, ◌>>=◌, ◌>>◌, ◌&&◌,
  ◌==◌, if◌then◌else◌, get_elem?, when,
}
use task_r.Queue
use task_r.Service
use task_r.Service.{Service}
use task_r.Worker.{Worker}
use task_r.Runtime.State.{Runtime, Environment, WorkerRef, service_worker, terminate_worker, call}

module _ {Q Op W : Type 0} where
  -- `checkTermination(worker)`.
  unfoldable pub check_termination : WorkerRef → M (Runtime Q Op W) Bool
  check_termination worker = do
    s ← get
    if s.finish_on_last_task && s.active_task_count == 0
        then (do call (terminate_worker worker); pure true)
        else pure false

module _ {Q Op W : Type 0} (env : Environment Q Op W) where
  -- `std::chrono::high_resolution_clock::now()`.
  unfoldable pub now : M (Runtime Q Op W) ℕ
  now = do
    s ← get
    let (t, w) = env.read_clock s.world
    modify (λ s. record s { world = w })
    pure t

  abbrev store_services : Option Q → M (Runtime Q Op W) (Unit {0})
  store_services none = spin
  store_services (some q) = modify λ s. record s { service_queue = q }

  -- `_serviceQueue->push(service)`, which is also `addService(service)`.
  unfoldable pub add_service : ℕ → M (Runtime Q Op W) (Unit {0})
  unfolding Queue.push
  add_service service s = store_services (Queue.push env.queue s.service_queue service) s

  -- `_serviceQueue->pop()`.
  unfoldable pub pop_service : M (Runtime Q Op W) (Option ℕ)
  pop_service = do
    s ← get
    let (service, q) = Queue.pop env.queue s.service_queue
    modify (λ s. record s { service_queue = q })
    pure service

  -- The service at an address, changed.
  unfoldable pub update_service : ℕ → (Service → Service) → Runtime Q Op W → Runtime Q Op W
  update_service i f s = record s {
    services = λ j. if i == j then f (s.services j) else s.services j;
  }

  -- `tryRunService(service)`: the clock is read only if the service is enabled.
  unfoldable pub try_run_service : ℕ → M (Runtime Q Op W) (Unit {0})
  unfolding Service.is_enabled Service.is_active Service.run now update_service
  try_run_service service = do
    s ← get
    when (Service.is_enabled (s.services service)) do
      t ← now
      s ← get
      when (Service.is_active t (s.services service))
          (Service.run (env.service_function service) now (update_service service))

  -- Both loops of workers take a service, try to run it and put it back.
  abbrev serve : Option ℕ → M (Runtime Q Op W) (Unit {0})
  serve none = pure tt
  serve (some service) = do try_run_service service; add_service service

  unfoldable pub service_round : M (Runtime Q Op W) (Unit {0})
  unfolding pop_service try_run_service add_service
  service_round = pop_service >>= serve

  abbrev pub serve_unless : Bool → M (Runtime Q Op W) (Option ℕ)
  serve_unless true = pure none
  serve_unless false = do service_round; pure none

  abbrev service_turn : ℕ → Option (Worker Q) → M (Runtime Q Op W) (Option ℕ)
  service_turn i none = fault
  service_turn i (some w) = check_termination (service_worker i) >>= serve_unless

  -- `serviceWorkerLoop(serviceWorkerId)`: the task it returns is always null.
  unfoldable pub service_worker_loop : ℕ → M (Runtime Q Op W) (Option ℕ)
  unfolding check_termination service_round
  service_worker_loop i = do s ← get; service_turn i (get_elem? s.service_workers i)
