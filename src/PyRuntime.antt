-- ===== src/PyRuntime.antt =====
-- include/pytaskr/pyruntime.hpp: the wrapper for Python, which chooses the managers of the backend
-- and the compute resources, and makes a runtime with the default configuration. The calls that it
-- passes on to the runtime are those of Runtime.
pub mod Chosen
pub mod Selection
use Prim.Native.String.{String}
use text.Mathlib.Text.{◌==◌ as str_eq}
use task_r.Base.{
  ℕ, zero, suc, ℤ, Bool, true, false, List, [], ◌∷◌, ◌++◌, Option, none, some, Outcome, ok, throw,
  blocked, undefined, no_such_entry, unknown_backend, illegal_worker_count, no_workers_given,
  no_such_workers, M, modify, fail, fault, spin, throw_if, pure, ◌>>=◌, ◌>>◌, ◌==◌, ◌≡◌, refl,
  if◌then◌else◌, ltb, length, map, take,
}
use task_r.Queue.{AtomicQueue}
use task_r.Service.{Service}
use task_r.Task.{Store}
use task_r.Runtime.State.{Runtime}
use task_r.Runtime.Config
use task_r.Runtime.Config.{Config}

-- The compute managers of the backends.
pub data Manager : Type 0 where
  nosv : Manager
  boost : Manager
  pthreads : Manager

-- The calls of nOS-V and hwloc, in the order in which they are made.
pub data BackendCall : Type 0 where
  nosv_init : BackendCall
  nosv_attach : BackendCall
  nosv_detach : BackendCall
  nosv_shutdown : BackendCall
  topology_init : BackendCall
  topology_destroy : BackendCall

-- A compute resource of a device: its address, and its processor's identifier as an `int`.
pub record ComputeResource : Type 0 where
  pub address : ℕ
  pub processor_id : ℕ

-- The members; the pointers are null at first, and the number of workers is not set.
pub record PyRuntime (Q Op W : Type 0) : Type 0 where
  pub backend_type : String
  pub num_workers : Option ℕ
  pub runtime : Option (Runtime Q Op W)
  pub execution_state_compute_manager : Option Manager
  pub processing_unit_compute_manager : Option Manager
  pub calls : List BackendCall

-- `nlohmann::json()`: no entry.
abbrev pub no_config : Config
no_config = record {
  contains = λ k. false;
  get_signed = λ k. throw no_such_entry;
  get_unsigned = λ k. throw no_such_entry;
  get_boolean = λ k. throw no_such_entry;
  get_boolean_missing = λ k e. refl;
}

abbrev pub is_in : ℕ → List ℕ → Bool
is_in x [] = false
is_in x (y ∷ ys) = if x == y then true else is_in x ys

-- The two loops over the lists of resources of the devices: those whose processor is in the set.
unfoldable pub select_list : List ℕ → List ComputeResource → List ComputeResource
select_list workers [] = []
select_list workers (r ∷ rest) =
    let tail = select_list workers rest in if is_in r.processor_id workers then r ∷ tail else tail

unfoldable pub select : List ℕ → List (List ComputeResource) → List ComputeResource
unfolding select_list
select workers [] = []
select workers (d ∷ rest) = select_list workers d ++ select workers rest

abbrev pub is_empty_list : {A : Type 0} → List A → Bool
is_empty_list [] = true
is_empty_list (x ∷ xs) = false

abbrev pub addresses : List ComputeResource → List ℕ
addresses rs = map (λ (r : ComputeResource). r.address) rs

-- The number of workers that is taken of so many resources.
abbrev pub count_of : ℕ → List ComputeResource → ℕ
count_of n cr = if n == 0 then length cr else n

-- What exists around the runtime, and what stands in its members without an initial value, are as
-- in the constructor of the runtime.
module _ {Q Op W : Type 0} (lib : AtomicQueue Q) (force : Bool) (active : ℕ) (tasks : Store Op)
    (services : ℕ → Service) (world : W) where
  abbrev pub blank : String → PyRuntime Q Op W
  blank backend = record {
    backend_type = backend;
    num_workers = none;
    runtime = none;
    execution_state_compute_manager = none;
    processing_unit_compute_manager = none;
    calls = [];
  }

  abbrev calls_backend : BackendCall → M (PyRuntime Q Op W) (Unit {0})
  calls_backend c = modify λ p. record p { calls = p.calls ++ c ∷ [] }

  abbrev sets_managers : Manager → Manager → M (PyRuntime Q Op W) (Unit {0})
  sets_managers e u = modify λ p. record p {
    execution_state_compute_manager = some e;
    processing_unit_compute_manager = some u;
  }

  -- The choice of the managers, the same in both constructors, and the topology.
  unfoldable pub choose_managers : String → M (PyRuntime Q Op W) (Unit {0})
  choose_managers backend =
      if str_eq backend "nosv"
      then (do
        calls_backend nosv_init
        calls_backend nosv_attach
        sets_managers nosv nosv
        calls_backend topology_init)
      else if str_eq backend "threading"
      then (do sets_managers boost pthreads; calls_backend topology_init)
      else fail unknown_backend

  abbrev keeps_runtime : Runtime Q Op W × Outcome (Unit {0}) → M (PyRuntime Q Op W) (Unit {0})
  keeps_runtime (r, ok _) = modify λ p. record p { runtime = some r }
  keeps_runtime (r, throw e) = fail e
  keeps_runtime (r, blocked) = spin
  keeps_runtime (r, undefined) = fault

  -- The last two statements of both constructors.
  unfoldable pub make_runtime : ℕ → List ComputeResource → M (PyRuntime Q Op W) (Unit {0})
  unfolding Config.create
  make_runtime n resources = do
    modify (λ p. record p { num_workers = some n })
    keeps_runtime
        (Config.create lib force active (addresses resources) tasks services world no_config)

  abbrev with_count : ℕ → List (List ComputeResource) → M (PyRuntime Q Op W) (Unit {0})
  with_count n [] = fault
  with_count n (cr ∷ devices) = do
    throw_if (ltb (length cr) n) illegal_worker_count
    make_runtime (count_of n cr) (take (count_of n cr) cr)

  -- `PyRuntime(backend_type, num_workers)`, on the lists of resources of the devices.
  unfoldable pub create_with_count :
      String → ℕ → List (List ComputeResource) → PyRuntime Q Op W × Outcome (Unit {0})
  unfolding choose_managers make_runtime
  create_with_count backend n devices =
      (choose_managers backend >> with_count n devices) (blank backend)

  abbrev with_selected : List ComputeResource → M (PyRuntime Q Op W) (Unit {0})
  with_selected resources = do
    throw_if (is_empty_list resources) no_such_workers
    make_runtime (length resources) resources

  -- `PyRuntime(backend_type, workersSet)`.
  unfoldable pub create_with_set :
      String → List ℕ → List (List ComputeResource) → PyRuntime Q Op W × Outcome (Unit {0})
  unfolding choose_managers make_runtime select
  create_with_set backend workers devices =
      (do
        throw_if (is_empty_list workers) no_workers_given
        choose_managers backend
        with_selected (select workers devices))
        (blank backend)

  -- `~PyRuntime()`, the calls of the backend.
  unfoldable pub destroy : M (PyRuntime Q Op W) (Unit {0})
  destroy p =
      (calls_backend topology_destroy
          >> (if str_eq p.backend_type "nosv"
              then (do calls_backend nosv_detach; calls_backend nosv_shutdown)
              else pure tt))
        p
