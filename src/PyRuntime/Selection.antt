-- ===== src/PyRuntime/Selection.antt =====
-- Which compute resources the wrapper for Python gives to its runtime, and which calls of the backend
-- it leaves open.
use Prim.Native.String.{String}
use text.Mathlib.Text.{◌==◌ as str_eq}
use task_r.Base.{
  ℕ, ◌<◌, ◌≤◌, ◌≡◌, refl, Bool, true, ◌||◌, List, [], ◌∷◌, ◌++◌, none, some, ok, throw,
  illegal_worker_count, arith, if◌then◌else◌, length, take, ap, ◌∙◌, ◌==◌,
}
use mathlib.Core.List.{flatten, Mem}
use task_r.Service.{Service}
use task_r.Task.{Store}
use task_r.Runtime.State.{Runtime, Environment}
use task_r.Runtime.Config
use task_r.Runtime.Lifecycle.{initialize}
use task_r.Runtime.Lifecycle.Invariant.{initialize_staffs}
use task_r.PyRuntime.{
  PyRuntime, ComputeResource, BackendCall, nosv_init, nosv_attach, nosv_detach, nosv_shutdown,
  topology_init, topology_destroy, no_config, select, addresses, count_of, create_with_count,
  create_with_set, destroy,
}
use task_r.PyRuntime.Chosen.{
  chosen, length-take, first-addresses, length-addresses, is_empty_list-false, select-chosen,
  named_some, select_some,
}

abbrev pub is_known : String → Bool
is_known backend = str_eq backend "nosv" || str_eq backend "threading"

-- The calls of the backend in a constructor that returns.
abbrev pub opened : String → List BackendCall
opened backend =
    if str_eq backend "nosv"
    then nosv_init ∷ nosv_attach ∷ topology_init ∷ []
    else topology_init ∷ []

module _ {Q Op W : Type 0} (env : Environment Q Op W) (force : Bool) (active : ℕ) (tasks : Store Op)
    (services : ℕ → Service) (world : W) where
  abbrev made : List ComputeResource → Runtime Q Op W
  unfolding Config.create
  made rs = (Config.create env.queue force active (addresses rs) tasks services world no_config).0

  -- The runtime of the wrapper can be initialized, with a task worker for each resource.
  made_starts :
      (rs : List ComputeResource)
      → 0 < length rs
      → (s' : Runtime Q Op W) × (initialize env (made rs) ≡ (s', ok tt))
        × (length s'.task_workers ≡ length rs)
  unfolding made
  made_starts rs some_resource =
      let (s', e, _, _, n) =
        initialize_staffs env (made rs) refl (omega (arith, length-addresses rs)) refl refl in
      (s', e, omega (arith, n, length-addresses rs))

  -- A legal number of workers, and a backend that exists: the constructor returns with a runtime
  -- over compute resources with which the list of the first device begins, as many as asked for and all
  -- of them for zero, and `initialize` of that runtime returns with one task worker for each of them.
  pub counted_runtime_starts :
      (backend : String) (n : ℕ) (cr : List ComputeResource) (devices : List (List ComputeResource))
      → is_known backend ≡ true
      → n ≤ length cr
      → 0 < length cr
      → (p : PyRuntime Q Op W) × (r : Runtime Q Op W) × (s' : Runtime Q Op W) × (create_with_count
            env.queue force active tasks services world backend n
            (cr ∷ devices)
          ≡ (p, ok tt))
        × (p.runtime ≡ some r)
        × ((rest : List ℕ) × (addresses cr ≡ r.compute_resources ++ rest))
        × (length r.compute_resources ≡ (if n == 0 then length cr else n))
        × (initialize env r ≡ (s', ok tt))
        × (p.num_workers ≡ some (length s'.task_workers))
  unfolding create_with_count made Config.create
  counted_runtime_starts backend n cr devices known few some_resource =
      let rs = take (count_of n cr) cr in
      let count : length rs ≡ count_of n cr = length-take (count_of n cr) cr (ground arith) in
      let (s', e, workers) = made_starts rs (ground arith) in
      (
        (create_with_count env.queue force active tasks services world backend n (cr ∷ devices)).0,
        made rs,
        s',
        ground arith,
        ground arith,
        first-addresses (count_of n cr) cr,
        ground (arith, length-addresses rs),
        e,
        ground arith,
      )

  -- A set of processors of which some device has one, and a backend that exists: the constructor
  -- returns with a runtime over all resources of the devices whose processors are in the set, and no
  -- others, in the order of the devices, and `initialize` of that runtime returns with one task worker
  -- for each of them.
  pub selected_runtime_starts :
      (backend : String) (workers : List ℕ) (c : ComputeResource)
      (devices : List (List ComputeResource))
      → is_known backend ≡ true
      → Mem c (flatten devices)
      → Mem c.processor_id workers
      → (p : PyRuntime Q Op W) × (r : Runtime Q Op W) × (s' : Runtime Q Op W) × (create_with_set
            env.queue force active tasks services world backend workers devices
          ≡ (p, ok tt))
        × (p.runtime ≡ some r)
        × (r.compute_resources ≡ addresses (chosen workers devices))
        × (initialize env r ≡ (s', ok tt))
        × (length s'.task_workers ≡ length (chosen workers devices))
        × (p.num_workers ≡ some (length s'.task_workers))
  unfolding create_with_set made Config.create
  selected_runtime_starts backend workers c devices known there named =
      let rs = select workers devices in
      let same = select-chosen workers devices in
      let some_resource = select_some workers c devices there named in
      let (s', e, count) = made_starts rs some_resource in
      let some_there = is_empty_list-false rs some_resource in
      let some_named = is_empty_list-false workers (named_some c.processor_id workers named) in
      (
        (create_with_set env.queue force active tasks services world backend workers devices).0,
        made rs,
        s',
        ground (arith, some_there, some_named),
        ground (arith, some_there, some_named),
        ap addresses same,
        e,
        count ∙ ap length same,
        ground (arith, some_there, some_named),
      )

  -- A wrapper that was made and is destroyed has undone every call of the backend, in the opposite
  -- order.
  pub destroy_closes :
      (backend : String) (n : ℕ) (cr : List ComputeResource) (devices : List (List ComputeResource))
      → is_known backend ≡ true
      → n ≤ length cr
      → ((destroy env.queue force active tasks services world
            (create_with_count env.queue force active tasks services world backend n
              (cr ∷ devices)).0).0.calls
          ≡ opened backend
            ++ (if str_eq backend "nosv"
                then topology_destroy ∷ nosv_detach ∷ nosv_shutdown ∷ []
                else topology_destroy ∷ []))
  unfolding create_with_count destroy Config.create
  destroy_closes backend n cr devices known few = ground arith

  -- A number of workers that the first device does not have makes the constructor throw, after it has
  -- initialized the backend and the topology, which nothing undoes: there is no runtime, and the
  -- destructor of an object that was not made is not called.
  pub illegal_count_leaves_open :
      (backend : String) (n : ℕ) (cr : List ComputeResource) (devices : List (List ComputeResource))
      → is_known backend ≡ true
      → length cr < n
      → ((create_with_count env.queue force active tasks services world backend n (cr ∷ devices)).1
          ≡ throw illegal_worker_count)
        × ((create_with_count env.queue force active tasks services world backend n
              (cr ∷ devices)).0.calls
            ≡ opened backend)
        × ((create_with_count env.queue force active tasks services world backend n
              (cr ∷ devices)).0.runtime
            ≡ none)
  unfolding create_with_count
  illegal_count_leaves_open backend n cr devices known many =
      (ground arith, ground arith, ground arith)
