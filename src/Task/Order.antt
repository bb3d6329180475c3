-- ===== src/Task/Order.antt =====
-- A list of unfinished tasks, the newest first, in which each depends on older ones only; the
-- building of a task with its dependencies; and the oldest task.
use task_r.Base.{
  Option, ℕ, ◌+◌, ◌^◌, ◌<◌, ◌≡◌, refl, ap, List, [], ◌∷◌, ◌++◌, ◌==◌, if◌then◌else◌, arith, length,
  All, subst, ℕ_discrete, ℤ, ◌∙◌,
}
use task_r.Task
use task_r.Task.{Task, Store, Function, add_dependency}
use task_r.Task.Graph.{
  count, count-append, waits_for, IsConsistent, add_dependency-IsConsistent,
  waits_for-add_dependency, outputs-add_dependency,
}

pub count-middle :
    (t u : ℕ) (us vs : List ℕ)
    → count u (us ++ t ∷ vs) ≡ (if t == u then 1 else 0) + count u (us ++ vs)
count-middle t u [] vs = refl
count-middle t u (v ∷ us) vs = omega (arith, count-middle t u us vs)

-- What holds wherever an address occurs holds of all entries.
pub All-count : (P : ℕ → Type 0) (xs : List ℕ) → ((u : ℕ) → 0 < count u xs → P u) → All P xs
All-count P [] h = tt
All-count P (x ∷ xs) h = (h x (ground arith), All-count P xs (λ u k. h u (ground arith)))

abbrev pub oldest : ℕ → List ℕ → ℕ
oldest u [] = u
oldest u (v ∷ us) = oldest v us

All_at : (P : ℕ → Type 0) (u : ℕ) (us : List ℕ) → All P (u ∷ us) → P (oldest u us)
All_at P u [] h = h.0
All_at P u (v ∷ us) h = All_at P v us h.1

pub oldest_counted : (u : ℕ) (us : List ℕ) → 0 < count (oldest u us) (u ∷ us)
oldest_counted u [] = ground arith
oldest_counted u (v ∷ us) = ground (arith, oldest_counted v us)

pub All-get : (P : ℕ → Type 0) (xs : List ℕ) (u : ℕ) → All P xs → 0 < count u xs → P u
All-get P [] u h k = absurd (omega arith)
All-get P (x ∷ xs) u h k = elim (ℕ_discrete x u) [
  | yes e ↦ subst P e h.0
  | no other ↦ All-get P xs u h.1 (ground arith)
]

module _ {Op : Type 0} where
  -- A new task at an address, with or without an identifier, and the calls of `addDependency` that follow.
  unfoldable pub created : ℕ → Option ℕ → Function → ℤ → Store Op → Store Op
  unfolding Task.create Task.update
  created t task_id fc affinity store =
      Task.update t (λ _. record (Task.create fc affinity) { task_id = task_id }) store

  abbrev pub depend_on : ℕ → List ℕ → Store Op → Store Op
  depend_on t [] store = store
  depend_on t (d ∷ ds) store = depend_on t ds (add_dependency t d store)

  -- No task of the list names itself or an older one among those that wait for it.
  abbrev pub IsOrdered : Store Op → List ℕ → Type 0
  IsOrdered store [] = Unit {0}
  IsOrdered store (u ∷ us) =
      All (λ t. count t (store u).output_dependencies ≡ 0) (u ∷ us) × IsOrdered store us

  pub same-IsOrdered :
      (store store' : Store Op) (us : List ℕ)
      → ((u : ℕ) → (store' u).output_dependencies ≡ (store u).output_dependencies)
      → IsOrdered store us
      → IsOrdered store' us
  same-IsOrdered store store' [] h v = tt
  same-IsOrdered store store' (u ∷ us) h v = (
    All-count (λ t. count t (store' u).output_dependencies ≡ 0) (u ∷ us)
        (λ x k.
          ap (count x) (h u)
          ∙ All-get (λ t. count t (store u).output_dependencies ≡ 0) (u ∷ us) x v.0 k),
    same-IsOrdered store store' us h v.1,
  )

  pub remove-IsOrdered :
      (store : Store Op) (us vs : List ℕ) (t : ℕ)
      → IsOrdered store (us ++ t ∷ vs)
      → IsOrdered store (us ++ vs)
  remove-IsOrdered store [] vs t v = v.1
  remove-IsOrdered store (u ∷ us) vs t v = (
    All-count (λ t. count t (store u).output_dependencies ≡ 0) (u ∷ us ++ vs)
        (λ x k.
          All-get (λ t. count t (store u).output_dependencies ≡ 0) (u ∷ us ++ t ∷ vs) x v.0
            (ground (arith, count-middle t x us vs))),
    remove-IsOrdered store us vs t v.1,
  )

  -- An output dependency on a task that is not in the list.
  add_dependency-IsOrdered :
      (t d : ℕ) (store : Store Op) (us : List ℕ)
      → count t us ≡ 0
      → IsOrdered store us
      → IsOrdered (add_dependency t d store) us
  add_dependency-IsOrdered t d store [] fresh v = tt
  add_dependency-IsOrdered t d store (u ∷ us) fresh v = (
    All-count (λ x. count x (add_dependency t d store u).output_dependencies ≡ 0) (u ∷ us)
        (λ x k. ground (
          arith,
          outputs-add_dependency t d u store,
          count-append x (store u).output_dependencies (t ∷ []),
          All-get (λ t. count t (store u).output_dependencies ≡ 0) (u ∷ us) x v.0 k,
        )),
    add_dependency-IsOrdered t d store us (ground arith) v.1,
  )

  -- The oldest unfinished task waits for none of them.
  pub oldest_waits_for_none :
      (store : Store Op) (u : ℕ) (us : List ℕ)
      → IsOrdered store (u ∷ us)
      → waits_for store (u ∷ us) (oldest u us) ≡ 0
  oldest_waits_for_none store u [] h = ground arith
  oldest_waits_for_none store u (v ∷ us) h = omega (
    arith,
    All_at (λ t. count t (store u).output_dependencies ≡ 0) v us h.0.1,
    oldest_waits_for_none store v us h.1,
  )

  waits_for-created :
      (t : ℕ) (task_id : Option ℕ) (fc : Function) (a : ℤ) (store : Store Op) (us : List ℕ) (u : ℕ)
      → count t us ≡ 0
      → waits_for (created t task_id fc a store) us u ≡ waits_for store us u
  unfolding created
  waits_for-created t task_id fc a store [] u fresh = refl
  waits_for-created t task_id fc a store (v ∷ us) u fresh =
      ground (arith, waits_for-created t task_id fc a store us u (ground arith))

  created-IsOrdered :
      (t : ℕ) (task_id : Option ℕ) (fc : Function) (a : ℤ) (store : Store Op) (us : List ℕ)
      → count t us ≡ 0
      → IsOrdered store us
      → IsOrdered (created t task_id fc a store) us
  unfolding created
  created-IsOrdered t task_id fc a store [] fresh v = tt
  created-IsOrdered t task_id fc a store (u ∷ us) fresh v = (
    All-count (λ x. count x (created t task_id fc a store u).output_dependencies ≡ 0) (u ∷ us)
        (λ x k.
          ground
            (arith, All-get (λ t. count t (store u).output_dependencies ≡ 0) (u ∷ us) x v.0 k)),
    created-IsOrdered t task_id fc a store us (ground arith) v.1,
  )

  -- The new task `t` with `n` dependencies so far, over the store as it was before.
  pub record Built (t : ℕ) (a : ℤ) (us : List ℕ) (n : ℕ) (store store' : Store Op) : Type 0 where
    pub consistent : IsConsistent store' (t ∷ us)
    pub ordered : IsOrdered store' us
    pub no_outputs : (store' t).output_dependencies ≡ []
    pub waits :
        (u : ℕ) → waits_for store' (t ∷ us) u ≡ waits_for store us u + (if t == u then n else 0)
    pub affinity :
        (u : ℕ) → (store' u).worker_affinity ≡ (if t == u then a else (store u).worker_affinity)

  pub created-Built :
      (t : ℕ) (task_id : Option ℕ) (fc : Function) (a : ℤ) (us : List ℕ) (store : Store Op)
      → IsConsistent store us
      → IsOrdered store us
      → count t us ≡ 0
      → waits_for store us t ≡ 0
      → Built t a us 0 store (created t task_id fc a store)
  unfolding created
  created-Built t task_id fc a us store c o fresh unused = record {
    consistent = record {
      counted = λ u.
          ground (arith, c.counted u, unused, waits_for-created t task_id fc a store us u fresh);
      fits = λ u. ground (arith, c.fits u, waits_for-created t task_id fc a store us u fresh);
    };
    ordered = created-IsOrdered t task_id fc a store us fresh o;
    no_outputs = ground arith;
    waits = λ u. ground (arith, waits_for-created t task_id fc a store us u fresh);
    affinity = λ u. ground arith;
  }

  pub affinity-add_dependency :
      (t d u : ℕ) (store : Store Op)
      → (add_dependency t d store u).worker_affinity ≡ (store u).worker_affinity
  unfolding add_dependency
  affinity-add_dependency t d u store = ground arith

  pub depend_on-Built :
      (t : ℕ) (a : ℤ) (us ds : List ℕ) (n : ℕ) (store store1 : Store Op)
      → Built t a us n store store1
      → All (λ d. count d us ≡ 1) ds
      → count t us ≡ 0
      → waits_for store us t ≡ 0
      → n + length ds < 2 ^ 64
      → Built t a us (n + length ds) store (depend_on t ds store1)
  depend_on-Built t a us [] n store store1 v all fresh unused few =
      subst (λ m. Built t a us m store store1) (omega arith) v
  depend_on-Built t a us (d ∷ ds) n store store1 v all fresh unused few =
      let once : count d (t ∷ us) ≡ 1 = ground (arith, all.0) in
      let one : Built t a us (n + 1) store (add_dependency t d store1) = record {
        consistent =
            add_dependency-IsConsistent t d store1 (t ∷ us) v.consistent once
              (ground (arith, v.waits t));
        ordered = add_dependency-IsOrdered t d store1 us fresh v.ordered;
        no_outputs = ground (arith, outputs-add_dependency t d t store1, v.no_outputs, all.0);
        waits =
            λ u. ground (arith, v.waits u, waits_for-add_dependency t d u store1 (t ∷ us), once);
        affinity = λ u. ground (arith, v.affinity u, affinity-add_dependency t d u store1);
      } in
      subst (λ m. Built t a us m store (depend_on t ds (add_dependency t d store1))) (omega arith)
        (depend_on-Built t a us ds (n + 1) store (add_dependency t d store1) one all.1 fresh unused
          (omega arith))
