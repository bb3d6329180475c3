-- ===== src/Task/Graph.antt =====
-- The dependency graph: what the counters and the output dependencies say of one another.
use task_r.Base.{
  ℕ, ◌+◌, ◌^◌, ◌<◌, ◌≡◌, List, [], ◌∷◌, ◌++◌, ◌==◌, if◌then◌else◌, arith, refl, inc64, inc64-add,
}
use task_r.Task.{Store, add_dependency}

-- How often an address stands in a list.
abbrev pub count : ℕ → List ℕ → ℕ
count t [] = 0
count t (u ∷ us) = (if u == t then 1 else 0) + count t us

pub count-append : (t : ℕ) (xs ys : List ℕ) → count t (xs ++ ys) ≡ count t xs + count t ys
count-append t [] ys = omega arith
count-append t (x ∷ xs) ys = omega (arith, count-append t xs ys)

module _ {Op : Type 0} where
  -- How often the tasks of a list name `t` as one that waits for them.
  abbrev pub waits_for : Store Op → List ℕ → ℕ → ℕ
  waits_for store [] t = 0
  waits_for store (u ∷ us) t = count t (store u).output_dependencies + waits_for store us t

  pub waits_for_same :
      (store store' : Store Op) (us : List ℕ) (t : ℕ)
      → ((u : ℕ) → (store' u).output_dependencies ≡ (store u).output_dependencies)
      → waits_for store' us t ≡ waits_for store us t
  waits_for_same store store' [] t h = refl
  waits_for_same store store' (u ∷ us) t h = rw (h u, waits_for_same store store' us t h)

  -- The counter of each task is the number of its dependencies on the tasks that are unfinished.
  pub record IsConsistent (store : Store Op) (unfinished : List ℕ) : Type 0 where
    pub counted : (t : ℕ) → (store t).dependency_count ≡ waits_for store unfinished t
    pub fits : (t : ℕ) → waits_for store unfinished t < 2 ^ 64

  pub outputs-add_dependency :
      (t d u : ℕ) (store : Store Op)
      → (add_dependency t d store u).output_dependencies ≡ (
          if d == u then (store u).output_dependencies ++ t ∷ [] else (store u).output_dependencies)
  unfolding add_dependency
  outputs-add_dependency t d u store = ground arith

  count-add_dependency :
      (t d u : ℕ) (store : Store Op)
      → (add_dependency t d store u).dependency_count
        ≡ (if t == u then inc64 (store u).dependency_count else (store u).dependency_count)
  unfolding add_dependency
  count-add_dependency t d u store = ground arith

  pub waits_for-add_dependency :
      (t d v : ℕ) (store : Store Op) (us : List ℕ)
      → waits_for (add_dependency t d store) us v
        ≡ waits_for store us v + (if t == v then count d us else 0)
  waits_for-add_dependency t d v store [] = ground arith
  waits_for-add_dependency t d v store (u ∷ us) = ground (
    arith,
    outputs-add_dependency t d u store,
    count-append v (store u).output_dependencies (t ∷ []),
    waits_for-add_dependency t d v store us,
  )

  -- Adding a dependency on an unfinished task keeps the counters and the lists of output
  -- dependencies in step, as long as the counter does not overflow.
  pub add_dependency-IsConsistent :
      (t d : ℕ) (store : Store Op) (unfinished : List ℕ)
      → IsConsistent store unfinished
      → count d unfinished ≡ 1
      → waits_for store unfinished t + 1 < 2 ^ 64
      → IsConsistent (add_dependency t d store) unfinished
  add_dependency-IsConsistent t d store unfinished c once room = record {
    counted = λ v. ground (
      arith,
      c.counted v,
      c.counted t,
      count-add_dependency t d v store,
      waits_for-add_dependency t d v store unfinished,
      inc64-add (store v).dependency_count,
    );
    fits = λ v. ground (arith, c.fits v, waits_for-add_dependency t d v store unfinished);
  }

  -- The place of an unfinished task in the list does not matter.
  pub waits_for_middle :
      (store : Store Op) (us vs : List ℕ) (t u : ℕ)
      → waits_for store (us ++ t ∷ vs) u
        ≡ count u (store t).output_dependencies + waits_for store (us ++ vs) u
  waits_for_middle store [] vs t u = refl
  waits_for_middle store (v ∷ us) vs t u = omega (arith, waits_for_middle store us vs t u)
