-- ===== src/Examples/Cholesky/Order.antt =====
-- The whole of `cholesky`: it makes the kernels of its schedule, and kernels that would disturb one
-- another depend on one another.
use task_r.Base.{
  for_from, subst, ap, sym, ℕ, zero, suc, ◌+◌, ◌-◌, ◌*◌, ◌<◌, ◌^◌, ◌≡◌, ◌||◌, Bool, true, false,
  List, [], ◌∷◌, ◌++◌, some, get_elem?, arith, refl, length, M, ok, after, ◌>>=◌, ◌>>◌, ◌∙◌,
  Outcome, throw, blocked, undefined,
}
use task_r.Task.{Function}
use task_r.Task.Graph.{count}
use task_r.Runtime.State.{Runtime, Environment}
use task_r.Runtime.Queued.{RoomFor}
use task_r.Runtime.Execution.{Reach, starts, IsFresh}
use task_r.Examples.Cholesky.{
  Cell, Kernel, potrf, trsm, gemm, syrk, operands, changed, accesses, output, Building, spawn,
  cholesky,
}
use task_r.Examples.Cholesky.Schedule.{
  touches, each, solves, updates, round, schedule, schedule-Orders,
}
use task_r.Examples.Cholesky.Writers.{tasks_of, kernel_at, kernel_at_lt, onto}
use task_r.Examples.Cholesky.Graph.{spawn_all, spawn_all-Builds}

kernel_at-keep :
    (ks done : List Kernel) (n : ℕ) (k : Kernel)
    → kernel_at n done ≡ some k
    → kernel_at n (onto ks done) ≡ some k
kernel_at-keep [] done n k e = e
kernel_at-keep (x ∷ ks) done n k e =
    kernel_at-keep ks (x ∷ done) n k (ground (arith, kernel_at_lt n done k))

-- The kernels have the numbers of their places in the schedule.
kernel_at-onto :
    (ks done : List Kernel) (m : ℕ) (k : Kernel)
    → get_elem? ks m ≡ some k
    → kernel_at (length done + m) (onto ks done) ≡ some k
kernel_at-onto [] done m k e = cc
kernel_at-onto (x ∷ ks) done zero k e =
    kernel_at-keep ks (x ∷ done) (length done + 0) k (ground arith)
kernel_at-onto (x ∷ ks) done (suc m) k e =
    subst (λ n. kernel_at n (onto ks (x ∷ done)) ≡ some k) (omega arith)
      (kernel_at-onto ks (x ∷ done) m k e)

place_at :
    (ks : List Kernel) (m : ℕ) (k : Kernel)
    → get_elem? ks m ≡ some k
    → kernel_at m (onto ks []) ≡ some k
place_at ks m k e =
    subst (λ n. kernel_at n (onto ks []) ≡ some k) (omega arith) (kernel_at-onto ks [] m k e)

-- Two kernels disturb one another where one of them changes a block that the other gets.
abbrev pub disturb : Kernel → Kernel → Bool
disturb k l = touches (operands l) (changed k) || touches (operands k) (changed l)

-- A task is entered into the grid at the block that its kernel changes.
changed-output : (k : Kernel) → changed k ≡ output k
changed-output (potrf i) = refl
changed-output (trsm i j) = refl
changed-output (gemm i j k) = refl
changed-output (syrk i j) = refl

-- A task has a dependency for each block that its kernel gets.
operands-accesses :
    (k : Kernel) (c : Cell) → touches (operands k) c ≡ true → touches (accesses k) c ≡ true
operands-accesses (potrf i) c h = h
operands-accesses (trsm i j) c h = h
operands-accesses (gemm i j k) c h = ground arith
operands-accesses (syrk i j) c h = h

covered :
    (k l : Kernel)
    → touches (operands k) (changed l) ≡ true
    → touches (accesses k) (output l) ≡ true
covered k l h =
    subst (λ c. touches (accesses k) c ≡ true) (changed-output l)
      (operands-accesses k (changed l) h)

disturb-accesses :
    (k l : Kernel)
    → disturb k l ≡ true
    → touches (accesses l) (output k) || touches (accesses k) (output l) ≡ true
disturb-accesses k l h = ground (arith, covered k l, covered l k)

disturbed : {a b : Bool} → (b ≡ true → a ≡ true) → a || b ≡ true → a ≡ true
disturbed {a = true} h e = refl
disturbed {a = false} h e = h e

module _ {Q Op W : Type 0} (env : Environment Q Op W) (function : Kernel → Function) where
  after_assoc :
      {A B C : Type 0} (r : Building Q Op W × Outcome A) (f : A → M (Building Q Op W) B)
      (g : B → M (Building Q Op W) C)
      → after (after r f) g ≡ after r (λ a. f a >>= g)
  after_assoc (b, ok a) f g = refl
  after_assoc (b, throw e) f g = refl
  after_assoc (b, blocked) f g = refl
  after_assoc (b, undefined) f g = refl

  spawn_all-append :
      (xs ys : List Kernel) (b : Building Q Op W)
      → spawn_all env function (xs ++ ys) b
        ≡ (spawn_all env function xs >> spawn_all env function ys) b
  spawn_all-append [] ys b = refl
  spawn_all-append (x ∷ xs) ys b =
      ap (after (spawn env function x b)) (λ i _ c. spawn_all-append xs ys c i)
      ∙ sym (
          after_assoc (spawn env function x b) (λ _. spawn_all env function xs)
            (λ _. spawn_all env function ys))

  for_from-each :
      (i n : ℕ) (body : ℕ → M (Building Q Op W) (Unit {0})) (f : ℕ → List Kernel)
      → ((j : ℕ) (b : Building Q Op W) → body j b ≡ spawn_all env function (f j) b)
      → (b : Building Q Op W) → for_from i n body b ≡ spawn_all env function (each i n f) b
  for_from-each i zero body f h b = refl
  for_from-each i (suc n) body f h b =
      (λ k. after (h i b k) (λ _ c. for_from-each (suc i) n body f h c k))
      ∙ sym (spawn_all-append (f i) (each (suc i) n f) b)

  after_unit : (r : Building Q Op W × Outcome (Unit {0})) → after r (λ _ b. (b, ok tt)) ≡ r
  after_unit (b, ok a) = refl
  after_unit (b, throw e) = refl
  after_unit (b, blocked) = refl
  after_unit (b, undefined) = refl

  spawn_one :
      (k : Kernel) (b : Building Q Op W)
      → spawn env function k b ≡ spawn_all env function (k ∷ []) b
  spawn_one k b = sym (after_unit (spawn env function k b))

  updates_eq :
      (i j : ℕ) (b : Building Q Op W)
      → (for_from (i + 1) (j - (i + 1)) (λ k. spawn env function (gemm i j k))
            >> spawn env function (syrk i j))
          b
        ≡ spawn_all env function (updates i j) b
  updates_eq i j b =
      let inner = each (i + 1) (j - (i + 1)) (λ k. gemm i j k ∷ []) in
      (λ x.
        after
          (for_from-each (i + 1) (j - (i + 1)) (λ k. spawn env function (gemm i j k))
            (λ k. gemm i j k ∷ []) (λ k. spawn_one (gemm i j k)) b x)
          (λ _ c. spawn_one (syrk i j) c x))
      ∙ sym (spawn_all-append inner (syrk i j ∷ []) b)

  rest_eq :
      (i n : ℕ) (b : Building Q Op W)
      → (for_from (i + 1) n (λ j. spawn env function (trsm i j))
            >> for_from (i + 1) n (λ j.
              for_from (i + 1) (j - (i + 1)) (λ k. spawn env function (gemm i j k))
              >> spawn env function (syrk i j)))
          b
        ≡ spawn_all env function (solves i n ++ each (i + 1) n (λ j. updates i j)) b
  rest_eq i n b =
      (λ x.
        after
          (for_from-each (i + 1) n (λ j. spawn env function (trsm i j)) (λ j. trsm i j ∷ [])
            (λ j. spawn_one (trsm i j)) b x)
          (λ _ c.
            for_from-each (i + 1) n
              (λ j.
                for_from (i + 1) (j - (i + 1)) (λ k. spawn env function (gemm i j k))
                >> spawn env function (syrk i j))
              (λ j. updates i j) (λ j. updates_eq i j) c x))
      ∙ sym (spawn_all-append (solves i n) (each (i + 1) n (λ j. updates i j)) b)

  cholesky-spawn_all :
      (blocks : ℕ) (b : Building Q Op W)
      → cholesky env function blocks b ≡ spawn_all env function (schedule blocks) b
  unfolding cholesky
  cholesky-spawn_all blocks =
      for_from-each 0 blocks _ (λ i. round blocks i)
        (λ i b x. after (spawn env function (potrf i) b) (λ _ c. rest_eq i (blocks - (i + 1)) c x))

  -- Building the graph of any number of blocks on a runtime to which no task was added, where the ready
  -- queues have room for all tasks, returns in a state of a run in which all kernels are unfinished;
  -- and of two kernels of which one changes a block whose memory the other gets, the later one depends
  -- on the earlier.
  pub cholesky-depends :
      (blocks : ℕ) (r : Runtime Q Op W) (memory : ℕ → ℕ → List ℕ)
      → IsFresh env r
      → RoomFor env.queue (length (schedule blocks)) r
      → 3 * length (schedule blocks) < 2 ^ 64
      → ((row column : ℕ) → memory row column ≡ [])
      → (b : Building Q Op W) × (cholesky env function blocks
            (record { dependency_grid = memory; task_counter = 0; runtime = r })
          ≡ (b, ok tt))
        × Reach env (record {
          runtime = b.runtime;
          executing = [];
          unfinished = tasks_of (onto (schedule blocks) []);
        })
        × ((m n : ℕ) (k l : Kernel)
            → get_elem? (schedule blocks) m ≡ some k
            → get_elem? (schedule blocks) n ≡ some l
            → m < n
            → disturb k l ≡ true
            → 0 < count n (b.runtime.tasks m).output_dependencies)
  cholesky-depends blocks r memory fresh room few empty =
      let start : Building Q Op W = record {
        dependency_grid = memory;
        task_counter = 0;
        runtime = r;
      } in
      let (b, e, v) =
        spawn_all-Builds env function (schedule blocks) [] start
          (record {
            counter = refl;
            grid = empty;
            reach = starts r fresh;
            wired = record { later = λ m n k l ek el lt touched. cc };
          })
          room (omega arith) in
      (
        b,
        cholesky-spawn_all blocks start ∙ e,
        v.reach,
        λ m n k l ek el lt disturbs.
            v.wired.later m n k l (place_at (schedule blocks) m k ek)
              (place_at (schedule blocks) n l el) lt
              (disturbed (schedule-Orders blocks m n k l ek el lt) (disturb-accesses k l disturbs)),
      )
