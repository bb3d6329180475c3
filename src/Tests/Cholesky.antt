-- ===== src/Tests/Cholesky.antt =====
-- The graph of a decomposition of two by two blocks.
use task_r.Base.{ℕ, ◌<◌, ◌≡◌, refl, true, [], ◌∷◌, some, get_elem?, ok, arith, Bool}
use task_r.Queue.{Bounded}
use task_r.Task
use task_r.Task.Graph.{count}
use task_r.Runtime.Execution.{Reach, IsFresh}
use task_r.Examples.Cholesky.{Kernel, potrf, trsm, syrk, gemm, Building, cholesky}
use task_r.Examples.Cholesky.Schedule.{schedule}
use task_r.Examples.Cholesky.Order.{cholesky-depends, disturb}
use task_r.Tests.Samples.{env, unbound_with}

abbrev function : Kernel → Task.Function
unfolding Task.create_function
function k = Task.create_function (λ f. f) 0

two_blocks : schedule 2 ≡ potrf 0 ∷ trsm 0 1 ∷ syrk 0 1 ∷ potrf 1 ∷ []
two_blocks = refl

three_blocks : get_elem? (schedule 3) 4 ≡ some (gemm 0 2 1)
three_blocks = refl

fresh : IsFresh env (unbound_with [] [] 0 0)
fresh = record {
  calm = refl;
  alone = refl;
  polling = omega arith;
  inactive = refl;
  empty = λ t. refl;
  unused = λ t. refl;
}

cholesky-depends_example :
    (b : Building Bounded Bool ℕ) × (cholesky env function 2
        (record { dependency_grid = λ r c. []; task_counter = 0; runtime = unbound_with [] [] 0 0 })
      ≡ (b, ok tt))
    × Reach env (record { runtime = b.runtime; executing = []; unfinished = 3 ∷ 2 ∷ 1 ∷ 0 ∷ [] })
    × ((m n : ℕ) (k l : Kernel)
        → get_elem? (schedule 2) m ≡ some k
        → get_elem? (schedule 2) n ≡ some l
        → m < n
        → disturb k l ≡ true
        → 0 < count n (b.runtime.tasks m).output_dependencies)
cholesky-depends_example =
    cholesky-depends env function 2 (unbound_with [] [] 0 0) (λ r c. []) fresh (omega arith)
      (omega arith) (λ r c. refl)
