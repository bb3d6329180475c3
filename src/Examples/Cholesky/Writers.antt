-- ===== src/Examples/Cholesky/Writers.antt =====
-- The kernels that were spawned, the newest first: the numbers of their tasks, and of those that wrote
-- a block.
use task_r.Base.{
  ℕ, suc, ◌+◌, ◌<◌, ◌≤◌, ◌≡◌, ◌==◌, true, List, [], ◌∷◌, ◌++◌, Option, some, none, arith, refl, sym,
  ap, subst, length, length-append, if◌then◌else◌, Bool-cases, inl, inr, ltb, false,
}
use task_r.Task.Graph.{count, count-append}
use task_r.Examples.Cholesky.Schedule.{touches}
use task_r.Examples.Cholesky.{
  Cell, Kernel, potrf, trsm, gemm, syrk, accesses, output, same_cell, contains,
}

-- Of the kernels so far, the newest first: the task of each is its number; those that wrote a block;
-- those that a kernel with some blocks depends on.
abbrev pub tasks_of : List Kernel → List ℕ
tasks_of [] = []
tasks_of (k ∷ ks) = length ks ∷ tasks_of ks

abbrev pub kernel_at : ℕ → List Kernel → Option Kernel
kernel_at n [] = none
kernel_at n (k ∷ ks) = if n == length ks then some k else kernel_at n ks

abbrev pub writers : Cell → List Kernel → List ℕ
writers c [] = []
writers c (k ∷ ks) = if same_cell (output k) c then length ks ∷ writers c ks else writers c ks

abbrev pub gather : List Cell → List Kernel → List ℕ
gather [] ks = []
gather (c ∷ cs) ks = writers c ks ++ gather cs ks

-- The kernels of a list, put before those that were there already.
abbrev pub onto : List Kernel → List Kernel → List Kernel
onto [] done = done
onto (k ∷ ks) done = onto ks (k ∷ done)

pub count-tasks_of :
    (t : ℕ) (ks : List Kernel) → count t (tasks_of ks) ≡ (if ltb t (length ks) then 1 else 0)
count-tasks_of t [] = ground arith
count-tasks_of t (k ∷ ks) = ground (arith, count-tasks_of t ks)

pub length-tasks_of : (ks : List Kernel) → length (tasks_of ks) ≡ length ks
length-tasks_of [] = refl
length-tasks_of (k ∷ ks) = ap suc (length-tasks_of ks)

pub kernel_at_lt : (n : ℕ) (ks : List Kernel) (k : Kernel) → kernel_at n ks ≡ some k → n < length ks
kernel_at_lt n [] k e = cc
kernel_at_lt n (l ∷ ks) k e = ground (arith, kernel_at_lt n ks k)

pub writers_small :
    (c : Cell) (ks : List Kernel) (d : ℕ) → 0 < count d (writers c ks) → d < length ks
writers_small c [] d h = absurd (omega arith)
writers_small c (k ∷ ks) d h = ground (arith, writers_small c ks d)

length-writers : (c : Cell) (ks : List Kernel) → length (writers c ks) ≤ length ks
length-writers c [] = omega arith
length-writers c (k ∷ ks) = ground (arith, length-writers c ks)

pub gather_small :
    (cs : List Cell) (ks : List Kernel) (d : ℕ) → 0 < count d (gather cs ks) → d < length ks
gather_small [] ks d h = absurd (omega arith)
gather_small (c ∷ cs) ks d h = ground (
  arith,
  count-append d (writers c ks) (gather cs ks),
  writers_small c ks d,
  gather_small cs ks d,
)

length-gather_step :
    (c : Cell) (cs : List Cell) (ks : List Kernel) (n : ℕ)
    → length (gather cs ks) ≤ n
    → length (gather (c ∷ cs) ks) ≤ length ks + n
length-gather_step c cs ks n h =
    omega (arith, length-append (writers c ks) (gather cs ks), length-writers c ks)

-- A kernel gets three blocks at most.
pub length-gather :
    (k : Kernel) (ks : List Kernel)
    → length (gather (accesses k) ks) ≤ length ks + (length ks + (length ks + 0))
length-gather (potrf i) ks = omega (arith, length-gather_step (i, i) [] ks 0 (omega arith))
length-gather (trsm i j) ks = omega (
  arith,
  length-gather_step (i, i) ((i, j) ∷ []) ks (length ks + 0)
      (length-gather_step (i, j) [] ks 0 (omega arith)),
)
length-gather (gemm i j k) ks =
    length-gather_step (i, j) ((i, k) ∷ (k, j) ∷ []) ks (length ks + (length ks + 0))
      (length-gather_step (i, k) ((k, j) ∷ []) ks (length ks + 0)
        (length-gather_step (k, j) [] ks 0 (omega arith)))
length-gather (syrk i j) ks = omega (
  arith,
  length-gather_step (i, j) ((j, j) ∷ []) ks (length ks + 0)
      (length-gather_step (j, j) [] ks 0 (omega arith)),
)

writers_hit :
    (c : Cell) (ks : List Kernel) (m : ℕ) (k : Kernel)
    → kernel_at m ks ≡ some k
    → same_cell (output k) c ≡ true
    → 0 < count m (writers c ks)
writers_hit c [] m k e h = cc
writers_hit c (l ∷ ks) m k e h = elim (Bool-cases (m == length ks)) [
  | inl here ↦
      let same : l ≡ k = ground arith in
      let own : same_cell (output l) c ≡ true =
        subst (λ x. same_cell (output x) c ≡ true) (sym same) h in
      ground arith
  | inr before ↦ ground (arith, writers_hit c ks m k)
]

pub gather_hit :
    (cs : List Cell) (ks : List Kernel) (m : ℕ) (k : Kernel)
    → kernel_at m ks ≡ some k
    → touches cs (output k) ≡ true
    → 0 < count m (gather cs ks)
gather_hit [] ks m k e h = cc
gather_hit (c ∷ cs) ks m k e h = ground (
  arith,
  count-append m (writers c ks) (gather cs ks),
  writers_hit c ks m k e,
  gather_hit cs ks m k e,
)

pub contains_none : (t : ℕ) (ts : List ℕ) → count t ts ≡ 0 → contains t ts ≡ false
contains_none t [] h = refl
contains_none t (u ∷ ts) h = ground (arith, contains_none t ts)
