-- ===== src/Examples/Cholesky/Schedule.antt =====
-- The order in which `cholesky` makes its kernels: no kernel writes a block that an earlier one got,
-- unless both write it.
use task_r.Base.{
  ℕ, zero, suc, ◌+◌, ◌-◌, ◌<◌, ◌≤◌, ◌≡◌, ◌||◌, Bool, true, false, subst, List, [], ◌∷◌, ◌++◌, some,
  get_elem?, arith, refl, All, All-append,
}
use task_r.Examples.Cholesky.{Cell, Kernel, potrf, trsm, gemm, syrk, accesses, output, same_cell}

-- Whether a kernel that gets some blocks gets this one.
abbrev pub touches : List Cell → Cell → Bool
touches [] c = false
touches (d ∷ cs) c = same_cell c d || touches cs c

-- The kernels of `n` rounds of a loop, from index `i`.
abbrev pub each : (i n : ℕ) → (ℕ → List Kernel) → List Kernel
each i zero f = []
each i (suc n) f = f i ++ each (suc i) n f

abbrev pub solves : (i n : ℕ) → List Kernel
solves i n = each (i + 1) n (λ j. trsm i j ∷ [])

abbrev pub updates : (i j : ℕ) → List Kernel
updates i j = each (i + 1) (j - (i + 1)) (λ k. gemm i j k ∷ []) ++ syrk i j ∷ []

-- One round of the outer loop, and all rounds.
abbrev pub round : (blocks i : ℕ) → List Kernel
round blocks i =
    potrf i ∷ (solves i (blocks - (i + 1)) ++ each (i + 1) (blocks - (i + 1)) (λ j. updates i j))

abbrev pub schedule : ℕ → List Kernel
schedule blocks = each 0 blocks (λ i. round blocks i)

All-at :
    (P : Kernel → Type 0) (ks : List Kernel) (n : ℕ) (l : Kernel)
    → All P ks
    → get_elem? ks n ≡ some l
    → P l
All-at P [] n l h e = cc
All-at P (k ∷ ks) zero l h e = subst P (cc) h.0
All-at P (k ∷ ks) (suc n) l h e = All-at P ks n l h.1 e

pub All-each :
    (P : Kernel → Type 0) (i n : ℕ) (f : ℕ → List Kernel)
    → ((j : ℕ) → i ≤ j → All P (f j))
    → All P (each i n f)
All-each P i zero f h = tt
All-each P i (suc n) f h =
    All-append P (f i) (each (suc i) n f) (h i (omega arith))
      (All-each P (suc i) n f (λ j le. h j (omega arith)))

All-map :
    (P P' : Kernel → Type 0) (ks : List Kernel) → ((k : Kernel) → P k → P' k) → All P ks → All P' ks
All-map P P' [] h a = tt
All-map P P' (k ∷ ks) h a = (h k a.0, All-map P P' ks h a.1)

module _ (R : Kernel → Kernel → Type 0) where
  abbrev pub Pairwise : List Kernel → Type 0
  Pairwise [] = Unit {0}
  Pairwise (k ∷ ks) = All (R k) ks × Pairwise ks

  Pairwise-append :
      (xs ys : List Kernel)
      → Pairwise xs
      → Pairwise ys
      → All (λ x. All (R x) ys) xs
      → Pairwise (xs ++ ys)
  Pairwise-append [] ys p q h = q
  Pairwise-append (x ∷ xs) ys p q h =
      (All-append (R x) xs ys p.0 h.0, Pairwise-append xs ys p.1 q h.1)

  pub Pairwise-at :
      (ks : List Kernel) (m n : ℕ) (k l : Kernel)
      → Pairwise ks
      → get_elem? ks m ≡ some k
      → get_elem? ks n ≡ some l
      → m < n
      → R k l
  Pairwise-at [] m n k l p e f lt = cc
  Pairwise-at (x ∷ ks) zero zero k l p e f lt = absurd (omega arith)
  Pairwise-at (x ∷ ks) zero (suc n) k l p e f lt =
      subst (λ y. R y l) (cc) (All-at (R x) ks n l p.0 f)
  Pairwise-at (x ∷ ks) (suc m) zero k l p e f lt = absurd (omega arith)
  Pairwise-at (x ∷ ks) (suc m) (suc n) k l p e f lt = Pairwise-at ks m n k l p.1 e f (omega arith)

  rounds_after :
      (i n : ℕ) (f : ℕ → List Kernel) (xs : List Kernel)
      → ((j : ℕ) → i ≤ j → All (λ x. All (R x) (f j)) xs)
      → All (λ x. All (R x) (each i n f)) xs
  rounds_after i n f [] h = tt
  rounds_after i n f (x ∷ xs) h =
      (All-each (R x) i n f (λ j le. (h j le).0), rounds_after i n f xs (λ j le. (h j le).1))

  pub Pairwise-each :
      (i n : ℕ) (f : ℕ → List Kernel)
      → ((j : ℕ) → i ≤ j → Pairwise (f j))
      → ((j j' : ℕ) → i ≤ j → j < j' → All (λ x. All (R x) (f j')) (f j))
      → Pairwise (each i n f)
  Pairwise-each i zero f p h = tt
  Pairwise-each i (suc n) f p h =
      Pairwise-append (f i) (each (suc i) n f) (p i (omega arith))
        (Pairwise-each (suc i) n f (λ j le. p j (omega arith))
          (λ j j' le lt. h j j' (omega arith) lt))
        (rounds_after (suc i) n f (f i) (λ j le. h i j (omega arith) (omega arith)))

-- A write of a block that an earlier kernel got is by a kernel that gets what that one wrote.
abbrev pub Orders : Kernel → Kernel → Type 0
Orders a b = touches (accesses a) (output b) ≡ true → touches (accesses b) (output a) ≡ true

-- A kernel of round `i`.
abbrev InRound : ℕ → Kernel → Type 0
InRound i (potrf i') = i' ≡ i
InRound i (trsm i' j) = (i' ≡ i) × (i < j)
InRound i (gemm i' j k) = (i' ≡ i) × (i < j) × (i < k)
InRound i (syrk i' j) = (i' ≡ i) × (i < j)

own-touches :
    (a b : Kernel) → same_cell (output b) (output a) ≡ true → touches (accesses b) (output a) ≡ true
own-touches a (potrf i) h = ground arith
own-touches a (trsm i j) h = ground arith
own-touches a (gemm i j k) h = ground arith
own-touches a (syrk i j) h = ground arith

below-Orders : (i : ℕ) (a b : Kernel) → InRound i a → i < (output b).0 → Orders a b
below-Orders i (potrf i') b h lt touched = absurd (ground arith)
below-Orders i (trsm i' j) b h lt touched = absurd (ground arith)
below-Orders i (gemm i' j k) b h lt touched = own-touches (gemm i' j k) b (ground arith)
below-Orders i (syrk i' j) b h lt touched = own-touches (syrk i' j) b (ground arith)

first-Orders : (i : ℕ) (b : Kernel) → Orders (potrf i) b
first-Orders i b touched = own-touches (potrf i) b (ground arith)

solves-Orders : (i j j' : ℕ) → i < j → i < j' → Orders (trsm i j) (trsm i j')
solves-Orders i j j' lt lt' touched = ground arith

later_row : (i : ℕ) (k : Kernel) → InRound i k → i ≤ (output k).0
later_row i (potrf i') h = ground arith
later_row i (trsm i' j) h = ground arith
later_row i (gemm i' j k) h = ground arith
later_row i (syrk i' j) h = ground arith

updates-InRound : (i j : ℕ) → i + 1 ≤ j → All (InRound i) (updates i j)
updates-InRound i j le =
    All-append (InRound i) (each (i + 1) (j - (i + 1)) (λ k. gemm i j k ∷ [])) (syrk i j ∷ [])
      (All-each (InRound i) (i + 1) (j - (i + 1)) (λ k. gemm i j k ∷ [])
        (λ k lek. ((refl, omega arith, omega arith), tt)))
      ((refl, omega arith), tt)

round-InRound : (blocks i : ℕ) → All (InRound i) (round blocks i)
round-InRound blocks i = (
  refl,
  All-append (InRound i) (solves i (blocks - (i + 1))) _
      (All-each (InRound i) (i + 1) (blocks - (i + 1)) (λ j. trsm i j ∷ [])
        (λ j le. ((refl, omega arith), tt)))
      (All-each (InRound i) (i + 1) (blocks - (i + 1)) (λ j. updates i j)
        (λ j le. updates-InRound i j le)),
)

-- A kernel of round `i` that writes a block below its row.
abbrev Below : ℕ → Kernel → Type 0
Below i k = InRound i k × (i < (output k).0)

updates-Below : (i j : ℕ) → i + 1 ≤ j → All (Below i) (updates i j)
updates-Below i j le =
    All-append (Below i) (each (i + 1) (j - (i + 1)) (λ k. gemm i j k ∷ [])) (syrk i j ∷ [])
      (All-each (Below i) (i + 1) (j - (i + 1)) (λ k. gemm i j k ∷ [])
        (λ k lek. (((refl, omega arith, omega arith), omega arith), tt)))
      (((refl, omega arith), omega arith), tt)

after-Below :
    (i : ℕ) (x : Kernel) (ks : List Kernel) → InRound i x → All (Below i) ks → All (Orders x) ks
after-Below i x ks here h = All-map (Below i) (Orders x) ks (λ y v. below-Orders i x y here v.1) h

Below-Pairwise : (i : ℕ) (ks : List Kernel) → All (Below i) ks → Pairwise Orders ks
Below-Pairwise i [] h = tt
Below-Pairwise i (k ∷ ks) h = (after-Below i k ks h.0.0 h.1, Below-Pairwise i ks h.1)

All-any : (P : Kernel → Type 0) (ks : List Kernel) → ((k : Kernel) → P k) → All P ks
All-any P [] h = tt
All-any P (k ∷ ks) h = (h k, All-any P ks h)

solves-Pairwise : (i n : ℕ) → Pairwise Orders (solves i n)
solves-Pairwise i n =
    Pairwise-each Orders (i + 1) n (λ j. trsm i j ∷ []) (λ j le. (tt, tt))
      (λ j j' le lt. ((solves-Orders i j j' (omega arith) (omega arith), tt), tt))

round-Pairwise : (blocks i : ℕ) → Pairwise Orders (round blocks i)
round-Pairwise blocks i =
    let n = blocks - (i + 1) in
    let ups = each (i + 1) n (λ j. updates i j) in
    let below : All (Below i) ups =
      All-each (Below i) (i + 1) n (λ j. updates i j) (λ j le. updates-Below i j le) in
    (
      All-any (Orders (potrf i)) (solves i n ++ ups) (λ k. first-Orders i k),
      Pairwise-append Orders (solves i n) ups (solves-Pairwise i n) (Below-Pairwise i ups below) (
          All-map (InRound i) (λ x. All (Orders x) ups) (solves i n)
            (λ x here. after-Below i x ups here below)
            (All-each (InRound i) (i + 1) n (λ j. trsm i j ∷ [])
              (λ j le. ((refl, omega arith), tt)))),
    )

-- Of two kernels of the schedule, where the later one writes a block that the earlier one gets, the
-- earlier one writes a block that the later one gets.
pub schedule-Orders :
    (blocks m n : ℕ) (k l : Kernel)
    → get_elem? (schedule blocks) m ≡ some k
    → get_elem? (schedule blocks) n ≡ some l
    → m < n
    → Orders k l
schedule-Orders blocks m n k l = Pairwise-at Orders (schedule blocks) m n k l (
    Pairwise-each Orders 0 blocks (λ i. round blocks i) (λ i le. round-Pairwise blocks i)
      (λ i i' le lt.
        All-map (InRound i) (λ x. All (Orders x) (round blocks i')) (round blocks i)
          (λ x here.
            All-map (InRound i') (Orders x) (round blocks i')
              (λ y there. below-Orders i x y here (omega (arith, later_row i' y there)))
              (round-InRound blocks i'))
          (round-InRound blocks i)))
