-- ===== src/Base/Loops.antt =====
-- A counted loop whose rounds all return and each establish something that later rounds keep.
use Prim.Native.Nat.{ℕ, zero, suc, ◌+◌, ◌<◌, ◌≤◌}
use mathlib.Core.Path.{◌≡◌, refl}
use native.Mathlib.Omega.{arith}
use native.Mathlib.Decide.{ℕ_discrete}
use mathlib.Core.Path.{subst}
use task_r.Base.Results.{M, ok, for_from}

module _ {S : Type 0} (Base : S → Type 0) (Keeps : S → S → Type 0) (reflexive : (s : S) → Keeps s s)
    (transitive : (s s' s'' : S) → Keeps s s' → Keeps s' s'' → Keeps s s'') where
  -- A call returns, keeps what was there, and establishes `Good`.
  abbrev pub Establishes : M S (Unit {0}) → (S → Type 0) → S → Type 0
  Establishes m Good s = (s' : S) × (m s ≡ (s', ok tt)) × Base s' × Keeps s s' × Good s'

  pub for_from-Establishes :
      (Good : ℕ → S → Type 0) (i n : ℕ) (body : ℕ → M S (Unit {0}))
      → ((k : ℕ) (s s' : S) → Keeps s s' → Good k s → Good k s')
      → ((k : ℕ) (s : S) → i ≤ k → k < i + n → Base s → Establishes (body k) (Good k) s)
      → (s : S) → Base s
      → Establishes (for_from i n body) (λ s'. (k : ℕ) → i ≤ k → k < i + n → Good k s') s
  for_from-Establishes Good i zero body stays step s base =
      (s, refl, base, reflexive s, λ k le lt. absurd (omega arith))
  for_from-Establishes Good i (suc n) body stays step s base =
      let (s1, e, base1, keeps1, good1) = step i s (omega arith) (omega arith) base in
      let (s2, f, base2, keeps2, good2) =
        for_from-Establishes Good (suc i) n body stays
          (λ k s le lt base. step k s (omega arith) (omega arith) base) s1 base1 in
      (
        s2,
        rw e f,
        base2,
        transitive s s1 s2 keeps1 keeps2,
        λ k le lt. elim (ℕ_discrete i k) [
          | yes same ↦ stays k s1 s2 keeps2 (subst (λ x. Good x s1) same good1)
          | no other ↦ good2 k (omega arith) (omega arith)
        ],
      )

  pub loop-Establishes :
      (Good : ℕ → S → Type 0) (n : ℕ) (body : ℕ → M S (Unit {0}))
      → ((k : ℕ) (s s' : S) → Keeps s s' → Good k s → Good k s')
      → ((k : ℕ) (s : S) → k < n → Base s → Establishes (body k) (Good k) s)
      → (s : S) → Base s
      → Establishes (for_from 0 n body) (λ s'. (k : ℕ) → k < n → Good k s') s
  loop-Establishes Good n body stays step s base =
      let (s', e, base', keeps, good) =
        for_from-Establishes Good 0 n body stays (λ k s le lt base. step k s (omega arith) base) s
          base in
      (s', e, base', keeps, λ k lt. good k (omega arith) (omega arith))

  -- Two loops, one in the other.
  pub nest-Establishes :
      (Good : ℕ → ℕ → S → Type 0) (m n : ℕ) (body : ℕ → ℕ → M S (Unit {0}))
      → ((i j : ℕ) (s s' : S) → Keeps s s' → Good i j s → Good i j s')
      → ((i j : ℕ) (s : S) → i < m → j < n → Base s → Establishes (body i j) (Good i j) s)
      → (s : S) → Base s
      → Establishes
          (for_from 0 m λ i. for_from 0 n λ j. body i j)
          (λ s'. (i : ℕ) → i < m → (j : ℕ) → j < n → Good i j s')
          s
  nest-Establishes Good m n body stays step =
      loop-Establishes (λ i x. (j : ℕ) → j < n → Good i j x) m (λ i. for_from 0 n λ j. body i j)
        (λ i s s' keeps good j lt. stays i j s s' keeps (good j lt))
        (λ i s lt base.
          loop-Establishes (Good i) n (body i) (λ j. stays i j) (λ j s lt'. step i j s lt lt') s
            base)

  -- Four loops, one in the other.
  pub loops-Establishes :
      (Good : ℕ → ℕ → ℕ → ℕ → S → Type 0) (m n : ℕ) (body : ℕ → ℕ → ℕ → ℕ → M S (Unit {0}))
      → ((i j k z : ℕ) (s s' : S) → Keeps s s' → Good i j k z s → Good i j k z s')
      → ((i j k z : ℕ) (s : S)
          → i < m
          → j < m
          → k < n
          → z < n
          → Base s
          → Establishes (body i j k z) (Good i j k z) s)
      → (s : S) → Base s
      → Establishes
          (for_from 0 m λ i. for_from 0 m λ j. for_from 0 n λ k. for_from 0 n λ z. body i j k z)
          (λ s'.
            (i : ℕ) → i < m → (j : ℕ) → j < m → (k : ℕ) → k < n → (z : ℕ) → z < n → Good i j k z s')
          s
  loops-Establishes Good m n body stays step =
      nest-Establishes (λ i j x. (k : ℕ) → k < n → (z : ℕ) → z < n → Good i j k z x) m m
        (λ i j. for_from 0 n λ k. for_from 0 n λ z. body i j k z)
        (λ i j s s' keeps good k lt z lt'. stays i j k z s s' keeps (good k lt z lt'))
        (λ i j s lt lt' base.
          nest-Establishes (Good i j) n n (body i j) (λ k z. stays i j k z)
            (λ k z s lk lz. step i j k z s lt lt' lk lz) s base)

-- A loop whose rounds all return and carry an invariant from one index to the next.
pub for_from-Invariant :
    {S : Type 0} (I : ℕ → S → Type 0) (i n : ℕ) (body : ℕ → M S (Unit {0}))
    → ((k : ℕ) (s : S) → k < i + n → I k s → (s' : S) × (body k s ≡ (s', ok tt)) × I (suc k) s')
    → (s : S) → I i s
    → (s' : S) × (for_from i n body s ≡ (s', ok tt)) × I (i + n) s'
for_from-Invariant I i zero body step s v = (s, refl, subst (λ k. I k s) (omega arith) v)
for_from-Invariant I i (suc n) body step s v =
    let (s1, e, v1) = step i s (omega arith) v in
    let (s2, f, v2) =
      for_from-Invariant I (suc i) n body (λ k s lt w. step k s (omega arith) w) s1 v1 in
    (s2, rw e f, subst (λ k. I k s2) (omega arith) v2)
