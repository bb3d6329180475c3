-- ===== src/Examples/Blocks/Overrun.antt =====
-- `convertToBlockMatrix` where the dimension holds more blocks than were allocated.
use task_r.Base.{
  sym, Outcome, throw, blocked, ℕ, zero, suc, ◌+◌, ◌*◌, ◌/◌, ◌<◌, ◌≤◌, ◌≡◌, ◌⊎◌, inl, inr, ◌==◌,
  ◌&&◌, ltb, arith, refl, ok, undefined, M, false, Bool-cases, ℕ_discrete, subst, for_from, after,
}
use task_r.Examples.Blocks.{
  Matrices, to_block, has_block, put_block, read_plain, write_block, word32,
  convert_to_block_matrix,
}

module _ {A : Type 0} (rows : ℕ) where
  -- A call that goes out of bounds, or returns and leaves the number of rows alone.
  abbrev Ends : M (Matrices A) (Unit {0}) → Type 0
  Ends m =
      (s : Matrices A)
      → s.rows ≡ rows
      → ((m s).1 ≡ undefined) ⊎ ((s' : Matrices A) × (m s ≡ (s', ok tt)) × (s'.rows ≡ rows))

  abbrev Overruns : M (Matrices A) (Unit {0}) → Type 0
  Overruns m = (s : Matrices A) → s.rows ≡ rows → (m s).1 ≡ undefined

  after-undefined :
      {B C : Type 0} (r : Matrices A × Outcome B) (f : B → M (Matrices A) C)
      → r.1 ≡ undefined
      → (after r f).1 ≡ undefined
  after-undefined (s, ok b) f e = cc
  after-undefined (s, throw x) f e = cc
  after-undefined (s, blocked) f e = cc
  after-undefined (s, undefined) f e = refl

  for_from-Ends :
      (i n : ℕ) (body : ℕ → M (Matrices A) (Unit {0}))
      → ((k : ℕ) → Ends (body k))
      → Ends (for_from i n body)
  for_from-Ends i zero body h s e = inr (s, refl, e)
  for_from-Ends i (suc n) body h s e = elim (h i s e) [
    | inl out ↦ inl (after-undefined (body i s) (λ _. for_from (suc i) n body) out)
    | inr (s1, f, e1) ↦ rw f (for_from-Ends (suc i) n body h s1 e1)
  ]

  for_from-Overruns :
      (t i n : ℕ) (body : ℕ → M (Matrices A) (Unit {0}))
      → i ≤ t
      → t < i + n
      → ((k : ℕ) → Ends (body k))
      → Overruns (body t)
      → Overruns (for_from i n body)
  for_from-Overruns t i zero body le lt h bad s e = absurd (omega arith)
  for_from-Overruns t i (suc n) body le lt h bad s e = elim (h i s e) [
    | inl out ↦ after-undefined (body i s) (λ _. for_from (suc i) n body) out
    | inr (s1, f, e1) ↦ elim (ℕ_discrete i t) [
      | yes same ↦ let out = subst (λ k. (body k s).1 ≡ undefined) (sym same) (bad s e) in cc
      | no other ↦ rw f (for_from-Overruns t (suc i) n body (omega arith) (omega arith) h bad s1 e1)
    ]
  ]

  to_block-Ends : (d b i j ii jj : ℕ) → Ends (to_block d b i j ii jj)
  unfolding to_block read_plain write_block
  to_block-Ends d b i j ii jj s e =
      let row = word32 (i * b + ii) in
      let col = word32 (j * b + jj) in
      elim (Bool-cases (ltb (word32 (row * d + col)) s.plain.size)) [
        | inr f ↦ inl (rw f refl)
        | inl f ↦
            elim (Bool-cases (has_block i j s && ltb (word32 (ii * b + jj)) (s.block i j).size)) [
              | inr g ↦ inl (rw (f, g) refl)
              | inl g ↦ inr (
                put_block i j (word32 (ii * b + jj)) (s.plain.at (word32 (row * d + col))) s,
                rw (f, g) refl,
                e,
              )
            ]
      ]

  to_block-Overruns : (d b i j ii jj : ℕ) → rows ≤ j → Overruns (to_block d b i j ii jj)
  unfolding to_block read_plain write_block
  to_block-Overruns d b i j ii jj le s e = ground arith

  cell-Ends : (d b i j : ℕ) → Ends (for_from 0 b λ ii. for_from 0 b λ jj. to_block d b i j ii jj)
  cell-Ends d b i j =
      for_from-Ends 0 b (λ ii. for_from 0 b λ jj. to_block d b i j ii jj)
        (λ ii. for_from-Ends 0 b (λ jj. to_block d b i j ii jj) (λ jj. to_block-Ends d b i j ii jj))

  cell-Overruns :
      (d b i j : ℕ)
      → 0 < b
      → rows ≤ j
      → Overruns (for_from 0 b λ ii. for_from 0 b λ jj. to_block d b i j ii jj)
  cell-Overruns d b i j positive le =
      for_from-Overruns 0 0 b (λ ii. for_from 0 b λ jj. to_block d b i j ii jj) (omega arith)
        (omega arith)
        (λ ii. for_from-Ends 0 b (λ jj. to_block d b i j ii jj) (λ jj. to_block-Ends d b i j ii jj))
        (for_from-Overruns 0 0 b (λ jj. to_block d b i j 0 jj) (omega arith) (omega arith)
          (λ jj. to_block-Ends d b i j 0 jj) (to_block-Overruns d b i j 0 0 le))

  -- Where the dimension holds more blocks than the vector of blocks has rows, the conversion to blocks
  -- goes out of bounds, whatever the sizes of the other memory.
  pub conversion_overruns :
      (dimension b : ℕ) (s : Matrices A)
      → 0 < b
      → s.rows ≡ rows
      → rows < dimension / b
      → (convert_to_block_matrix dimension b s).1 ≡ undefined
  unfolding convert_to_block_matrix
  conversion_overruns dimension b s positive e less =
      let test : (b == 0) ≡ false = ground arith in
      let n = dimension / b in
      let line = λ (i : ℕ).
        for_from 0 n
          λ j. for_from 0 b λ ii. for_from 0 b λ jj. to_block {A = A} dimension b i j ii jj in
      rw test (
        for_from-Overruns 0 0 n line (omega arith) (omega arith)
          (λ i.
            for_from-Ends 0 n
              (λ j. for_from 0 b λ ii. for_from 0 b λ jj. to_block dimension b i j ii jj)
              (λ j. cell-Ends dimension b i j))
          (for_from-Overruns rows 0 n
            (λ j. for_from 0 b λ ii. for_from 0 b λ jj. to_block dimension b 0 j ii jj)
            (omega arith) (omega arith) (λ j. cell-Ends dimension b 0 j)
            (cell-Overruns dimension b 0 rows positive (omega arith)))
          s e)
