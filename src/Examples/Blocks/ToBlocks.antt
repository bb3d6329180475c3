-- ===== src/Examples/Blocks/ToBlocks.antt =====
-- `convertToBlockMatrix`: no index leaves its memory, and each element goes to its place.
use task_r.Base.{
  ℕ, ◌+◌, ◌*◌, ◌/◌, ◌%◌, ◌^◌, ◌<◌, ◌≤◌, ◌≡◌, ◌==◌, arith, refl, sym, ap, ap₂, ◌∙◌, ok, false,
  for_from, loops-Establishes, Establishes,
}
use native.Mathlib.Nat.{mul-div_cancel}
use task_r.Examples.Blocks.{
  Matrices, put_block, read_plain, write_block, to_block, convert_to_block_matrix,
}
use task_r.Examples.Blocks.Indices.{flat-div, flat-mod, dim, index, Fits, all-Fits, IsSized}

module _ {A : Type 0} (n b : ℕ) where
  to_block_eq :
      (i j ii jj : ℕ) (s : Matrices A)
      → i < n
      → j < n
      → Fits n b i j ii jj
      → IsSized n b s
      → to_block (dim n b) b i j ii jj s
        ≡ (put_block i j (ii * b + jj) (s.plain.at (index n b i j ii jj)) s, ok tt)
  unfolding to_block read_plain write_block
  to_block_eq i j ii jj s li lj f v =
      rw (f.row, f.col, f.place, f.inner)
        (ground (arith, v.plain, v.rows, v.block i j, f.place_lt, f.inner_lt))

  -- What belongs at a place of a block of another matrix.
  abbrev due : Matrices A → (i j p : ℕ) → A
  due s i j p = s.plain.at ((i * b + p / b) * (dim n b) + (j * b + p % b))

  due-index :
      (s : Matrices A) (i j ii jj : ℕ)
      → jj < b
      → due s i j (ii * b + jj) ≡ s.plain.at (index n b i j ii jj)
  due-index s i j ii jj lt =
      ap₂ (λ q r. s.plain.at ((i * b + q) * (dim n b) + (j * b + r))) (flat-div ii jj b lt)
        (flat-mod ii jj b lt)

  -- The state of `convertToBlockMatrix` on the matrices `s`, and what its rounds keep.
  record Blocking (s x : Matrices A) : Type 0 where
    sized : IsSized n b x
    same : x.plain ≡ s.plain

  abbrev KeepsBlocks : Matrices A → Matrices A → Matrices A → Type 0
  KeepsBlocks s x x' =
      (i j p : ℕ) → (x.block i j).at p ≡ due s i j p → (x'.block i j).at p ≡ due s i j p

  put_block-Keeps :
      (s x : Matrices A) (i j p : ℕ) → KeepsBlocks s x (put_block i j p (due s i j p) x)
  put_block-Keeps s x i j p i' j' p' e = ground arith

  put_block-IsSized :
      (i j p : ℕ) (v : A) (x : Matrices A) → IsSized n b x → IsSized n b (put_block i j p v x)
  put_block-IsSized i j p v x w = record {
    plain = w.plain;
    rows = w.rows;
    block = λ i' j' li lj. ground (arith, w.block i' j' li lj);
  }

  to_block-Establishes :
      (s : Matrices A) (i j ii jj : ℕ) (x : Matrices A)
      → i < n
      → j < n
      → ii < b
      → jj < b
      → (dim n b) * (dim n b) ≤ 2 ^ 32
      → Blocking s x
      → Establishes
          (Blocking s)
          (KeepsBlocks s)
          (λ x i j p e. e)
          (λ x x' x'' k k' i j p e. k' i j p (k i j p e))
          (to_block (dim n b) b i j ii jj)
          (λ x'. (x'.block i j).at (ii * b + jj) ≡ due s i j (ii * b + jj))
          x
  to_block-Establishes s i j ii jj x li lj lii ljj small v =
      let here : x.plain.at (index n b i j ii jj) ≡ due s i j (ii * b + jj) =
        ap (λ q. q.at (index n b i j ii jj)) v.same ∙ sym (due-index s i j ii jj ljj) in
      let p = ii * b + jj in
      (
        put_block i j p (due s i j p) x,
        to_block_eq i j ii jj x li lj (all-Fits n b i j ii jj li lj lii ljj small) v.sized
            ∙ ap (λ w. (put_block i j p w x, ok tt)) here,
        record { sized = put_block-IsSized i j p (due s i j p) x v.sized; same = v.same },
        put_block-Keeps s x i j p,
        ground arith,
      )

  convert_to_block_matrix_eq :
      (s : Matrices A)
      → 0 < b
      → convert_to_block_matrix (dim n b) b s
        ≡ (for_from 0 n λ i.
              for_from 0 n
                λ j. for_from 0 b λ ii. for_from 0 b λ jj. to_block (dim n b) b i j ii jj)
            s
  unfolding convert_to_block_matrix
  convert_to_block_matrix_eq s positive =
      let test : (b == 0) ≡ false = ground arith in
      let count : dim n b / b ≡ n = mul-div_cancel n positive in rw (test, count) refl

  -- For a dimension of `n` blocks of dimension `b`, with memory of these sizes and indices that fit in
  -- 32 bits, the conversion to blocks returns, leaves the sizes and the plain matrix alone, and puts
  -- each element of the matrix into its block.
  pub convert_to_block_matrix_lem :
      (s : Matrices A)
      → 0 < b
      → (dim n b) * (dim n b) ≤ 2 ^ 32
      → IsSized n b s
      → (s' : Matrices A) × (convert_to_block_matrix (dim n b) b s ≡ (s', ok tt))
        × IsSized n b s'
        × (s'.plain ≡ s.plain)
        × ((i j ii jj : ℕ)
            → i < n
            → j < n
            → ii < b
            → jj < b
            → (s'.block i j).at (ii * b + jj) ≡ s.plain.at (index n b i j ii jj))
  convert_to_block_matrix_lem s positive small v =
      let (s', e, base, keeps, good) =
        loops-Establishes (Blocking s) (KeepsBlocks s) (λ x i j p e. e)
          (λ x x' x'' k k' i j p e. k' i j p (k i j p e))
          (λ i j ii jj x. (x.block i j).at (ii * b + jj) ≡ due s i j (ii * b + jj)) n b
          (λ i j ii jj. to_block (dim n b) b i j ii jj)
          (λ i j ii jj x x' k e. k i j (ii * b + jj) e)
          (λ i j ii jj x li lj lii ljj base.
            to_block-Establishes s i j ii jj x li lj lii ljj small base)
          s (record { sized = v; same = refl }) in
      (
        s',
        convert_to_block_matrix_eq s positive ∙ e,
        base.sized,
        base.same,
        λ i j ii jj li lj lii ljj. good i li j lj ii lii jj ljj ∙ due-index s i j ii jj ljj,
      )
