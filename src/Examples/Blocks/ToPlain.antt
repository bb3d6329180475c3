-- ===== src/Examples/Blocks/ToPlain.antt =====
-- `convertToPlainMatrix`, and the round trip of both conversions.
use task_r.Base.{
  zero, subst, ℕ, suc, ◌+◌, ◌*◌, ◌/◌, ◌%◌, ◌^◌, ◌<◌, ◌≤◌, ◌≡◌, ◌==◌, arith, refl, sym, ap, ap₂, ◌∙◌,
  ok, false, for_from, loops-Establishes, Establishes,
}
use native.Mathlib.Nat.{
  div-lt_iff_lt-mul, mod-lt, div-add-mod', mod-eq_of_lt, mul-div_cancel, add-mul,
}
use task_r.Examples.Blocks.{
  Slot, Matrices, word32, put, write_plain, read_block, to_plain, convert_to_block_matrix,
  convert_to_plain_matrix,
}
use task_r.Examples.Blocks.Indices.{
  flat-lt, flat-div, flat-mod, dim, index, Fits, all-Fits, IsSized,
}
use task_r.Examples.Blocks.ToBlocks.{convert_to_block_matrix_lem}

place_eq : (n b i j k z : ℕ) → i * b * dim n b + j * b + (k * dim n b + z) ≡ index n b i j k z
place_eq n b i j k z = omega (arith, add-mul (i * b) k (dim n b))

-- Every place of the plain matrix is that of a round.
record Places (n b p : ℕ) : Type 0 where
  i : ℕ
  j : ℕ
  k : ℕ
  z : ℕ
  i_lt : i < n
  j_lt : j < n
  k_lt : k < b
  z_lt : z < b
  place : index n b i j k z ≡ p

square_positive : (d p : ℕ) → p < d * d → 0 < d
square_positive zero p lt = absurd (omega arith)
square_positive (suc d) p lt = omega arith

all-Places : (n b p : ℕ) → 0 < b → p < dim n b * dim n b → Places n b p
all-Places n b p positive lt =
    let d = dim n b in
    let wide : 0 < d = square_positive d p lt in
    let row : p / d < d = (div-lt_iff_lt-mul wide).1 lt in
    let col : p % d < d = mod-lt p wide in
    record {
      i = p / d / b;
      j = p % d / b;
      k = p / d % b;
      z = p % d % b;
      i_lt = (div-lt_iff_lt-mul positive).1 row;
      j_lt = (div-lt_iff_lt-mul positive).1 col;
      k_lt = mod-lt (p / d) positive;
      z_lt = mod-lt (p % d) positive;
      place =
          ap₂ (λ q r. q * d + r) (div-add-mod' (p / d) b) (div-add-mod' (p % d) b)
          ∙ div-add-mod' p d;
    }

module _ {A : Type 0} (n b : ℕ) where
  to_plain_eq :
      (i j k z : ℕ) (s : Matrices A)
      → i < n
      → j < n
      → Fits n b i j k z
      → dim n b * dim n b ≤ 2 ^ 32
      → IsSized n b s
      → to_plain (dim n b) b i j k z s ≡ (
        record s { plain = put (index n b i j k z) ((s.block i j).at (k * b + z)) s.plain },
        ok tt,
      )
  unfolding to_plain read_block write_plain word32
  to_plain_eq i j k z s li lj f small v =
      let sum = place_eq n b i j k z in
      let lt = f.place_lt in
      let offset : word32 (i * b * dim n b + j * b) ≡ i * b * dim n b + j * b =
        mod-eq_of_lt (omega arith) in
      let rest : word32 (k * dim n b + z) ≡ k * dim n b + z = mod-eq_of_lt (omega arith) in
      rw (f.inner, offset, rest, sum)
        (ground (arith, v.plain, v.rows, v.block i j, f.place_lt, f.inner_lt))

  -- What belongs at a place of the plain matrix of the blocks of another.
  abbrev owed : Matrices A → ℕ → A
  owed s p =
      (s.block (p / dim n b / b) (p % dim n b / b)).at (p / dim n b % b * b + p % dim n b % b)

  owed-index :
      (s : Matrices A) (i j k z : ℕ)
      → j < n
      → k < b
      → z < b
      → owed s (index n b i j k z) ≡ (s.block i j).at (k * b + z)
  owed-index s i j k z lj lk lz =
      let c = flat-lt j z n b lj lz in
      ap₂ (λ q r. (s.block (q / b) (r / b)).at (q % b * b + r % b))
        (flat-div (i * b + k) (j * b + z) (dim n b) c)
        (flat-mod (i * b + k) (j * b + z) (dim n b) c)
      ∙ (λ x.
          (s.block (flat-div i k b lk x) (flat-div j z b lz x)).at
            (flat-mod i k b lk x * b + flat-mod j z b lz x))

  record Plaining (s x : Matrices A) : Type 0 where
    sized : IsSized n b x
    same : x.block ≡ s.block

  abbrev KeepsPlain : Matrices A → Matrices A → Matrices A → Type 0
  KeepsPlain s x x' = (p : ℕ) → x.plain.at p ≡ owed s p → x'.plain.at p ≡ owed s p

  to_plain-Establishes :
      (s : Matrices A) (i j k z : ℕ) (x : Matrices A)
      → i < n
      → j < n
      → k < b
      → z < b
      → dim n b * dim n b ≤ 2 ^ 32
      → Plaining s x
      → Establishes
          (Plaining s)
          (KeepsPlain s)
          (λ x p e. e)
          (λ x x' x'' k k' p e. k' p (k p e))
          (to_plain (dim n b) b i j k z)
          (λ x'. x'.plain.at (index n b i j k z) ≡ owed s (index n b i j k z))
          x
  to_plain-Establishes s i j k z x li lj lk lz small v =
      let here : (x.block i j).at (k * b + z) ≡ owed s (index n b i j k z) =
        ap (λ q. (q i j).at (k * b + z)) v.same ∙ sym (owed-index s i j k z lj lk lz) in
      let p = index n b i j k z in
      (
        record x { plain = put p (owed s p) x.plain },
        to_plain_eq i j k z x li lj (all-Fits n b i j k z li lj lk lz small) small v.sized
            ∙ ap (λ w. (record x { plain = put p w x.plain }, ok tt)) here,
        record {
          sized = record { plain = v.sized.plain; rows = v.sized.rows; block = v.sized.block };
          same = v.same;
        },
        λ q e. ground arith,
        ground arith,
      )

  convert_to_plain_matrix_eq :
      (s : Matrices A)
      → 0 < b
      → convert_to_plain_matrix (dim n b) b s
        ≡ (for_from 0 n λ i.
              for_from 0 n λ j. for_from 0 b λ k. for_from 0 b λ z. to_plain (dim n b) b i j k z)
            s
  unfolding convert_to_plain_matrix
  convert_to_plain_matrix_eq s positive =
      let test : (b == 0) ≡ false = ground arith in
      let count : dim n b / b ≡ n = mul-div_cancel n positive in rw (test, count) refl

  -- With the same sizes, the conversion to a plain matrix returns, leaves the blocks alone, and puts each
  -- element of a block into its place.
  convert_to_plain_matrix_lem :
      (s : Matrices A)
      → 0 < b
      → dim n b * dim n b ≤ 2 ^ 32
      → IsSized n b s
      → (s' : Matrices A) × (convert_to_plain_matrix (dim n b) b s ≡ (s', ok tt))
        × (s'.block ≡ s.block)
        × ((i j k z : ℕ)
            → i < n
            → j < n
            → k < b
            → z < b
            → s'.plain.at (index n b i j k z) ≡ (s.block i j).at (k * b + z))
  convert_to_plain_matrix_lem s positive small v =
      let (s', e, base, keeps, good) =
        loops-Establishes (Plaining s) (KeepsPlain s) (λ x p e. e)
          (λ x x' x'' k k' p e. k' p (k p e))
          (λ i j k z x. x.plain.at (index n b i j k z) ≡ owed s (index n b i j k z)) n b
          (λ i j k z. to_plain (dim n b) b i j k z)
          (λ i j k z x x' keep e. keep (index n b i j k z) e)
          (λ i j k z x li lj lk lz base. to_plain-Establishes s i j k z x li lj lk lz small base) s
          (record { sized = v; same = refl }) in
      (
        s',
        convert_to_plain_matrix_eq s positive ∙ e,
        base.same,
        λ i j k z li lj lk lz. good i li j lj k lk z lz ∙ owed-index s i j k z lj lk lz,
      )

  -- For a dimension of `n` blocks of dimension `b`, with memory of these sizes and indices that fit in 32
  -- bits, a matrix that is converted to blocks and then to a plain matrix, in any memory
  -- of its size, is the matrix again: both conversions return, and all elements agree.
  pub convert_back :
      (s : Matrices A) (other : Slot A)
      → 0 < b
      → dim n b * dim n b ≤ 2 ^ 32
      → IsSized n b s
      → other.size ≡ dim n b * dim n b
      → (s1 s2 : Matrices A) × (convert_to_block_matrix (dim n b) b s ≡ (s1, ok tt))
        × (convert_to_plain_matrix (dim n b) b (record s1 { plain = other }) ≡ (s2, ok tt))
        × ((p : ℕ) → p < s.plain.size → s2.plain.at p ≡ s.plain.at p)
  convert_back s other positive small v size =
      let (s1, e, v1, same, blocked) = convert_to_block_matrix_lem n b s positive small v in
      let (s2, f, kept, plain) =
        convert_to_plain_matrix_lem (record s1 { plain = other }) positive small
          (record { plain = size; rows = v1.rows; block = v1.block }) in
      (
        s1,
        s2,
        e,
        f,
        λ p lt.
            let w = all-Places n b p positive (omega (arith, v.plain)) in
            subst (λ q. s2.plain.at q ≡ s.plain.at q) w.place
              (plain w.i w.j w.k w.z w.i_lt w.j_lt w.k_lt w.z_lt
                ∙ blocked w.i w.j w.k w.z w.i_lt w.j_lt w.k_lt w.z_lt),
      )
