-- ===== src/Examples/Blocks.antt =====
-- examples/cholesky/utils.hpp: a square matrix by rows, and by square blocks. `std::uint32_t` indices
-- wrap around at 2 ^ 32; the value of a sum or product of them does not depend on where it wraps.
pub mod Indices
pub mod ToBlocks
pub mod ToPlain
pub mod Overrun
use task_r.Base.{
  ℕ, ◌+◌, ◌*◌, ◌/◌, ◌%◌, ◌^◌, ◌==◌, ◌&&◌, if◌then◌else◌, Bool, M, ok, throw, undefined, pure, fault,
  fail, get, modify, ◌>>=◌, ◌>>◌, for_from, ltb, out_of_range,
}

unfoldable pub word32 : ℕ → ℕ
word32 n = n % 2 ^ 32

-- Allocated memory: its number of elements, and the elements.
pub record Slot (A : Type 0) : Type 0 where
  pub size : ℕ
  pub at : ℕ → A

-- The plain matrix, and the vector of `rows` vectors of `rows` blocks.
pub record Matrices (A : Type 0) : Type 0 where
  pub plain : Slot A
  pub rows : ℕ
  pub block : ℕ → ℕ → Slot A

module _ {A : Type 0} where
  abbrev pub put : ℕ → A → Slot A → Slot A
  put p v slot = record slot { at = λ q. if p == q then v else slot.at q }

  -- `plain[p]`, which must be inside the slot, and its assignment.
  unfoldable pub read_plain : ℕ → M (Matrices A) A
  read_plain p s = if ltb p s.plain.size then (s, ok (s.plain.at p)) else (s, undefined)

  unfoldable pub write_plain : ℕ → A → M (Matrices A) (Unit {0})
  write_plain p v s =
      if ltb p s.plain.size then (record s { plain = put p v s.plain }, ok tt) else (s, undefined)

  -- `dst[i][j]`, and `src.at(i).at(j)`, which throws.
  abbrev pub has_block : ℕ → ℕ → Matrices A → Bool
  has_block i j s = ltb i s.rows && ltb j s.rows

  abbrev pub put_block : ℕ → ℕ → ℕ → A → Matrices A → Matrices A
  put_block i j p v s = record s {
    block = λ i' j'. if i == i' && j == j' then put p v (s.block i' j') else s.block i' j';
  }

  unfoldable pub write_block : ℕ → ℕ → ℕ → A → M (Matrices A) (Unit {0})
  write_block i j p v s =
      if has_block i j s && ltb p (s.block i j).size
      then (put_block i j p v s, ok tt)
      else (s, undefined)

  unfoldable pub read_block : ℕ → ℕ → ℕ → M (Matrices A) A
  read_block i j p s =
      if has_block i j s
      then if ltb p (s.block i j).size then (s, ok ((s.block i j).at p)) else (s, undefined)
      else (s, throw out_of_range)

  -- The innermost statements of the two conversions.
  unfoldable pub to_block : (dimension block_size i j ii jj : ℕ) → M (Matrices A) (Unit {0})
  unfolding word32 read_plain write_block
  to_block dimension block_size i j ii jj = do
    let global_row = word32 (i * block_size + ii)
    let global_col = word32 (j * block_size + jj)
    v ← read_plain (word32 (global_row * dimension + global_col))
    write_block i j (word32 (ii * block_size + jj)) v

  unfoldable pub to_plain : (dimension block_size i j k z : ℕ) → M (Matrices A) (Unit {0})
  unfolding word32 read_block write_plain
  to_plain dimension block_size i j k z = do
    let offset = word32 (i * block_size * dimension + j * block_size)
    v ← read_block i j (word32 (k * block_size + z))
    write_plain (offset + word32 (k * dimension + z)) v

  -- `convertToBlockMatrix(src, srcDimensionSize, blockDimensionSize, dst)`; a division by zero is
  -- undefined.
  unfoldable pub convert_to_block_matrix : (dimension block_size : ℕ) → M (Matrices A) (Unit {0})
  unfolding to_block
  convert_to_block_matrix dimension block_size =
      if block_size == 0
      then fault
      else for_from 0 (dimension / block_size) λ i. for_from 0 (dimension / block_size) λ j.
        for_from 0 block_size
          λ ii. for_from 0 block_size λ jj. to_block dimension block_size i j ii jj

  -- `convertToPlainMatrix(dst, dstDimensionSize, blockDimensionSize, src)`.
  unfoldable pub convert_to_plain_matrix : (dimension block_size : ℕ) → M (Matrices A) (Unit {0})
  unfolding to_plain
  convert_to_plain_matrix dimension block_size =
      if block_size == 0
      then fault
      else for_from 0 (dimension / block_size) λ i. for_from 0 (dimension / block_size) λ j.
        for_from 0 block_size λ k. for_from 0 block_size λ z. to_plain dimension block_size i j k z
