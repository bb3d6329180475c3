-- ===== src/Examples/Blocks/Indices.antt =====
-- The indices of the rounds of both conversions, for a dimension that is a multiple of the block's.
use task_r.Base.{ℕ, ◌+◌, ◌*◌, ◌/◌, ◌%◌, ◌^◌, ◌<◌, ◌≤◌, ◌≡◌, arith, ◌∙◌}
use native.Mathlib.Nat.{
  mul-le-mul_right, mul-le-mul, suc-mul, mul-add-div_right, mul-add-mod_self_right, div-eq_of_lt,
  mod-eq_of_lt,
}
use task_r.Examples.Blocks.{Matrices, word32}

-- The index of row `i` and column `r` in rows of `b`.
pub flat-lt : (i r a b : ℕ) → i < a → r < b → i * b + r < a * b
flat-lt i r a b lt lt' = omega (arith, mul-le-mul_right b (lt), suc-mul i b)

pub flat-div : (i r b : ℕ) → r < b → (i * b + r) / b ≡ i
flat-div i r b lt =
    let positive : 0 < b = omega arith in
    omega (arith, mul-add-div_right positive i r, div-eq_of_lt lt)

pub flat-mod : (i r b : ℕ) → r < b → (i * b + r) % b ≡ r
flat-mod i r b lt = mul-add-mod_self_right i b r ∙ mod-eq_of_lt lt

module _ (n b : ℕ) where
  -- The dimension of the matrix, with `n` blocks of dimension `b` in each direction.
  abbrev pub dim : ℕ
  dim = n * b

  abbrev pub index : (i j ii jj : ℕ) → ℕ
  index i j ii jj = (i * b + ii) * dim + (j * b + jj)

  -- The indices of a round are inside the two memories, and in 32 bits.
  pub record Fits (i j ii jj : ℕ) : Type 0 where
    pub row : word32 (i * b + ii) ≡ i * b + ii
    pub col : word32 (j * b + jj) ≡ j * b + jj
    pub place : word32 (index i j ii jj) ≡ index i j ii jj
    pub place_lt : index i j ii jj < dim * dim
    pub inner : word32 (ii * b + jj) ≡ ii * b + jj
    pub inner_lt : ii * b + jj < b * b

  dim-le : (i : ℕ) → i < n → b ≤ dim
  dim-le i lt = omega (arith, mul-le-mul_right b (lt), suc-mul i b)

  pub all-Fits :
      (i j ii jj : ℕ) → i < n → j < n → ii < b → jj < b → dim * dim ≤ 2 ^ 32 → Fits i j ii jj
  unfolding word32
  all-Fits i j ii jj li lj lii ljj small =
      let r = flat-lt i ii n b li lii in
      let c = flat-lt j jj n b lj ljj in
      let p = flat-lt (i * b + ii) (j * b + jj) dim dim r c in
      let q = flat-lt ii jj b b lii ljj in
      let whole : dim ≤ dim * dim =
        omega (arith, mul-le-mul_right dim (r), suc-mul (i * b + ii) dim) in
      let block_le : b * b ≤ dim * dim = mul-le-mul (dim-le i li) (dim-le i li) in
      record {
        row = mod-eq_of_lt (omega arith);
        col = mod-eq_of_lt (omega arith);
        place = mod-eq_of_lt (omega arith);
        place_lt = p;
        inner = mod-eq_of_lt (omega arith);
        inner_lt = q;
      }

  module _ {A : Type 0} where
    -- The matrices with their sizes, where one of the two is not written.
    pub record IsSized (s : Matrices A) : Type 0 where
      pub plain : s.plain.size ≡ dim * dim
      pub rows : s.rows ≡ n
      pub block : (i j : ℕ) → i < n → j < n → (s.block i j).size ≡ b * b
