-- ===== src/Tests/Blocks.antt =====
-- A matrix of dimension four, by blocks of dimension two.
use task_r.Base.{ℕ, ◌+◌, ◌*◌, ◌<◌, ◌≡◌, refl, ok, undefined, arith}
use task_r.Examples.Blocks.{
  Slot, Matrices, word32, convert_to_block_matrix, convert_to_plain_matrix,
}
use task_r.Examples.Blocks.Indices.{index, IsSized}
use task_r.Examples.Blocks.ToBlocks.{convert_to_block_matrix_lem}
use task_r.Examples.Blocks.ToPlain.{convert_back}
use task_r.Examples.Blocks.Overrun.{conversion_overruns}

abbrev numbers : ℕ → Slot ℕ
numbers n = record { size = n; at = λ p. p }

abbrev four : Matrices ℕ
four = record { plain = numbers 16; rows = 2; block = λ i j. numbers 4 }

four-IsSized : IsSized 2 2 four
four-IsSized = record { plain = refl; rows = refl; block = λ i j li lj. refl }

-- The element in row 2 and column 1 is the second of block (1, 0).
moved : ((convert_to_block_matrix 4 2 four).0.block 1 0).at 1 ≡ 9
unfolding convert_to_block_matrix word32
moved = refl

convert_to_block_matrix_lem_example :
    (s' : Matrices ℕ) × (convert_to_block_matrix 4 2 four ≡ (s', ok tt))
    × IsSized 2 2 s'
    × (s'.plain ≡ four.plain)
    × ((i j ii jj : ℕ)
        → i < 2
        → j < 2
        → ii < 2
        → jj < 2
        → (s'.block i j).at (ii * 2 + jj) ≡ index 2 2 i j ii jj)
convert_to_block_matrix_lem_example =
    convert_to_block_matrix_lem 2 2 four (omega arith) (omega arith) four-IsSized

convert_back_example :
    (s1 s2 : Matrices ℕ) × (convert_to_block_matrix 4 2 four ≡ (s1, ok tt))
    × (convert_to_plain_matrix 4 2 (record s1 { plain = numbers 16 }) ≡ (s2, ok tt))
    × ((p : ℕ) → p < 16 → s2.plain.at p ≡ p)
convert_back_example =
    convert_back 2 2 four (numbers 16) (omega arith) (omega arith) four-IsSized refl

-- Dimension 10 in 4 blocks: the blocks have dimension 2, and 5 fit into a row.
conversion_overruns_example :
    (convert_to_block_matrix 10 2
      (record { plain = numbers 100; rows = 4; block = λ i j. numbers 4 })).1
    ≡ undefined
conversion_overruns_example =
    conversion_overruns 4 10 2 (record { plain = numbers 100; rows = 4; block = λ i j. numbers 4 })
      (omega arith) refl (omega arith)
