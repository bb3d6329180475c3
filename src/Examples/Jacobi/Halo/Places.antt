-- ===== src/Examples/Jacobi/Halo/Places.antt =====
-- The cells at and beside the faces of a subgrid are inside the grid, and different rounds of `unpack`
-- write different cells.
use task_r.Base.{All, ℕ, ◌*◌, ◌≡◌, arith}
use task_r.Examples.Blocks.{Slot}
use task_r.Examples.Jacobi.{D3}
use task_r.Examples.Jacobi.Numbers.{IsInside, place}
use task_r.Examples.Jacobi.Grid.{bounds}
use task_r.Examples.Jacobi.Grid.Cells.{IsPlaced, cell-injective}
use task_r.Examples.Jacobi.Halo.{
  Face, faces, face_x0, face_x1, face_y0, face_y1, face_z0, face_z1, extent, edge, ghost, index,
}

abbrev pub at_position : (z y x : ℕ) → D3
at_position z y x = record { z = z; y = y; x = x }

-- The number of elements of the buffer of a face.
abbrev pub room : D3 → ℕ
room t = t.z * t.y * t.x

-- What holds for each face of the list of `pack` and `unpack`.
pub at_face : (P : Face → Type 0) → All P faces → (f : Face) → P f
at_face P h face_x0 = h.0
at_face P h face_x1 = h.1.0
at_face P h face_y0 = h.1.1.0
at_face P h face_y1 = h.1.1.1.0
at_face P h face_z0 = h.1.1.1.1.0
at_face P h face_z1 = h.1.1.1.1.1.0

-- Cells with the same coordinates.
abbrev pub SameCell : D3 → D3 → Type 0
SameCell p q = (p.z ≡ q.z) × (p.y ≡ q.y) × (p.x ≡ q.x)

same_at :
    {A : Type 0} (slot : Slot A) (t : D3) (d r c d' r' c' : ℕ)
    → d ≡ d'
    → r ≡ r'
    → c ≡ c'
    → slot.at (place t d r c) ≡ slot.at (place t d' r' c')
same_at slot t d r c d' r' c' e e' e'' = λ i. slot.at (place t (e i) (e' i) (e'' i))

module _ (fs : D3) (depth : ℕ) (ls l : D3) (placed : IsPlaced fs depth (bounds depth ls l)) where
  pub edge-IsInside :
      (f : Face) (d r c : ℕ)
      → IsInside (extent depth ls f) (at_position d r c)
      → IsInside fs (edge depth (bounds depth ls l) f d r c)
  unfolding bounds
  edge-IsInside face_x0 d r c h = omega (arith, placed.x1, placed.y1, placed.z1)
  edge-IsInside _ d r c h = omega (arith, placed.x1, placed.y1, placed.z1)

  pub ghost-IsInside :
      (f : Face) (d r c : ℕ)
      → IsInside (extent depth ls f) (at_position d r c)
      → IsInside fs (ghost (bounds depth ls l) f d r c)
  unfolding bounds
  ghost-IsInside face_x0 d r c h = omega (arith, placed.x1, placed.y1, placed.z1)
  ghost-IsInside _ d r c h = omega (arith, placed.x1, placed.y1, placed.z1)

  same_round :
      {A : Type 0} (slot : Face → Slot A) (f g : Face) (d r c d' r' c' : ℕ)
      → IsInside (extent depth ls f) (at_position d r c)
      → IsInside (extent depth ls g) (at_position d' r' c')
      → SameCell (ghost (bounds depth ls l) f d r c) (ghost (bounds depth ls l) g d' r' c')
      → (slot f).at (place (extent depth ls f) d r c)
        ≡ (slot g).at (place (extent depth ls g) d' r' c')
  unfolding bounds
  same_round slot face_x0 face_x0 d r c d' r' c' h h' e =
      same_at (slot face_x0) (extent depth ls face_x0) d r c d' r' c' (omega arith) (omega arith)
        (omega arith)
  same_round slot face_x1 face_x1 d r c d' r' c' h h' e =
      same_at (slot face_x1) (extent depth ls face_x1) d r c d' r' c' (omega arith) (omega arith)
        (omega arith)
  same_round slot face_y0 face_y0 d r c d' r' c' h h' e =
      same_at (slot face_y0) (extent depth ls face_y0) d r c d' r' c' (omega arith) (omega arith)
        (omega arith)
  same_round slot face_y1 face_y1 d r c d' r' c' h h' e =
      same_at (slot face_y1) (extent depth ls face_y1) d r c d' r' c' (omega arith) (omega arith)
        (omega arith)
  same_round slot face_z0 face_z0 d r c d' r' c' h h' e =
      same_at (slot face_z0) (extent depth ls face_z0) d r c d' r' c' (omega arith) (omega arith)
        (omega arith)
  same_round slot face_z1 face_z1 d r c d' r' c' h h' e =
      same_at (slot face_z1) (extent depth ls face_z1) d r c d' r' c' (omega arith) (omega arith)
        (omega arith)
  same_round slot _ _ d r c d' r' c' h h' e =
      absurd (omega (arith, placed.x0, placed.y0, placed.z0))

  -- What belongs to a round is told by the cell that it writes.
  pub ghost-same :
      {A : Type 0} (slot : Face → Slot A) (f g : Face) (d r c d' r' c' : ℕ)
      → IsInside (extent depth ls f) (at_position d r c)
      → IsInside (extent depth ls g) (at_position d' r' c')
      → index fs (ghost (bounds depth ls l) f d r c)
        ≡ index fs (ghost (bounds depth ls l) g d' r' c')
      → (slot f).at (place (extent depth ls f) d r c)
        ≡ (slot g).at (place (extent depth ls g) d' r' c')
  ghost-same slot f g d r c d' r' c' h h' e =
      let i = ghost-IsInside f d r c h in
      let i' = ghost-IsInside g d' r' c' h' in
      let b = bounds depth ls l in
      let p = ghost b f d r c in
      let p' = ghost b g d' r' c' in
      same_round slot f g d r c d' r' c' h h'
        (cell-injective fs p.z p.y p.x p'.z p'.y p'.x i.1 i.2 i'.1 i'.2 e)
