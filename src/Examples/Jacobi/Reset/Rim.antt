-- ===== src/Examples/Jacobi/Reset/Rim.antt =====
-- The cells that `reset` clears are those beyond a boundary.
use task_r.Base.{ℕ, ◌+◌, ◌-◌, ◌*◌, ◌≤◌, ◌<◌, ◌≡◌, arith, refl, ap, true}
use task_r.Examples.Jacobi.{D3, Sizes, CommType}
use task_r.Examples.Jacobi.Numbers.{IsInside}
use task_r.Examples.Jacobi.Grid.{Bounds, cell}
use task_r.Examples.Jacobi.Grid.Cells.{IsPlaced, InBounds, cell-injective}
use task_r.Examples.Jacobi.Halo.{Face, face_x0, face_x1, face_y0, face_y1, face_z0, face_z1, index}
use task_r.Examples.Jacobi.Reset.{is_boundary, box, rim_ranges, rim}

-- A position is beyond the boundary at a face.
abbrev pub Beyond : (depth : ℕ) → (ps : D3) → Face → (k j i : ℕ) → Type 0
Beyond depth ps face_x0 k j i = i < depth
Beyond depth ps face_x1 k j i = ps.x + depth ≤ i
Beyond depth ps face_y0 k j i = j < depth
Beyond depth ps face_y1 k j i = ps.y + depth ≤ j
Beyond depth ps face_z0 k j i = k < depth
Beyond depth ps face_z1 k j i = ps.z + depth ≤ k

-- It is beyond the boundary at one of the faces that are boundaries.
abbrev pub OnRim : (depth : ℕ) → (ps : D3) → (Face → CommType) → (k j i : ℕ) → Type 0
OnRim depth ps kind k j i = (f : Face) × (is_boundary (kind f) ≡ true) × Beyond depth ps f k j i

module _ (sz : Sizes) (depth : ℕ) (b : Bounds) (placed : IsPlaced sz.fs depth b)
    (around : sz.fs
      ≡ record { x = sz.ps.x + 2 * depth; y = sz.ps.y + 2 * depth; z = sz.ps.z + 2 * depth }) where
  pub rim-IsInside :
      (f : Face) (i j d : ℕ)
      → InBounds (rim_ranges depth b f) i j d
      → IsInside sz.fs (rim depth sz.ps f i j d)
  rim-IsInside face_x0 i j d h = omega (arith, placed.x0, placed.x1, placed.y1, placed.z1)
  rim-IsInside face_x1 i j d h =
      omega (arith, ap (λ (w : D3). w.x) around, placed.x1, placed.y1, placed.z1)
  rim-IsInside face_y0 i j d h = omega (arith, placed.y0, placed.x1, placed.y1, placed.z1)
  rim-IsInside face_y1 i j d h =
      omega (arith, ap (λ (w : D3). w.y) around, placed.x1, placed.y1, placed.z1)
  rim-IsInside face_z0 i j d h = omega (arith, placed.x0, placed.x1, placed.y1, placed.z1)
  rim-IsInside face_z1 i j d h =
      omega (arith, ap (λ (w : D3). w.z) around, placed.x1, placed.y1, placed.z1)

  -- A cell of the box that is beyond a boundary is cleared in one of the rounds.
  pub rim_round :
      (f : Face) (k j i : ℕ)
      → InBounds (box depth b) k j i
      → Beyond depth sz.ps f k j i
      → (a : ℕ) × (c : ℕ) × (d : ℕ) × InBounds (rim_ranges depth b f) a c d
        × (index sz.fs (rim depth sz.ps f a c d) ≡ cell sz.fs k j i)
  rim_round face_x0 k j i h beyond = (j, k, i, omega arith, refl)
  rim_round face_y0 k j i h beyond = (i, k, j, omega arith, refl)
  rim_round face_z0 k j i h beyond = (i, j, k, omega arith, refl)
  rim_round face_x1 k j i h beyond =
      let e : sz.ps.x + depth + (i - (sz.ps.x + depth)) ≡ i = omega arith in
      (
        j,
        k,
        i - (sz.ps.x + depth),
        omega (arith, ap (λ (w : D3). w.x) around, placed.x1),
        ap (λ n. cell sz.fs k j n) e,
      )
  rim_round face_y1 k j i h beyond =
      let e : sz.ps.y + depth + (j - (sz.ps.y + depth)) ≡ j = omega arith in
      (
        i,
        k,
        j - (sz.ps.y + depth),
        omega (arith, ap (λ (w : D3). w.y) around, placed.y1),
        ap (λ n. cell sz.fs k n i) e,
      )
  rim_round face_z1 k j i h beyond =
      let e : sz.ps.z + depth + (k - (sz.ps.z + depth)) ≡ k = omega arith in
      (
        i,
        j,
        k - (sz.ps.z + depth),
        omega (arith, ap (λ (w : D3). w.z) around, placed.z1),
        ap (λ n. cell sz.fs n j i) e,
      )

  -- And a cleared cell is beyond the boundary.
  pub rim-Beyond :
      (f : Face) (a c d k j i : ℕ)
      → InBounds (rim_ranges depth b f) a c d
      → j < sz.fs.y
      → i < sz.fs.x
      → cell sz.fs k j i ≡ index sz.fs (rim depth sz.ps f a c d)
      → Beyond depth sz.ps f k j i
  rim-Beyond f a c d k j i h lj li e =
      let q = rim depth sz.ps f a c d in
      let inside = rim-IsInside f a c d h in
      beyond_of f a c d k j i h (cell-injective sz.fs k j i q.z q.y q.x lj li inside.1 inside.2 e)
    where
      beyond_of :
          (f : Face) (a c d k j i : ℕ)
          → InBounds (rim_ranges depth b f) a c d
          → (let q = rim depth sz.ps f a c d in (k ≡ q.z) × (j ≡ q.y) × (i ≡ q.x))
          → Beyond depth sz.ps f k j i
      beyond_of face_x0 a c d k j i h e = omega arith
      beyond_of _ a c d k j i h e = omega arith
