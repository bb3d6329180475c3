-- ===== src/Examples/Jacobi/Reset.antt =====
-- examples/jacobi3d/source/grid.cpp: `reset`, which fills both grids around a subgrid, and clears the
-- cells beyond the boundaries of the whole grid.
pub mod Stores
pub mod Rim
pub mod Cleared
use task_r.Base.{ℕ, ◌+◌, ◌-◌, ◌*◌, Bool, true, false, List, [], ◌∷◌, M, when, ◌>>◌, ◌>>=◌, each_of}
use task_r.Examples.Jacobi.{D3, CommType, remote, local, boundary}
use task_r.Examples.Jacobi.Grid.{Buffer, grid_u, grid_un, Fields, Bounds, cell, store, for_ranges}
use task_r.Examples.Jacobi.Halo.{Face, face_x0, face_x1, face_y0, face_y1, face_z0, face_z1, index}

abbrev pub is_boundary : CommType → Bool
is_boundary remote = false
is_boundary local = false
is_boundary boundary = true

-- The faces in the order of the code.
abbrev pub reset_faces : List Face
reset_faces = face_x0 ∷ face_y0 ∷ face_z0 ∷ face_x1 ∷ face_y1 ∷ face_z1 ∷ []

-- The subgrid and the cells up to the depth around it.
abbrev pub box : (depth : ℕ) → Bounds → Bounds
box depth b = record {
  start = record { x = b.start.x - depth; y = b.start.y - depth; z = b.start.z - depth };
  finish = record { x = b.finish.x + depth; y = b.finish.y + depth; z = b.finish.z + depth };
}

-- The ranges of the three loops for a face, the outermost as z.
abbrev ranges : (depth first_lo first_hi second_lo second_hi : ℕ) → Bounds
ranges depth first_lo first_hi second_lo second_hi = record {
  start = record { z = first_lo; y = second_lo; x = 0 };
  finish = record { z = first_hi; y = second_hi; x = depth };
}

abbrev pub rim_ranges : (depth : ℕ) → Bounds → Face → Bounds
rim_ranges depth b face_x0 =
    ranges depth (b.start.y - depth) (b.finish.y + depth) (b.start.z - depth) (b.finish.z + depth)
rim_ranges depth b face_x1 =
    ranges depth (b.start.y - depth) (b.finish.y + depth) (b.start.z - depth) (b.finish.z + depth)
rim_ranges depth b face_y0 =
    ranges depth (b.start.x - depth) (b.finish.x + depth) (b.start.z - depth) (b.finish.z + depth)
rim_ranges depth b face_y1 =
    ranges depth (b.start.x - depth) (b.finish.x + depth) (b.start.z - depth) (b.finish.z + depth)
rim_ranges depth b face_z0 =
    ranges depth (b.start.x - depth) (b.finish.x + depth) (b.start.y - depth) (b.finish.y + depth)
rim_ranges depth b face_z1 =
    ranges depth (b.start.x - depth) (b.finish.x + depth) (b.start.y - depth) (b.finish.y + depth)

-- The cell that a round clears.
abbrev pub rim : (depth : ℕ) → (ps : D3) → Face → (i j d : ℕ) → D3
rim depth ps face_x0 i j d = record { z = j; y = i; x = d }
rim depth ps face_x1 i j d = record { z = j; y = i; x = ps.x + depth + d }
rim depth ps face_y0 i j d = record { z = j; y = d; x = i }
rim depth ps face_y1 i j d = record { z = j; y = ps.y + depth + d; x = i }
rim depth ps face_z0 i j d = record { z = d; y = j; x = i }
rim depth ps face_z1 i j d = record { z = ps.z + depth + d; y = j; x = i }

module _ {A : Type 0} (one zero : A) (fs ps : D3) (depth : ℕ) (b : Bounds)
    (kind : Face → CommType) where
  -- The six loops over the boundaries, in one of the grids.
  unfoldable pub clear : Buffer → M (Fields A) (Unit {0})
  clear grid = each_of reset_faces λ f.
      when (is_boundary (kind f)) (
        for_ranges (rim_ranges depth b f)
          λ i j d. store grid (index fs (rim depth ps f i j d)) zero)

  unfoldable pub fill : (k j i : ℕ) → M (Fields A) (Unit {0})
  fill k j i = store grid_un (cell fs k j i) one >> store grid_u (cell fs k j i) one

  -- `reset(currentTask, lx, ly, lz)` of the subgrid with these bounds.
  unfoldable pub reset : M (Fields A) (Unit {0})
  reset = for_ranges (box depth b) fill >> (clear grid_u >> clear grid_un)
