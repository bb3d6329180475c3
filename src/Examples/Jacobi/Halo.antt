-- ===== src/Examples/Jacobi/Halo.antt =====
-- examples/jacobi3d/source/grid.cpp: `pack` and `unpack`, which take the cells at the faces of a subgrid
-- out of the grid and put those of its neighbours in other processes beside it. A message is the
-- memory that a channel carries from a pack buffer to an unpack buffer.
pub mod Places
pub mod Positions
pub mod Pack
pub mod Unpack
pub mod Exchange
pub mod Global
use task_r.Base.{
  ℕ, suc, ◌+◌, ◌-◌, ◌*◌, ◌==◌, if◌then◌else◌, Bool, true, false, List, [], ◌∷◌, M, ok, undefined,
  modify, when, ◌>>◌, each_of, ltb,
}
use task_r.Examples.Blocks.{Slot, put}
use task_r.Examples.Jacobi.{D3, CommType, remote, local, boundary, for_positions}
use task_r.Examples.Jacobi.Grid.{
  Buffer, Fields, Bounds, cell, written_by, buffer, with_buffer, load, store,
}

pub data Face : Type 0 where
  face_x0 : Face
  face_x1 : Face
  face_y0 : Face
  face_y1 : Face
  face_z0 : Face
  face_z1 : Face

abbrev pub faces : List Face
faces = face_x0 ∷ face_x1 ∷ face_y0 ∷ face_y1 ∷ face_z0 ∷ face_z1 ∷ []

abbrev pub code : Face → ℕ
code face_x0 = 0
code face_x1 = 1
code face_y0 = 2
code face_y1 = 3
code face_z0 = 4
code face_z1 = 5

abbrev pub is_remote : CommType → Bool
is_remote remote = true
is_remote local = false
is_remote boundary = false

-- The counts of the three loops for a face.
abbrev pub extent : (depth : ℕ) → (ls : D3) → Face → D3
extent depth ls face_x0 = record { z = depth; y = ls.z; x = ls.y }
extent depth ls face_x1 = record { z = depth; y = ls.z; x = ls.y }
extent depth ls face_y0 = record { z = depth; y = ls.z; x = ls.x }
extent depth ls face_y1 = record { z = depth; y = ls.z; x = ls.x }
extent depth ls face_z0 = record { z = depth; y = ls.y; x = ls.x }
extent depth ls face_z1 = record { z = depth; y = ls.y; x = ls.x }

-- The cell that `pack` reads in a round of the three loops, and the one that `unpack` writes.
abbrev pub edge : (depth : ℕ) → Bounds → Face → (d r c : ℕ) → D3
edge depth b face_x0 d z y = record { z = b.start.z + z; y = b.start.y + y; x = b.start.x + d }
edge depth b face_x1 d z y = record {
  z = b.start.z + z;
  y = b.start.y + y;
  x = b.finish.x - depth + d;
}
edge depth b face_y0 d z x = record { z = b.start.z + z; y = b.start.y + d; x = b.start.x + x }
edge depth b face_y1 d z x = record {
  z = b.start.z + z;
  y = b.finish.y - depth + d;
  x = b.start.x + x;
}
edge depth b face_z0 d y x = record { z = b.start.z + d; y = b.start.y + y; x = b.start.x + x }
edge depth b face_z1 d y x = record {
  z = b.finish.z - depth + d;
  y = b.start.y + y;
  x = b.start.x + x;
}

abbrev pub ghost : Bounds → Face → (d r c : ℕ) → D3
ghost b face_x0 d z y = record { z = b.start.z + z; y = b.start.y + y; x = d }
ghost b face_x1 d z y = record { z = b.start.z + z; y = b.start.y + y; x = b.finish.x + d }
ghost b face_y0 d z x = record { z = b.start.z + z; y = d; x = b.start.x + x }
ghost b face_y1 d z x = record { z = b.start.z + z; y = b.finish.y + d; x = b.start.x + x }
ghost b face_z0 d y x = record { z = d; y = b.start.y + y; x = b.start.x + x }
ghost b face_z1 d y x = record { z = b.finish.z + d; y = b.start.y + y; x = b.start.x + x }

abbrev pub index : D3 → D3 → ℕ
index fs p = cell fs p.z p.y p.x

-- The grids, the pack or unpack buffer of each face, `bufferIdx`, and how many tokens were popped from
-- the channel of each face.
pub record Packing (A : Type 0) : Type 0 where
  pub fields : Fields A
  pub slot : Face → Slot A
  pub buffer_idx : ℕ
  pub popped : Face → ℕ

module _ {A : Type 0} where
  abbrev pub put_slot : Face → ℕ → A → (Face → Slot A) → Face → Slot A
  put_slot f n v slot g = if code f == code g then put n v (slot g) else slot g

  -- `bufferPtr[bufferIdx++] = localUn[p]`, inside both memories.
  unfoldable pub pack_cell : Buffer → Face → ℕ → M (Packing A) (Unit {0})
  pack_cell b f p s =
      if ltb p (buffer b s.fields).size
      then if ltb s.buffer_idx (s.slot f).size
        then (
          record s {
            slot = put_slot f s.buffer_idx ((buffer b s.fields).at p) s.slot;
            buffer_idx = suc s.buffer_idx;
          },
          ok tt,
        )
        else (s, undefined)
      else (s, undefined)

  -- `localU[p] = unpackBuffer[bufferIdx++]`.
  unfoldable pub unpack_cell : Buffer → Face → ℕ → M (Packing A) (Unit {0})
  unpack_cell b f p s =
      if ltb s.buffer_idx (s.slot f).size
      then if ltb p (buffer b s.fields).size
        then (
          record s {
            fields =
                with_buffer b (put p ((s.slot f).at s.buffer_idx) (buffer b s.fields)) s.fields;
            buffer_idx = suc s.buffer_idx;
          },
          ok tt,
        )
        else (s, undefined)
      else (s, undefined)

  abbrev pub restart : M (Packing A) (Unit {0})
  restart = modify λ s. record s { buffer_idx = 0 }

  abbrev pub pop : Face → M (Packing A) (Unit {0})
  pop f =
      modify
        λ s. record s { popped = λ g. if code f == code g then suc (s.popped g) else s.popped g }

  module _ (fs : D3) (depth : ℕ) (ls : D3) (b : Bounds) (it : ℕ) where
    unfoldable pub pack_face : Face → M (Packing A) (Unit {0})
    pack_face f =
        restart
        >> for_positions (extent depth ls f)
            λ d r c. pack_cell (written_by it) f (index fs (edge depth b f d r c))

    unfoldable pub unpack_face : Face → M (Packing A) (Unit {0})
    unpack_face f =
        restart
        >> (for_positions (extent depth ls f)
              (λ d r c. unpack_cell (written_by it) f (index fs (ghost b f d r c)))
            >> pop f)

    -- `pack(currentTask, lx, ly, lz, it)` and `unpack(currentTask, lx, ly, lz, it)`.
    unfoldable pub pack : (Face → CommType) → M (Packing A) (Unit {0})
    pack kind = each_of faces λ f. when (is_remote (kind f)) (pack_face f)

    unfoldable pub unpack : (Face → CommType) → M (Packing A) (Unit {0})
    unpack kind = each_of faces λ f. when (is_remote (kind f)) (unpack_face f)
