-- ===== src/Examples/Jacobi/Grid.antt =====
-- examples/jacobi3d/source/grid.cpp: the two grids of a process, `U` and `Un`, and `compute`, which
-- fills the cells of a subgrid in the one from the other. A number of the grid is a value of any type:
-- its addition, and its multiplication by `invCoeff`, are parameters. Indices do not wrap around.
pub mod Cells
pub mod Ranges
pub mod Tiles
pub mod Memory
pub mod Stencil
pub mod Compute
pub mod Global
pub mod AnyOrder
use task_r.Base.{
  ℕ, zero, suc, ◌+◌, ◌-◌, ◌*◌, ◌%◌, ◌==◌, if◌then◌else◌, M, ok, undefined, pure, fault, spin, ◌>>=◌,
  ◌>>◌, for_from, ltb,
}
use task_r.Examples.Blocks.{Slot, put}
use task_r.Examples.Jacobi.{D3}

pub data Buffer : Type 0 where
  grid_u : Buffer
  grid_un : Buffer

pub record Fields (A : Type 0) : Type 0 where
  pub u : Slot A
  pub un : Slot A

-- `lStart` and `lEnd`.
pub record Bounds : Type 0 where
  pub start : D3
  pub finish : D3

unfoldable pub bounds : (depth : ℕ) → (ls l : D3) → Bounds
bounds depth ls l =
    let x = ls.x * l.x + depth in
    let y = ls.y * l.y + depth in
    let z = ls.z * l.z + depth in
    record {
      start = record { x = x; y = y; z = z };
      finish = record { x = x + ls.x; y = y + ls.y; z = z + ls.z };
    }

-- The index of a cell.
abbrev pub cell : D3 → (k j i : ℕ) → ℕ
cell fs k j i = fs.x * fs.y * k + fs.x * j + i

-- The grid that an iteration reads, and the one that it writes.
abbrev pub read_by : ℕ → Buffer
read_by it = if it % 2 == 0 then grid_u else grid_un

abbrev pub written_by : ℕ → Buffer
written_by it = if it % 2 == 0 then grid_un else grid_u

-- `for (k0 = lo; k0 < hi; k0 += block)` with `k1`, the smaller one of `k0 + block` and `hi`.
unfoldable pub for_blocks :
    {S : Type 0} (fuel lo hi block : ℕ) → (ℕ → ℕ → M S (Unit {0})) → M S (Unit {0})
for_blocks zero lo hi block body = if ltb lo hi then spin else pure tt
for_blocks (suc fuel) lo hi block body =
    let rest =
      body lo (if ltb (lo + block) hi then lo + block else hi)
      >> for_blocks fuel (lo + block) hi block body in
    if ltb lo hi then rest else pure tt

-- Three loops over the positions of a region.
abbrev pub for_ranges : {S : Type 0} → Bounds → (ℕ → ℕ → ℕ → M S (Unit {0})) → M S (Unit {0})
for_ranges b body = for_from b.start.z (b.finish.z - b.start.z) λ k.
    for_from b.start.y (b.finish.y - b.start.y)
      λ j. for_from b.start.x (b.finish.x - b.start.x) λ i. body k j i

-- The part of a region in a tile.
abbrev pub tile : Bounds → (k0 k1 j0 j1 : ℕ) → Bounds
tile b k0 k1 j0 j1 = record {
  start = record { x = b.start.x; y = j0; z = k0 };
  finish = record { x = b.finish.x; y = j1; z = k1 };
}

-- `BLOCKZ` and `BLOCKY`.
abbrev pub block_z : ℕ
block_z = 96

abbrev pub block_y : ℕ
block_y = 64

module _ {A : Type 0} where
  abbrev pub buffer : Buffer → Fields A → Slot A
  buffer grid_u s = s.u
  buffer grid_un s = s.un

  abbrev pub with_buffer : Buffer → Slot A → Fields A → Fields A
  with_buffer grid_u slot s = record s { u = slot }
  with_buffer grid_un slot s = record s { un = slot }

  -- An access at an index, and at an index less an offset, which must be inside the grid.
  unfoldable pub load : Buffer → ℕ → M (Fields A) A
  load b p s = if ltb p (buffer b s).size then (s, ok ((buffer b s).at p)) else (s, undefined)

  unfoldable pub load_before : Buffer → (p offset : ℕ) → M (Fields A) A
  unfolding load
  load_before b p offset = if ltb p offset then fault else load b (p - offset)

  unfoldable pub store : Buffer → ℕ → A → M (Fields A) (Unit {0})
  store b p v s =
      if ltb p (buffer b s).size
      then (with_buffer b (put p v (buffer b s)) s, ok tt)
      else (s, undefined)

module _ {A : Type 0} (add : A → A → A) (scale : A → A) (fs : D3) where
  -- One round of the loop over the depth.
  unfoldable pub add_neighbors : Buffer → (k j i d : ℕ) → A → M (Fields A) A
  add_neighbors b k j i d sum = do
    z0 ← load_before b (cell fs k j i) (fs.x * fs.y * d)
    z1 ← load b (cell fs (k + d) j i)
    x1 ← load_before b (cell fs k j i) d
    x0 ← load b (cell fs k j (d + i))
    y0 ← load b (cell fs k (j + d) i)
    y1 ← load_before b (cell fs k j i) (fs.x * d)
    pure (add (add (add (add (add (add sum z0) z1) x1) x0) y0) y1)

  -- Its `n` rounds from `d`.
  unfoldable pub add_all : Buffer → (k j i n d : ℕ) → A → M (Fields A) A
  add_all b k j i zero d sum = pure sum
  add_all b k j i (suc n) d sum = do
    sum' ← add_neighbors b k j i d sum
    add_all b k j i n (suc d) sum'

  -- The update of one cell.
  unfoldable pub update_cell : (depth it k j i : ℕ) → M (Fields A) (Unit {0})
  update_cell depth it k j i = do
    central ← load (read_by it) (cell fs k j i)
    sum ← add_all (read_by it) k j i depth 1 central
    store (written_by it) (cell fs k j i) (scale sum)

  -- `compute(currentTask, lx, ly, lz, it)` of the subgrid with these bounds.
  unfoldable pub compute : (depth : ℕ) → Bounds → (it : ℕ) → M (Fields A) (Unit {0})
  compute depth b it = for_blocks (b.finish.z - b.start.z) b.start.z b.finish.z block_z λ k0 k1.
      for_blocks (b.finish.y - b.start.y) b.start.y b.finish.y block_y
        λ j0 j1. for_ranges (tile b k0 k1 j0 j1) (update_cell depth it)
