-- ===== src/Examples/Jacobi/Grid/Cells.antt =====
-- The cells of a grid: their indices are inside the memory.
use task_r.Base.{some, ◌/◌, ℕ, ◌+◌, ◌-◌, ◌*◌, ◌<◌, ◌≤◌, ◌≡◌, arith, ap, ◌∙◌, sym}
use native.Mathlib.Nat.{mul_comm, mul_assoc, mul-add, add-mul, mul-le-mul_left, div-mul-le_self}
use task_r.Examples.Blocks.{Slot}
use task_r.Examples.Blocks.Indices.{flat-lt}
use task_r.Examples.Jacobi.{D3, Sizes, sizes}
use task_r.Examples.Jacobi.Numbers.{IsInside, place-injective}
use task_r.Examples.Jacobi.Grid.{cell, Bounds, bounds}

abbrev pub volume : D3 → ℕ
volume fs = fs.x * fs.y * fs.z

-- The cells of a grid in memory, by position.
abbrev pub grid : {A : Type 0} → D3 → Slot A → (k j i : ℕ) → A
grid fs slot k j i = slot.at (cell fs k j i)

rows : (fs : D3) (k j i : ℕ) → cell fs k j i ≡ (k * fs.y + j) * fs.x + i
rows fs k j i = omega (
  arith,
  add-mul (k * fs.y) j fs.x,
  mul_comm fs.x j,
  mul_assoc fs.x fs.y k,
  mul_comm fs.y k,
  mul_comm fs.x (k * fs.y),
  ap (λ (n : ℕ). fs.x * n) (mul_comm fs.y k),
)

rows_volume : (fs : D3) → volume fs ≡ fs.z * fs.y * fs.x
rows_volume fs = omega (
  arith,
  mul_assoc fs.x fs.y fs.z,
  mul_comm fs.x (fs.y * fs.z),
  ap (λ (n : ℕ). n * fs.x) (mul_comm fs.y fs.z),
)

pub cell-lt : (fs : D3) (k j i : ℕ) → k < fs.z → j < fs.y → i < fs.x → cell fs k j i < volume fs
cell-lt fs k j i lk lj li = omega (
  arith,
  rows fs k j i,
  rows_volume fs,
  flat-lt (k * fs.y + j) i (fs.z * fs.y) fs.x (flat-lt k j fs.z fs.y lk lj) li,
)

pub cell-injective :
    (fs : D3) (k j i k' j' i' : ℕ)
    → j < fs.y
    → i < fs.x
    → j' < fs.y
    → i' < fs.x
    → cell fs k j i ≡ cell fs k' j' i'
    → (k ≡ k') × (j ≡ j') × (i ≡ i')
cell-injective fs k j i k' j' i' lj li lj' li' e =
    place-injective fs k j i k' j' i' lj li lj' li' (sym (rows fs k j i) ∙ e ∙ rows fs k' j' i')

-- An index less an offset is that of a cell before.
back : (n d w : ℕ) → d ≤ n → w * n ≡ w * (n - d) + w * d
back n d w le = let e : n ≡ n - d + d = omega arith in ap (λ m. w * m) e ∙ mul-add w (n - d) d

pub cell_below :
    (fs : D3) (k j i d : ℕ) → d ≤ k → cell fs k j i ≡ cell fs (k - d) j i + fs.x * fs.y * d
cell_below fs k j i d le = omega (arith, back k d (fs.x * fs.y) le)

pub cell_before : (fs : D3) (k j i d : ℕ) → d ≤ j → cell fs k j i ≡ cell fs k (j - d) i + fs.x * d
cell_before fs k j i d le = omega (arith, back j d fs.x le)

-- A region of cells that stays away from the edge by the depth.
pub record IsPlaced (fs : D3) (depth : ℕ) (b : Bounds) : Type 0 where
  pub z0 : depth ≤ b.start.z
  pub y0 : depth ≤ b.start.y
  pub x0 : depth ≤ b.start.x
  pub z1 : b.finish.z + depth ≤ fs.z
  pub y1 : b.finish.y + depth ≤ fs.y
  pub x1 : b.finish.x + depth ≤ fs.x

abbrev pub InBounds : Bounds → (k j i : ℕ) → Type 0
InBounds b k j i =
    (b.start.z ≤ k)
    × (k < b.finish.z)
    × (b.start.y ≤ j)
    × (j < b.finish.y)
    × (b.start.x ≤ i)
    × (i < b.finish.x)

-- One direction of the bounds: a whole number of subgrids, and the depth on both sides.
room : (ps lt l : ℕ) → l < lt → ps / lt * l + ps / lt ≤ ps
room ps lt l lh =
    omega (arith, mul-le-mul_left (ps / lt) (lh), mul-add (ps / lt) l 1, div-mul-le_self ps lt)

pub sizes-eq :
    (n depth : ℕ) (pt lt : D3) (sz : Sizes)
    → sizes n depth pt lt ≡ some sz
    → (sz.fs ≡ record { x = sz.ps.x + 2 * depth; y = sz.ps.y + 2 * depth; z = sz.ps.z + 2 * depth })
      × (sz.ls ≡ record { x = sz.ps.x / lt.x; y = sz.ps.y / lt.y; z = sz.ps.z / lt.z })
unfolding sizes
sizes-eq n depth pt lt sz e = ground arith

-- The region of a subgrid of a process whose sizes pass the checks.
pub bounds-IsPlaced :
    (n depth : ℕ) (pt lt l : D3) (sz : Sizes)
    → sizes n depth pt lt ≡ some sz
    → IsInside lt l
    → IsPlaced sz.fs depth (bounds depth sz.ls l)
unfolding bounds
bounds-IsPlaced n depth pt lt l sz e inside =
    let (fs, ls) = sizes-eq n depth pt lt sz e in
    record {
      z0 = omega arith;
      y0 = omega arith;
      x0 = omega arith;
      z1 = omega (
        arith,
        ap (λ d. d.z) fs,
        ap (λ d. d.z * l.z + d.z) ls,
        room sz.ps.z lt.z l.z inside.0,
        ap (λ d. d.z) ls,
      );
      y1 = omega (
        arith,
        ap (λ d. d.y) fs,
        ap (λ d. d.y * l.y + d.y) ls,
        room sz.ps.y lt.y l.y inside.1,
        ap (λ d. d.y) ls,
      );
      x1 = omega (
        arith,
        ap (λ d. d.x) fs,
        ap (λ d. d.x * l.x + d.x) ls,
        room sz.ps.x lt.x l.x inside.2,
        ap (λ d. d.x) ls,
      );
    }
