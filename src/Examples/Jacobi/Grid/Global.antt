-- ===== src/Examples/Jacobi/Grid/Global.antt =====
-- `compute` against one grid of all processes, in which a process has its cells at an offset.
use task_r.Base.{
  [], ◌∷◌, List, All, ℕ, zero, suc, ◌+◌, ◌-◌, ◌*◌, ◌≤◌, ◌<◌, ◌≡◌, ◌⊎◌, inl, inr, arith, refl, ap,
  ◌∙◌, some, ok,
}
use task_r.Examples.Jacobi.{D3, Sizes, sizes}
use task_r.Examples.Jacobi.Numbers.{IsInside}
use task_r.Examples.Jacobi.Grid.{Fields, Bounds, bounds, buffer, read_by, written_by}
use task_r.Examples.Jacobi.Grid.Cells.{InBounds, bounds-IsPlaced, volume, grid}
use task_r.Examples.Jacobi.Grid.Stencil.{around, stencil, updated}
use task_r.Examples.Jacobi.Grid.AnyOrder.{compute_all, compute_any_order}

-- A region with the cells up to the depth before and after it in one direction.
abbrev wide_z : ℕ → Bounds → Bounds
wide_z depth b = record {
  start = record b.start { z = b.start.z - depth };
  finish = record b.finish { z = b.finish.z + depth };
}

abbrev wide_y : ℕ → Bounds → Bounds
wide_y depth b = record {
  start = record b.start { y = b.start.y - depth };
  finish = record b.finish { y = b.finish.y + depth };
}

abbrev wide_x : ℕ → Bounds → Bounds
wide_x depth b = record {
  start = record b.start { x = b.start.x - depth };
  finish = record b.finish { x = b.finish.x + depth };
}

-- The cells of a region and those beside its six faces, without edges and corners.
abbrev pub InCross : ℕ → Bounds → (k j i : ℕ) → Type 0
InCross depth b k j i =
    InBounds (wide_z depth b) k j i
    ⊎ (InBounds (wide_y depth b) k j i ⊎ InBounds (wide_x depth b) k j i)

module _ {A : Type 0} (g : ℕ → ℕ → ℕ → A) (whole : ℕ → ℕ → ℕ → A) (o : D3) where
  -- A grid has the cells of the whole one at an offset.
  abbrev pub Agrees : (k j i : ℕ) → Type 0
  Agrees k j i = g k j i ≡ whole (o.z + k) (o.y + j) (o.x + i)

  -- The cells at one distance from a cell.
  record AgreesAt (k j i d : ℕ) : Type 0 where
    z0 : g (k - d) j i ≡ whole (o.z + k - d) (o.y + j) (o.x + i)
    z1 : g (k + d) j i ≡ whole (o.z + k + d) (o.y + j) (o.x + i)
    y0 : g k (j - d) i ≡ whole (o.z + k) (o.y + j - d) (o.x + i)
    y1 : g k (j + d) i ≡ whole (o.z + k) (o.y + j + d) (o.x + i)
    x0 : g k j (i - d) ≡ whole (o.z + k) (o.y + j) (o.x + i - d)
    x1 : g k j (d + i) ≡ whole (o.z + k) (o.y + j) (d + (o.x + i))

  all-AgreesAt :
      (depth : ℕ) (b : Bounds) (k j i d : ℕ)
      → ((k j i : ℕ) → InCross depth b k j i → Agrees k j i)
      → InBounds b k j i
      → d ≤ k
      → d ≤ j
      → d ≤ i
      → d ≤ depth
      → AgreesAt k j i d
  all-AgreesAt depth b k j i d agrees h lk lj li le = record {
    z0 =
        agrees (k - d) j i (inl (omega arith))
        ∙ ap (λ n. whole n (o.y + j) (o.x + i)) (omega arith);
    z1 =
        agrees (k + d) j i (inl (omega arith))
        ∙ ap (λ n. whole n (o.y + j) (o.x + i)) (omega arith);
    y0 =
        agrees k (j - d) i (inr (inl (omega arith)))
        ∙ ap (λ n. whole (o.z + k) n (o.x + i)) (omega arith);
    y1 =
        agrees k (j + d) i (inr (inl (omega arith)))
        ∙ ap (λ n. whole (o.z + k) n (o.x + i)) (omega arith);
    x0 =
        agrees k j (i - d) (inr (inr (omega arith)))
        ∙ ap (λ n. whole (o.z + k) (o.y + j) n) (omega arith);
    x1 =
        agrees k j (d + i) (inr (inr (omega arith)))
        ∙ ap (λ n. whole (o.z + k) (o.y + j) n) (omega arith);
  }

  module _ (add : A → A → A) (scale : A → A) where
    stencil_shift :
        (k j i n d : ℕ) (sum : A)
        → ((e : ℕ) → d ≤ e → e < d + n → AgreesAt k j i e)
        → stencil add scale g k j i n d sum
          ≡ stencil add scale whole (o.z + k) (o.y + j) (o.x + i) n d sum
    stencil_shift k j i zero d sum h = refl
    stencil_shift k j i (suc n) d sum h =
        let a = h d (omega arith) (omega arith) in
        stencil_shift k j i n (suc d) (around add scale g k j i d sum)
          (λ e le lt. h e (omega arith) (omega arith))
        ∙ (λ t. stencil add scale whole (o.z + k) (o.y + j) (o.x + i) n (suc d) (
            add (add (add (add (add (add sum (a.z0 t)) (a.z1 t)) (a.x0 t)) (a.x1 t)) (a.y1 t))
              (a.y0 t)))

-- Where the cells of the process at `p` start among those of all processes.
abbrev pub offset : (ps p : D3) → D3
offset ps p = record { x = p.x * ps.x; y = p.y * ps.y; z = p.z * ps.z }

module _ {A : Type 0} (add : A → A → A) (scale : A → A) (n depth it : ℕ) (pt lt p : D3) (sz : Sizes)
    (whole : ℕ → ℕ → ℕ → A) (s : Fields A) (checked : sizes n depth pt lt ≡ some sz) where
  abbrev read : (k j i : ℕ) → A
  read = grid sz.fs (buffer (read_by it) s)

  -- The subgrid and what is beside its faces agree with the whole grid.
  abbrev CrossAgrees : D3 → Type 0
  CrossAgrees l =
      (k j i : ℕ)
      → InCross depth (bounds depth sz.ls l) k j i
      → Agrees read whole (offset sz.ps p) k j i

  updated_whole :
      (l : D3) (k j i : ℕ)
      → IsInside lt l
      → CrossAgrees l
      → InBounds (bounds depth sz.ls l) k j i
      → Agrees (updated add scale read depth) (updated add scale whole depth) (offset sz.ps p) k j i
  updated_whole l k j i inside agrees h =
      let b = bounds depth sz.ls l in
      let placed = bounds-IsPlaced n depth pt lt l sz checked inside in
      let o = offset sz.ps p in
      ap scale (
        ap (stencil add scale read k j i depth 1) (agrees k j i (inl (omega arith)))
        ∙ stencil_shift read whole o add scale k j i depth 1 (whole (o.z + k) (o.y + j) (o.x + i))
            (λ d le lt.
              all-AgreesAt read whole o depth b k j i d agrees h (omega (arith, placed.z0))
                (omega (arith, placed.y0)) (omega (arith, placed.x0)) (omega arith)))

  -- The same of the grid that is written, for all subgrids of a list.
  written_whole :
      (order : List D3) (x : Fields A)
      → All (IsInside lt) order
      → All CrossAgrees order
      → All
          (λ l.
            (k j i : ℕ)
            → InBounds (bounds depth sz.ls l) k j i
            → grid sz.fs (buffer (written_by it) x) k j i ≡ updated add scale read depth k j i)
          order
      → All
          (λ l.
            (k j i : ℕ)
            → InBounds (bounds depth sz.ls l) k j i
            → Agrees
                (grid sz.fs (buffer (written_by it) x))
                (updated add scale whole depth)
                (offset sz.ps p)
                k
                j
                i)
          order
  written_whole [] x inside agrees values = tt
  written_whole (l ∷ order) x inside agrees values = (
    (λ k j i h. values.0 k j i h ∙ updated_whole l k j i inside.0 agrees.0 h),
    written_whole order x inside.1 agrees.1 values.1,
  )

-- In a process at `p` whose sizes pass the checks of `initialize`, with memory of these sizes, let the grid
-- that an iteration reads have, in some subgrids and beside their faces, the cells of a whole grid, each
-- at the place that it has among all processes. Then computing these subgrids, in any order, returns, and
-- the other grid has in their cells those of the whole grid after its own iteration.
pub compute_whole :
    {A : Type 0} (add : A → A → A) (scale : A → A) (n depth it : ℕ) (pt lt p : D3) (sz : Sizes)
    (whole : ℕ → ℕ → ℕ → A) (order : List D3) (s : Fields A)
    → sizes n depth pt lt ≡ some sz
    → All (IsInside lt) order
    → s.u.size ≡ volume sz.fs
    → s.un.size ≡ volume sz.fs
    → All
        (λ l.
          (k j i : ℕ)
          → InCross depth (bounds depth sz.ls l) k j i
          → Agrees (grid sz.fs (buffer (read_by it) s)) whole (offset sz.ps p) k j i)
        order
    → (s' : Fields A) × (compute_all add scale depth it sz order s ≡ (s', ok tt))
      × All
          (λ l.
            (k j i : ℕ)
            → InBounds (bounds depth sz.ls l) k j i
            → Agrees
                (grid sz.fs (buffer (written_by it) s'))
                (updated add scale whole depth)
                (offset sz.ps p)
                k
                j
                i)
          order
compute_whole add scale n depth it pt lt p sz whole order s checked inside size_u size_un agrees =
    let (s', e, _, values, _) =
      compute_any_order add scale n depth it pt lt sz order s checked inside size_u size_un in
    (
      s',
      e,
      written_whole add scale n depth it pt lt p sz whole s checked order s' inside agrees values,
    )
