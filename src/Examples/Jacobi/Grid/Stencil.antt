-- ===== src/Examples/Jacobi/Grid/Stencil.antt =====
-- The sum around a cell: the loop over the depth computes it.
use task_r.Base.{ℕ, zero, suc, ◌+◌, ◌-◌, ◌*◌, ◌≤◌, ◌<◌, ◌≡◌, arith, refl, sym, subst, ok}
use task_r.Examples.Jacobi.{D3}
use task_r.Examples.Jacobi.Grid.{Buffer, Fields, cell, buffer, add_neighbors, add_all}
use task_r.Examples.Jacobi.Grid.Memory.{load_inside, load_before_inside}
use task_r.Examples.Jacobi.Grid.Cells.{grid, volume, cell-lt, cell_below, cell_before}

-- A cell with its neighbours up to a distance is inside the grid.
pub record Inner (fs : D3) (d k j i : ℕ) : Type 0 where
  pub z0 : d ≤ k
  pub y0 : d ≤ j
  pub x0 : d ≤ i
  pub z1 : k + d < fs.z
  pub y1 : j + d < fs.y
  pub x1 : i + d < fs.x

module _ {A : Type 0} (add : A → A → A) (scale : A → A) where
  -- The sum around a cell of a grid, by its position: the values at the distances `d`, `d + 1` and so
  -- on are added in the order of the code.
  abbrev pub around : (ℕ → ℕ → ℕ → A) → (k j i d : ℕ) → A → A
  around g k j i d sum =
      let below = add (add sum (g (k - d) j i)) (g (k + d) j i) in
      let beside = add (add below (g k j (i - d))) (g k j (d + i)) in
      add (add beside (g k (j + d) i)) (g k (j - d) i)

  abbrev pub stencil : (ℕ → ℕ → ℕ → A) → (k j i n d : ℕ) → A → A
  stencil g k j i zero d sum = sum
  stencil g k j i (suc n) d sum = stencil g k j i n (suc d) (around g k j i d sum)

  abbrev pub updated : (ℕ → ℕ → ℕ → A) → (depth k j i : ℕ) → A
  updated g depth k j i = scale (stencil g k j i depth 1 (g k j i))

  module _ (fs : D3) where
    add_neighbors_eq :
        (b : Buffer) (k j i d : ℕ) (sum : A) (s : Fields A)
        → Inner fs d k j i
        → (buffer b s).size ≡ volume fs
        → add_neighbors add scale fs b k j i d sum s
          ≡ (s, ok (around (grid fs (buffer b s)) k j i d sum))
    unfolding add_neighbors
    add_neighbors_eq b k j i d sum s v size =
        let inside : (k' j' i' : ℕ)
            → k' < fs.z
            → j' < fs.y
            → i' < fs.x
            → cell fs k' j' i' < (buffer b s).size =
          λ k' j' i' lk lj li.
            subst (λ n. cell fs k' j' i' < n) (sym size) (cell-lt fs k' j' i' lk lj li) in
        let here = inside k j i (omega arith) (omega arith) (omega arith) in
        rw
          (
            load_before_inside b (cell fs k j i) (fs.x * fs.y * d) (cell fs (k - d) j i) s here
                (cell_below fs k j i d v.z0),
            load_inside b (cell fs (k + d) j i) s
                (inside (k + d) j i v.z1 (omega arith) (omega arith)),
            load_before_inside b (cell fs k j i) d (cell fs k j (i - d)) s here (omega arith),
            load_inside b (cell fs k j (d + i)) s
                (inside k j (d + i) (omega arith) (omega arith) (omega arith)),
            load_inside b (cell fs k (j + d) i) s
                (inside k (j + d) i (omega arith) v.y1 (omega arith)),
            load_before_inside b (cell fs k j i) (fs.x * d) (cell fs k (j - d) i) s here
                (cell_before fs k j i d v.y0),
          )
          refl

    -- All distances up to the depth.
    pub add_all_eq :
        (b : Buffer) (k j i n d : ℕ) (sum : A) (s : Fields A)
        → ((e : ℕ) → e < d + n → Inner fs e k j i)
        → (buffer b s).size ≡ volume fs
        → add_all add scale fs b k j i n d sum s
          ≡ (s, ok (stencil (grid fs (buffer b s)) k j i n d sum))
    unfolding add_all
    add_all_eq b k j i zero d sum s v size = refl
    add_all_eq b k j i (suc n) d sum s v size =
        rw (add_neighbors_eq b k j i d sum s (v d (omega arith)) size) (
          add_all_eq b k j i n (suc d) (around (grid fs (buffer b s)) k j i d sum) s
            (λ e lt. v e (omega arith)) size)
