-- ===== src/Examples/Jacobi/Grid/Compute.antt =====
-- `compute`: its tiles and rounds leave in each cell of the subgrid the sum around that cell in the
-- other grid, as one loop over the cells would.
use task_r.Base.{
  Keeps, Keeps-reflexive, Keeps-transitive, HasDue, HasDue-stays, Writes, ℕ, ◌+◌, ◌-◌, ◌≤◌, ◌<◌,
  ◌≡◌, inl, inr, arith, refl, sym, ap, subst, ◌∙◌, M, ok, Establishes, ℕ_discrete,
}
use task_r.Examples.Blocks.{Slot, put}
use task_r.Examples.Jacobi.{D3}
use task_r.Examples.Jacobi.Grid.{
  Fields, Bounds, cell, read_by, written_by, block_z, block_y, buffer, with_buffer, update_cell,
  compute,
}
use task_r.Examples.Jacobi.Grid.Memory.{load_inside, store_inside, written, other}
use task_r.Examples.Jacobi.Grid.Stencil.{stencil, updated, Inner, add_all_eq}
use task_r.Examples.Jacobi.Grid.{for_blocks, for_ranges, tile, block_z, block_y}
use task_r.Examples.Jacobi.Grid.Ranges.{AtRegion, for_ranges-Writes}
use task_r.Examples.Jacobi.Grid.Tiles.{for_blocks-Establishes}
use task_r.Examples.Jacobi.Grid.Cells.{IsPlaced, InBounds, grid, volume, cell-lt}

module _ {A : Type 0} (add : A → A → A) (scale : A → A) (fs : D3) (depth it : ℕ) (b : Bounds)
    (placed : IsPlaced fs depth b) (s : Fields A)
    (size : (buffer (read_by it) s).size ≡ volume fs) where
  abbrev pub due : (k j i : ℕ) → A
  due = updated add scale (grid fs (buffer (read_by it) s)) depth

  -- The value that belongs at an index, which is that of a cell of the region.
  abbrev pub IsDue : ℕ → A → Type 0
  IsDue n v = (k : ℕ) × (j : ℕ) × (i : ℕ) × InBounds b k j i × (n ≡ cell fs k j i) × (v ≡ due k j i)

  pub record Updating (x : Fields A) : Type 0 where
    pub same : buffer (read_by it) x ≡ buffer (read_by it) s
    pub sized : (buffer (written_by it) x).size ≡ volume fs

  abbrev pub at : Fields A → ℕ → A
  at x n = (buffer (written_by it) x).at n

  all-Inner : (k j i : ℕ) → InBounds b k j i → (e : ℕ) → e < 1 + depth → Inner fs e k j i
  all-Inner k j i h e lt = record {
    z0 = omega (arith, placed.z0);
    y0 = omega (arith, placed.y0);
    x0 = omega (arith, placed.x0);
    z1 = omega (arith, placed.z1);
    y1 = omega (arith, placed.y1);
    x1 = omega (arith, placed.x1);
  }

  abbrev after_update : (k j i : ℕ) → Fields A → Slot A
  after_update k j i x = put (cell fs k j i) (due k j i) (buffer (written_by it) x)

  update_cell_eq :
      (k j i : ℕ) (x : Fields A)
      → InBounds b k j i
      → Updating x
      → update_cell add scale fs depth it k j i x
        ≡ (with_buffer (written_by it) (after_update k j i x) x, ok tt)
  unfolding update_cell
  update_cell_eq k j i x h v =
      let same_size : (buffer (read_by it) x).size ≡ volume fs = ap (λ w. w.size) v.same ∙ size in
      let c = cell fs k j i in
      let here : c < volume fs =
        cell-lt fs k j i (omega (arith, placed.z1)) (omega (arith, placed.y1))
          (omega (arith, placed.x1)) in
      rw
        (
          load_inside (read_by it) c x (omega arith),
          add_all_eq add scale fs (read_by it) k j i depth 1 ((buffer (read_by it) x).at c) x
              (all-Inner k j i h) same_size,
          store_inside (written_by it) c
              (scale (
                stencil add scale (grid fs (buffer (read_by it) x)) k j i depth 1
                  ((buffer (read_by it) x).at c)))
              x (omega (arith, v.sized)),
          v.same,
        )
        refl

  update_cell-Writes :
      (k j i : ℕ) (x : Fields A)
      → InBounds b k j i
      → Updating x
      → Writes at IsDue Updating
          (update_cell add scale fs depth it k j i)
          (λ n. n ≡ cell fs k j i)
          x
  update_cell-Writes k j i x h v =
      let w = after_update k j i x in
      let c = cell fs k j i in
      let x' = with_buffer (written_by it) w x in
      let is : buffer (written_by it) x' ≡ w = written it w x in
      let here : IsDue c (at x' c) =
        subst (λ q. IsDue c (q.at c)) (sym is) (k, j, i, h, refl, ground arith) in
      (
        x',
        update_cell_eq k j i x h v,
        record { same = other it w x ∙ v.same; sized = ap (λ q. q.size) is ∙ v.sized },
        λ n. elim (ℕ_discrete c n) [
          | yes e ↦ inr (subst (λ m. IsDue m (at x' m)) e here)
          | no e ↦ inl (ap (λ q. q.at n) is ∙ ground arith)
        ],
        λ n e. subst (λ m. IsDue m (at x' m)) (sym e) here,
      )

  -- The loops over the cells of a tile, and over the tiles.
  tile-Writes :
      (k0 k1 j0 j1 : ℕ) (x : Fields A)
      → b.start.z ≤ k0
      → k1 ≤ b.finish.z
      → b.start.y ≤ j0
      → j1 ≤ b.finish.y
      → Updating x
      → Writes at IsDue Updating
          (for_ranges (tile b k0 k1 j0 j1) (update_cell add scale fs depth it))
          (AtRegion at IsDue Updating (tile b k0 k1 j0 j1) (λ k j i n. n ≡ cell fs k j i))
          x
  tile-Writes k0 k1 j0 j1 x kl ku jl ju v =
      for_ranges-Writes at IsDue Updating (tile b k0 k1 j0 j1) (update_cell add scale fs depth it)
        (λ k j i n. n ≡ cell fs k j i) (λ k j i x h v. update_cell-Writes k j i x (omega arith) v) x
        v

  abbrev pub Layer : (j0 j1 k : ℕ) → Fields A → Type 0
  Layer j0 j1 k x =
      (j : ℕ)
      → j0 ≤ j
      → j < j1
      → (i : ℕ) → b.start.x ≤ i
      → i < b.finish.x
      → HasDue at IsDue (cell fs k j i) x

  Layer-stays :
      (j0 j1 k : ℕ) (x x' : Fields A) → Keeps at IsDue x x' → Layer j0 j1 k x → Layer j0 j1 k x'
  Layer-stays j0 j1 k x x' keeps layer j le lt i le' lt' =
      HasDue-stays at IsDue (cell fs k j i) x x' keeps (layer j le lt i le' lt')

  abbrev pub Updates : M (Fields A) (Unit {0}) → (Fields A → Type 0) → Fields A → Type 0
  Updates =
      Establishes Updating (Keeps at IsDue) (Keeps-reflexive at IsDue) (Keeps-transitive at IsDue)

  -- A row of tiles.
  tiles-Updates :
      (k0 k1 : ℕ) (x : Fields A)
      → b.start.z ≤ k0
      → k1 ≤ b.finish.z
      → Updating x
      → Updates
          (for_blocks
            (b.finish.y - b.start.y)
            b.start.y
            b.finish.y
            block_y
            λ j0 j1. for_ranges (tile b k0 k1 j0 j1) (update_cell add scale fs depth it))
          (λ x. (k : ℕ) → k0 ≤ k → k < k1 → Layer b.start.y b.finish.y k x)
          x
  tiles-Updates k0 k1 x kl ku v =
      let (x', e, v', keeps, good) =
        for_blocks-Establishes Updating (Keeps at IsDue) (Keeps-reflexive at IsDue)
          (Keeps-transitive at IsDue) (λ j x. (k : ℕ) → k0 ≤ k → k < k1 → Layer j (j + 1) k x)
          (λ j x x' keeps rows k le lt. Layer-stays j (j + 1) k x x' keeps (rows k le lt))
          (b.finish.y - b.start.y) b.start.y b.finish.y block_y _ (omega arith) (omega arith)
          (λ j0 j1 x jl ju v.
            let (x', e, v', keeps, due) = tile-Writes k0 k1 j0 j1 x kl ku jl ju v in
            (
              x',
              e,
              v',
              keeps,
              λ j le lt k le' lt' j' same same' i il iu.
                  due (cell fs k j' i)
                    (k, j', i, (le', lt', omega arith, omega arith, il, iu), refl),
            ))
          x v in
      (x', e, v', keeps, λ k le lt j le' lt'. good j le' lt' k le lt j (omega arith) (omega arith))

  pub compute-Updates :
      (x : Fields A)
      → Updating x
      → Updates
          (compute add scale fs depth b it)
          (λ x. (k : ℕ) → b.start.z ≤ k → k < b.finish.z → Layer b.start.y b.finish.y k x)
          x
  unfolding compute
  compute-Updates x v =
      for_blocks-Establishes Updating (Keeps at IsDue) (Keeps-reflexive at IsDue)
        (Keeps-transitive at IsDue) (Layer b.start.y b.finish.y) (Layer-stays b.start.y b.finish.y)
        (b.finish.z - b.start.z) b.start.z b.finish.z block_z _ (omega arith) (omega arith)
        (λ k0 k1 x kl ku v. tiles-Updates k0 k1 x kl ku v) x v
