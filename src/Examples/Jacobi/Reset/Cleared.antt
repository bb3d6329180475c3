-- ===== src/Examples/Jacobi/Reset/Cleared.antt =====
-- What `reset` leaves in the cells around a subgrid.
use task_r.Base.{
  ℕ, ◌+◌, ◌*◌, ◌<◌, ◌≡◌, inl, inr, arith, refl, sym, ap, subst, ◌∙◌, true, some, ok, when,
  Bool-cases, Keeps, HasDue, Keeps-reflexive, Keeps-transitive, HasDue-stays, Writes,
  each_of-Writes, All,
}
use task_r.Examples.Jacobi.{D3, Sizes, sizes, CommType}
use task_r.Examples.Jacobi.Numbers.{IsInside}
use task_r.Examples.Jacobi.Grid.{
  Buffer, grid_u, grid_un, Fields, Bounds, bounds, cell, buffer, store, for_ranges,
}
use task_r.Examples.Jacobi.Grid.Cells.{
  IsPlaced, InBounds, bounds-IsPlaced, volume, grid, cell-lt, cell-injective, sizes-eq,
}
use task_r.Examples.Jacobi.Grid.Ranges.{for_ranges-Writes}
use task_r.Examples.Jacobi.Halo.{Face, face_x0, face_x1, face_y0, face_y1, face_z0, face_z1, index}
use task_r.Examples.Jacobi.Reset.{
  is_boundary, reset_faces, box, rim_ranges, rim, clear, fill, reset,
}
use task_r.Examples.Jacobi.Reset.Stores.{at, Sized, store-Writes}
use task_r.Examples.Jacobi.Reset.Rim.{OnRim, rim-IsInside, rim_round, rim-Beyond}

module _ {A : Type 0} (one zero : A) (sz : Sizes) (depth : ℕ) (b : Bounds) (kind : Face → CommType)
    (placed : IsPlaced sz.fs depth b)
    (around : sz.fs
      ≡ record { x = sz.ps.x + 2 * depth; y = sz.ps.y + 2 * depth; z = sz.ps.z + 2 * depth }) where
  abbrev Filled : Buffer × ℕ → A → Type 0
  Filled (g, n) v =
      (k : ℕ) × (j : ℕ) × (i : ℕ) × InBounds (box depth b) k j i
      × (n ≡ cell sz.fs k j i)
      × (v ≡ one)

  abbrev AtCell : (k j i : ℕ) → Buffer × ℕ → Type 0
  AtCell k j i (g, n) = n ≡ cell sz.fs k j i

  abbrev Cleared : Buffer × ℕ → A → Type 0
  Cleared (g, n) v =
      (f : Face) × (i : ℕ) × (j : ℕ) × (d : ℕ) × (is_boundary (kind f) ≡ true)
      × InBounds (rim_ranges depth b f) i j d
      × (n ≡ index sz.fs (rim depth sz.ps f i j d))
      × (v ≡ zero)

  fill-Writes :
      (k j i : ℕ) (x : Fields A)
      → InBounds (box depth b) k j i
      → Sized sz.fs x
      → Writes at Filled
          (Sized sz.fs)
          (fill one zero sz.fs sz.ps depth b kind k j i)
          (AtCell k j i)
          x
  unfolding fill
  fill-Writes k j i x h v =
      let c = cell sz.fs k j i in
      let inside : c < volume sz.fs =
        cell-lt sz.fs k j i (omega (arith, placed.z1)) (omega (arith, placed.y1))
          (omega (arith, placed.x1)) in
      let (x1, e1, v1, keeps1, due1) =
        store-Writes sz.fs Filled grid_un c one x inside (k, j, i, h, refl, refl) v in
      let (x2, e2, v2, keeps2, due2) =
        store-Writes sz.fs Filled grid_u c one x1 inside (k, j, i, h, refl, refl) v1 in
      (
        x2,
        rw e1 e2,
        v2,
        Keeps-transitive at Filled x x1 x2 keeps1 keeps2,
        λ (g, n) e.
            subst (λ m. HasDue at Filled (g, m) x2) (sym e) (both_due g c x1 x2 due1 due2 keeps2),
      )
    where
      both_due :
          (g : Buffer) (c : ℕ) (x1 x2 : Fields A)
          → ((m : Buffer × ℕ) → m ≡ (grid_un, c) → HasDue at Filled m x1)
          → ((m : Buffer × ℕ) → m ≡ (grid_u, c) → HasDue at Filled m x2)
          → Keeps at Filled x1 x2
          → HasDue at Filled (g, c) x2
      both_due grid_u c x1 x2 due1 due2 keeps = due2 (grid_u, c) refl
      both_due grid_un c x1 x2 due1 due2 keeps =
          HasDue-stays at Filled (grid_un, c) x1 x2 keeps (due1 (grid_un, c) refl)

  -- The places that the loops of a face clear in one of the grids.
  abbrev AtRim : Buffer → Face → Buffer × ℕ → Type 0
  AtRim g f m =
      (is_boundary (kind f) ≡ true)
      × ((i : ℕ) × (j : ℕ) × (d : ℕ) × InBounds (rim_ranges depth b f) i j d
          × (m ≡ (g, index sz.fs (rim depth sz.ps f i j d))))

  rim-Writes :
      (g : Buffer) (f : Face) (x : Fields A)
      → Sized sz.fs x
      → Writes at Cleared
          (Sized sz.fs)
          (when (is_boundary (kind f)) (
            for_ranges
              (rim_ranges depth b f)
              λ i j d. store g (index sz.fs (rim depth sz.ps f i j d)) zero))
          (AtRim g f)
          x
  rim-Writes g f x v = elim (Bool-cases (is_boundary (kind f))) [
    | inr inner ↦ rw inner (x, refl, v, Keeps-reflexive at Cleared x, λ n h. cc)
    | inl edge ↦
        let (x', e, v', keeps, due) =
          for_ranges-Writes at Cleared (Sized sz.fs) (rim_ranges depth b f)
            (λ i j d. store g (index sz.fs (rim depth sz.ps f i j d)) zero)
            (λ i j d m. m ≡ (g, index sz.fs (rim depth sz.ps f i j d)))
            (λ i j d x h v.
              let q = rim depth sz.ps f i j d in
              let inside = rim-IsInside sz depth b placed around f i j d h in
              store-Writes sz.fs Cleared g (index sz.fs q) zero x
                (cell-lt sz.fs q.z q.y q.x inside.0 inside.1 inside.2)
                (f, i, j, d, edge, h, refl, refl) v)
            x v in
        (x', rw edge e, v', keeps, λ n h. due n h.1)
  ]

  -- What `clear` does to one of the grids.
  abbrev ClearsRim : Buffer → Fields A → Type 0
  ClearsRim g x = (f : Face) (m : Buffer × ℕ) → AtRim g f m → HasDue at Cleared m x

  at_reset_face : (P : Face → Type 0) → All P reset_faces → (f : Face) → P f
  at_reset_face P h face_x0 = h.0
  at_reset_face P h face_y0 = h.1.0
  at_reset_face P h face_z0 = h.1.1.0
  at_reset_face P h face_x1 = h.1.1.1.0
  at_reset_face P h face_y1 = h.1.1.1.1.0
  at_reset_face P h face_z1 = h.1.1.1.1.1.0

  clear-Writes :
      (g : Buffer) (x : Fields A)
      → Sized sz.fs x
      → (x' : Fields A) × (clear one zero sz.fs sz.ps depth b kind g x ≡ (x', ok tt))
        × Sized sz.fs x'
        × Keeps at Cleared x x'
        × ClearsRim g x'
  unfolding clear
  clear-Writes g x v =
      let (x', e, v', keeps, due) =
        each_of-Writes at Cleared (Sized sz.fs) reset_faces
          (λ f. when (is_boundary (kind f)) (
            for_ranges (rim_ranges depth b f)
              λ i j d. store g (index sz.fs (rim depth sz.ps f i j d)) zero))
          (AtRim g) (λ f x v. rim-Writes g f x v) x v in
      (
        x',
        e,
        v',
        keeps,
        at_reset_face (λ f. (m : Buffer × ℕ) → AtRim g f m → HasDue at Cleared m x') due,
      )

  both_rims :
      (x2 x3 : Fields A)
      → Keeps at Cleared x2 x3
      → ClearsRim grid_u x2
      → ClearsRim grid_un x3
      → (g : Buffer) → ClearsRim g x3
  both_rims x2 x3 keeps due due' grid_u f m h = HasDue-stays at Cleared m x2 x3 keeps (due f m h)
  both_rims x2 x3 keeps due due' grid_un f m h = due' f m h

  reset-Writes :
      (x : Fields A)
      → Sized sz.fs x
      → (x1 : Fields A) × (x3 : Fields A) × (reset one zero sz.fs sz.ps depth b kind x
          ≡ (x3, ok tt))
        × Keeps at Filled x x1
        × ((g : Buffer) (k j i : ℕ)
            → InBounds (box depth b) k j i
            → HasDue at Filled (g, cell sz.fs k j i) x1)
        × Keeps at Cleared x1 x3
        × ((g : Buffer) → ClearsRim g x3)
  unfolding reset
  reset-Writes x v =
      let (x1, e1, v1, keeps1, due1) =
        for_ranges-Writes at Filled (Sized sz.fs) (box depth b)
          (fill one zero sz.fs sz.ps depth b kind) AtCell (λ k j i x h v. fill-Writes k j i x h v) x
          v in
      let (x2, e2, v2, keeps2, due2) = clear-Writes grid_u x1 v1 in
      let (x3, e3, v3, keeps3, due3) = clear-Writes grid_un x2 v2 in
      (
        x1,
        x3,
        rw e1 (rw e2 e3),
        keeps1,
        λ g k j i h. due1 (g, cell sz.fs k j i) (k, j, i, h, refl),
        Keeps-transitive at Cleared x1 x2 x3 keeps2 keeps3,
        both_rims x2 x3 keeps3 due2 due3,
      )

  -- A cell of which the rounds of the clearing cannot be, or are, the writers.
  not-Cleared :
      (g : Buffer) (k j i : ℕ) (v : A)
      → j < sz.fs.y
      → i < sz.fs.x
      → ¬ OnRim depth sz.ps kind k j i
      → ¬ Cleared (g, cell sz.fs k j i) v
  not-Cleared g k j i v lj li out (f, a, c, d, edge, h, e, _) =
      out (f, edge, rim-Beyond sz depth b placed around f a c d k j i h lj li e)

  -- Without the clearing of a cell it keeps what it had.
  kept :
      (g : Buffer) (k j i : ℕ) (x1 x3 : Fields A)
      → Keeps at Cleared x1 x3
      → j < sz.fs.y
      → i < sz.fs.x
      → ¬ OnRim depth sz.ps kind k j i
      → grid sz.fs (buffer g x3) k j i ≡ grid sz.fs (buffer g x1) k j i
  kept g k j i x1 x3 keeps lj li out = elim (keeps (g, cell sz.fs k j i)) [
    | inl same ↦ same
    | inr new ↦ absurd (not-Cleared g k j i _ lj li out new)
  ]

-- `reset` of a subgrid returns. In both grids the cells of the subgrid and up to the depth around it are
-- zero beyond the boundaries and one elsewhere, and all other cells not beyond a boundary stay.
abbrev pub Resets :
    {A : Type 0} (one zero : A) (depth : ℕ) (sz : Sizes) (b : Bounds) (kind : Face → CommType)
    → Fields A
    → Type 0
Resets {A} one zero depth sz b kind s =
    (s' : Fields A) × (reset one zero sz.fs sz.ps depth b kind s ≡ (s', ok tt))
    × ((g : Buffer) (k j i : ℕ)
        → InBounds (box depth b) k j i
        → OnRim depth sz.ps kind k j i
        → grid sz.fs (buffer g s') k j i ≡ zero)
    × ((g : Buffer) (k j i : ℕ)
        → InBounds (box depth b) k j i
        → ¬ OnRim depth sz.ps kind k j i
        → grid sz.fs (buffer g s') k j i ≡ one)
    × ((g : Buffer) (k j i : ℕ)
        → j < sz.fs.y
        → i < sz.fs.x
        → ¬ InBounds (box depth b) k j i
        → ¬ OnRim depth sz.ps kind k j i
        → grid sz.fs (buffer g s') k j i ≡ grid sz.fs (buffer g s) k j i)

-- In a process whose sizes pass the checks of `initialize`, and with memory of these sizes, `reset` of a
-- subgrid returns; in both grids the cells of the subgrid and up to the depth around it become zero where
-- they are beyond a face that is a boundary and one elsewhere, and all other cells that are not beyond
-- such a face stay.
pub reset_lem :
    {A : Type 0} (one zero : A) (n depth : ℕ) (pt lt l : D3) (sz : Sizes) (kind : Face → CommType)
    (s : Fields A)
    → sizes n depth pt lt ≡ some sz
    → IsInside lt l
    → s.u.size ≡ volume sz.fs
    → s.un.size ≡ volume sz.fs
    → Resets one zero depth sz (bounds depth sz.ls l) kind s
reset_lem one zero n depth pt lt l sz kind s checked inside size_u size_un =
    let b = bounds depth sz.ls l in
    let placed = bounds-IsPlaced n depth pt lt l sz checked inside in
    let around = (sizes-eq n depth pt lt sz checked).0 in
    let (s1, s3, e, keeps1, due1, keeps3, rims) =
      reset-Writes one zero sz depth b kind placed around s (record { u = size_u; un = size_un }) in
    let in_row : (k j i : ℕ) → InBounds (box depth b) k j i → (j < sz.fs.y) × (i < sz.fs.x) =
      λ k j i h. (omega (arith, placed.y1), omega (arith, placed.x1)) in
    (
      s3,
      e,
      λ g k j i h (f, edge, beyond).
          let (a, c, d, h', same) = rim_round sz depth b placed around f k j i h beyond in
          let (_, _, _, _, _, _, _, is) =
            rims g f (g, cell sz.fs k j i) (edge, (a, c, d, h', ap (λ m. (g, m)) (sym same))) in
          is,
      λ g k j i h out.
          let (_, _, _, _, _, is) = due1 g k j i h in
          kept one zero sz depth b kind placed around g k j i s1 s3 keeps3 (in_row k j i h).0
            (in_row k j i h).1 out
          ∙ is,
      λ g k j i lj li outside out.
          kept one zero sz depth b kind placed around g k j i s1 s3 keeps3 lj li out
          ∙ elim (keeps1 (g, cell sz.fs k j i)) [
            | inl same ↦ same
            | inr (k', j', i', h, e, _) ↦
                let row = in_row k' j' i' h in
                absurd (
                  outside (ground (arith, cell-injective sz.fs k j i k' j' i' lj li row.0 row.1 e)))
          ],
    )
