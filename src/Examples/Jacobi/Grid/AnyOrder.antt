-- ===== src/Examples/Jacobi/Grid/AnyOrder.antt =====
-- The `compute` tasks of an iteration of one process, one after the other.
use task_r.Base.{
  ℕ, ◌<◌, ◌≡◌, ◌%◌, ◌==◌, inl, inr, arith, refl, sym, ◌∙◌, some, List, [], ◌∷◌, All, M, ok, each_of,
  Bool-cases, Keeps, Keeps-reflexive, Keeps-transitive, HasDue, HasDue-stays,
}
use task_r.Examples.Jacobi.{D3, Sizes, sizes}
use task_r.Examples.Jacobi.Numbers.{IsInside}
use task_r.Examples.Jacobi.Grid.{Fields, bounds, cell, buffer, read_by, written_by, compute}
use task_r.Examples.Jacobi.Grid.Cells.{InBounds, bounds-IsPlaced, volume, grid, cell-injective}
use task_r.Examples.Jacobi.Grid.Stencil.{updated}
use task_r.Examples.Jacobi.Grid.Compute.{compute-Updates}

-- The subgrids in the order in which their tasks are executed.
abbrev pub compute_all :
    {A : Type 0} (add : A → A → A) (scale : A → A) (depth it : ℕ) (sz : Sizes)
    → List D3
    → M (Fields A) (Unit {0})
compute_all add scale depth it sz order =
    each_of order λ l. compute add scale sz.fs depth (bounds depth sz.ls l) it

module _ {A : Type 0} (add : A → A → A) (scale : A → A) (n depth it : ℕ) (pt lt : D3) (sz : Sizes)
    (s : Fields A) (checked : sizes n depth pt lt ≡ some sz)
    (size : (buffer (read_by it) s).size ≡ volume sz.fs) where
  abbrev at : Fields A → ℕ → A
  at x m = (buffer (written_by it) x).at m

  abbrev value : (k j i : ℕ) → A
  value = updated add scale (grid sz.fs (buffer (read_by it) s)) depth

  -- What belongs at an index that is that of a cell of a subgrid.
  abbrev IsDue : ℕ → A → Type 0
  IsDue m v =
      (l : D3) × IsInside lt l
      × (k : ℕ) × (j : ℕ) × (i : ℕ) × InBounds (bounds depth sz.ls l) k j i
      × (m ≡ cell sz.fs k j i)
      × (v ≡ value k j i)

  abbrev Base : Fields A → Type 0
  Base x =
      (buffer (read_by it) x ≡ buffer (read_by it) s)
      × ((buffer (written_by it) x).size ≡ volume sz.fs)

  -- All cells of a subgrid have what belongs there.
  abbrev IsDone : Fields A → D3 → Type 0
  IsDone x l =
      (k j i : ℕ) → InBounds (bounds depth sz.ls l) k j i → HasDue at IsDue (cell sz.fs k j i) x

  compute_one :
      (l : D3) (x : Fields A)
      → IsInside lt l
      → Base x
      → (x' : Fields A) × (compute add scale sz.fs depth (bounds depth sz.ls l) it x ≡ (x', ok tt))
        × Base x'
        × Keeps at IsDue x x'
        × IsDone x' l
  compute_one l x inside (same, sized) =
      let b = bounds depth sz.ls l in
      let placed = bounds-IsPlaced n depth pt lt l sz checked inside in
      let (x', e, v, keeps, layers) =
        compute-Updates add scale sz.fs depth it b placed s size x
          (record { same = same; sized = sized }) in
      (
        x',
        e,
        (v.same, v.sized),
        λ m. elim (keeps m) [
          | inl kept ↦ inl kept
          | inr (k, j, i, h, e, is) ↦ inr (l, inside, k, j, i, h, e, is)
        ],
        λ k j i h.
            let (k', j', i', h', e, is) = layers k h.0 h.1 j h.2 h.3 i h.4 h.5 in
            (l, inside, k', j', i', h', e, is),
      )

  compute_all-Updates :
      (order : List D3) (x : Fields A)
      → All (IsInside lt) order
      → Base x
      → (x' : Fields A) × (compute_all add scale depth it sz order x ≡ (x', ok tt))
        × Base x'
        × Keeps at IsDue x x'
        × All (IsDone x') order
  compute_all-Updates [] x inside v = (x, refl, v, Keeps-reflexive at IsDue x, tt)
  compute_all-Updates (l ∷ order) x inside v =
      let (x1, e1, v1, keeps1, done1) = compute_one l x inside.0 v in
      let (x2, e2, v2, keeps2, done2) = compute_all-Updates order x1 inside.1 v1 in
      (
        x2,
        rw e1 e2,
        v2,
        Keeps-transitive at IsDue x x1 x2 keeps1 keeps2,
        ((λ k j i h. HasDue-stays at IsDue (cell sz.fs k j i) x1 x2 keeps2 (done1 k j i h)), done2),
      )

  in_row :
      (l : D3) (k j i : ℕ)
      → IsInside lt l
      → InBounds (bounds depth sz.ls l) k j i
      → (j < sz.fs.y) × (i < sz.fs.x)
  in_row l k j i inside h =
      let placed = bounds-IsPlaced n depth pt lt l sz checked inside in
      (omega (arith, placed.y1), omega (arith, placed.x1))

  due_value :
      (l : D3) (k j i : ℕ) (v : A)
      → IsInside lt l
      → InBounds (bounds depth sz.ls l) k j i
      → IsDue (cell sz.fs k j i) v
      → v ≡ value k j i
  due_value l k j i v inside h (l', inside', k', j', i', h', e, is) =
      let row = in_row l k j i inside h in
      let row' = in_row l' k' j' i' inside' h' in
      let (ek, ej, ei) = cell-injective sz.fs k j i k' j' i' row.0 row.1 row'.0 row'.1 e in
      is ∙ sym (λ t. value (ek t) (ej t) (ei t))

  done_values :
      (order : List D3) (x : Fields A)
      → All (IsInside lt) order
      → All (IsDone x) order
      → All
          (λ l.
            (k j i : ℕ)
            → InBounds (bounds depth sz.ls l) k j i
            → grid sz.fs (buffer (written_by it) x) k j i ≡ value k j i)
          order
  done_values [] x inside done = tt
  done_values (l ∷ order) x inside done = (
    (λ k j i h. due_value l k j i _ inside.0 h (done.0 k j i h)),
    done_values order x inside.1 done.1,
  )

-- Computing subgrids in an order returns. It leaves the grid that is read alone; in the other one each
-- cell of each of the subgrids is the updated one, and all cells outside of all subgrids of the process stay.
abbrev pub ComputesAll :
    {A : Type 0} (add : A → A → A) (scale : A → A) (depth it : ℕ) (lt : D3) (sz : Sizes)
    → List D3
    → Fields A
    → Type 0
ComputesAll {A} add scale depth it lt sz order s =
    (s' : Fields A) × (compute_all add scale depth it sz order s ≡ (s', ok tt))
    × (buffer (read_by it) s' ≡ buffer (read_by it) s)
    × All
        (λ l.
          (k j i : ℕ)
          → InBounds (bounds depth sz.ls l) k j i
          → grid sz.fs (buffer (written_by it) s') k j i
            ≡ updated add scale (grid sz.fs (buffer (read_by it) s)) depth k j i)
        order
    × ((k j i : ℕ)
        → j < sz.fs.y
        → i < sz.fs.x
        → ((l : D3) → IsInside lt l → ¬ InBounds (bounds depth sz.ls l) k j i)
        → grid sz.fs (buffer (written_by it) s') k j i
          ≡ grid sz.fs (buffer (written_by it) s) k j i)

-- In a process whose sizes pass the checks of `initialize`, and with memory of these sizes, computing any
-- subgrids of the process one after the other, in any order, returns, leaves the grid that is read alone,
-- writes in each cell of these subgrids the scaled sum of the cell and its neighbours up to the depth in
-- the grid that is read, and leaves all cells outside of the subgrids of the process alone.
pub compute_any_order :
    {A : Type 0} (add : A → A → A) (scale : A → A) (n depth it : ℕ) (pt lt : D3) (sz : Sizes)
    (order : List D3) (s : Fields A)
    → sizes n depth pt lt ≡ some sz
    → All (IsInside lt) order
    → s.u.size ≡ volume sz.fs
    → s.un.size ≡ volume sz.fs
    → ComputesAll add scale depth it lt sz order s
compute_any_order add scale n depth it pt lt sz order s checked inside size_u size_un =
    let size : (buffer (read_by it) s).size ≡ volume sz.fs = elim (Bool-cases (it % 2 == 0)) [
      | inl e ↦ rw e size_u
      | inr e ↦ rw e size_un
    ] in
    let sized : (buffer (written_by it) s).size ≡ volume sz.fs = elim (Bool-cases (it % 2 == 0)) [
      | inl e ↦ rw e size_un
      | inr e ↦ rw e size_u
    ] in
    let (s', e, v, keeps, done) =
      compute_all-Updates add scale n depth it pt lt sz s checked size order s inside
        (refl, sized) in
    (
      s',
      e,
      v.0,
      done_values add scale n depth it pt lt sz s checked size order s' inside done,
      λ k j i lj li out. elim (keeps (cell sz.fs k j i)) [
        | inl same ↦ same
        | inr (l, l_inside, k', j', i', h, e, _) ↦
            let row = in_row add scale n depth it pt lt sz s checked size l k' j' i' l_inside h in
            let same = cell-injective sz.fs k j i k' j' i' lj li row.0 row.1 e in
            absurd (out l l_inside (ground (arith, same)))
      ],
    )
