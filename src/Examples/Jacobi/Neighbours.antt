-- ===== src/Examples/Jacobi/Neighbours.antt =====
-- What is beside a subgrid, against the whole grid of subgrids: that of all processes, in which a subgrid
-- stands at its place in its process, after those of the processes before.
use task_r.Base.{sym, ℕ, ◌+◌, ◌-◌, ◌*◌, ◌≡◌, ◌≢◌, ◌↔◌, refl, ap, ◌∙◌}
use task_r.Examples.Jacobi.{
  D3, Neighbor, boundary, kind_below, kind_above, place_below, place_above, process_of, x0, x1, y0,
  y1, z0, z1,
}
use task_r.Examples.Jacobi.Numbers.{number_of, IsInside}
use task_r.Examples.Jacobi.Directions.{all-Above, all-Below}

-- The place of a subgrid in the whole grid of subgrids.
abbrev pub global : (lt p l : D3) → D3
global lt p l = record { x = p.x * lt.x + l.x; y = p.y * lt.y + l.y; z = p.z * lt.z + l.z }

-- One place is next to the other, in the direction of the one axis.
abbrev pub NextX : D3 → D3 → Type 0
NextX a b = (a.x + 1 ≡ b.x) × (a.y ≡ b.y) × (a.z ≡ b.z)

abbrev pub NextY : D3 → D3 → Type 0
NextY a b = (a.x ≡ b.x) × (a.y + 1 ≡ b.y) × (a.z ≡ b.z)

abbrev pub NextZ : D3 → D3 → Type 0
NextZ a b = (a.x ≡ b.x) × (a.y ≡ b.y) × (a.z + 1 ≡ b.z)

-- A face that says where its neighbour is: the process and the subgrid have these numbers, and the
-- place in the whole grid is as `Is` says.
pub record Located (pt lt : D3) (f : Neighbor) (Is : D3 → Type 0) : Type 0 where
  pub process : D3
  pub process_inside : IsInside pt process
  pub subgrid_inside : IsInside lt f.l_pos
  pub process_id : f.process_id ≡ number_of pt process
  pub local_id : f.local_id ≡ number_of lt f.l_pos
  pub place : Is (global lt process f.l_pos)

-- A face is a boundary exactly at the edge of the whole grid, and otherwise says where its neighbour is.
abbrev pub Finds : (pt lt : D3) → Neighbor → (edge : Type 0) → (D3 → Type 0) → Type 0
Finds pt lt f edge Is = ((f.kind ≡ boundary) ↔ edge) × (f.kind ≢ boundary → Located pt lt f Is)

-- All six faces of a subgrid at `l` in the process at `p`.
abbrev pub FacesFind : (processes subgrids : ℕ → ℕ → ℕ → ℕ) → (pt lt p l : D3) → Type 0
FacesFind processes subgrids pt lt p l =
    Finds pt lt (x0 processes subgrids pt lt (number_of pt p) p l) (p.x * lt.x + l.x ≡ 0)
      (λ g. NextX g (global lt p l))
    × Finds pt lt (x1 processes subgrids pt lt (number_of pt p) p l)
        (p.x * lt.x + l.x + 1 ≡ pt.x * lt.x) (λ g. NextX (global lt p l) g)
    × Finds pt lt (y0 processes subgrids pt lt (number_of pt p) p l) (p.y * lt.y + l.y ≡ 0)
        (λ g. NextY g (global lt p l))
    × Finds pt lt (y1 processes subgrids pt lt (number_of pt p) p l)
        (p.y * lt.y + l.y + 1 ≡ pt.y * lt.y) (λ g. NextY (global lt p l) g)
    × Finds pt lt (z0 processes subgrids pt lt (number_of pt p) p l) (p.z * lt.z + l.z ≡ 0)
        (λ g. NextZ g (global lt p l))
    × Finds pt lt (z1 processes subgrids pt lt (number_of pt p) p l)
        (p.z * lt.z + l.z + 1 ≡ pt.z * lt.z) (λ g. NextZ (global lt p l) g)

module _ (processes subgrids : ℕ → ℕ → ℕ → ℕ) (pt lt p l : D3)
    (numbers : (q : D3) → IsInside pt q → processes q.z q.y q.x ≡ number_of pt q)
    (places : (m : D3) → IsInside lt m → subgrids m.z m.y m.x ≡ number_of lt m)
    (inside : IsInside pt p) (l_inside : IsInside lt l) where
  x0-Finds :
      Finds pt lt
        (x0 processes subgrids pt lt (number_of pt p) p l)
        (p.x * lt.x + l.x ≡ 0)
        (λ g. NextX g (global lt p l))
  unfolding x0
  x0-Finds =
      let b = all-Below l.x lt.x p.x pt.x l_inside.2 inside.2 in
      (
        b.edge,
        λ inner. record {
          process = record p { x = b.process };
          process_inside = (inside.0, inside.1, b.process_lt);
          subgrid_inside = (l_inside.0, l_inside.1, b.place_lt);
          process_id =
              ap (process_of (kind_below l.x p.x) (processes p.z p.y (p.x - 1)))
                (sym (numbers p inside))
              ∙ b.process_eq (λ x. processes p.z p.y x) inner
              ∙ numbers (record p { x = b.process }) (inside.0, inside.1, b.process_lt);
          local_id =
              places (record l { x = place_below l.x lt.x }) (l_inside.0, l_inside.1, b.place_lt);
          place = (b.next inner, refl, refl);
        },
      )

  x1-Finds :
      Finds pt lt
        (x1 processes subgrids pt lt (number_of pt p) p l)
        (p.x * lt.x + l.x + 1 ≡ pt.x * lt.x)
        (λ g. NextX (global lt p l) g)
  unfolding x1
  x1-Finds =
      let b = all-Above l.x lt.x p.x pt.x l_inside.2 inside.2 in
      (
        b.edge,
        λ inner. record {
          process = record p { x = b.process };
          process_inside = (inside.0, inside.1, b.process_lt inner);
          subgrid_inside = (l_inside.0, l_inside.1, b.place_lt);
          process_id =
              ap (process_of (kind_above l.x lt.x p.x pt.x) (processes p.z p.y (p.x + 1)))
                (sym (numbers p inside))
              ∙ b.process_eq (λ x. processes p.z p.y x) inner
              ∙ numbers (record p { x = b.process }) (inside.0, inside.1, b.process_lt inner);
          local_id =
              places (record l { x = place_above l.x lt.x }) (l_inside.0, l_inside.1, b.place_lt);
          place = (sym (b.next inner), refl, refl);
        },
      )

  y0-Finds :
      Finds pt lt
        (y0 processes subgrids pt lt (number_of pt p) p l)
        (p.y * lt.y + l.y ≡ 0)
        (λ g. NextY g (global lt p l))
  unfolding y0
  y0-Finds =
      let b = all-Below l.y lt.y p.y pt.y l_inside.1 inside.1 in
      (
        b.edge,
        λ inner. record {
          process = record p { y = b.process };
          process_inside = (inside.0, b.process_lt, inside.2);
          subgrid_inside = (l_inside.0, b.place_lt, l_inside.2);
          process_id =
              ap (process_of (kind_below l.y p.y) (processes p.z (p.y - 1) p.x))
                (sym (numbers p inside))
              ∙ b.process_eq (λ y. processes p.z y p.x) inner
              ∙ numbers (record p { y = b.process }) (inside.0, b.process_lt, inside.2);
          local_id =
              places (record l { y = place_below l.y lt.y }) (l_inside.0, b.place_lt, l_inside.2);
          place = (refl, b.next inner, refl);
        },
      )

  y1-Finds :
      Finds pt lt
        (y1 processes subgrids pt lt (number_of pt p) p l)
        (p.y * lt.y + l.y + 1 ≡ pt.y * lt.y)
        (λ g. NextY (global lt p l) g)
  unfolding y1
  y1-Finds =
      let b = all-Above l.y lt.y p.y pt.y l_inside.1 inside.1 in
      (
        b.edge,
        λ inner. record {
          process = record p { y = b.process };
          process_inside = (inside.0, b.process_lt inner, inside.2);
          subgrid_inside = (l_inside.0, b.place_lt, l_inside.2);
          process_id =
              ap (process_of (kind_above l.y lt.y p.y pt.y) (processes p.z (p.y + 1) p.x))
                (sym (numbers p inside))
              ∙ b.process_eq (λ y. processes p.z y p.x) inner
              ∙ numbers (record p { y = b.process }) (inside.0, b.process_lt inner, inside.2);
          local_id =
              places (record l { y = place_above l.y lt.y }) (l_inside.0, b.place_lt, l_inside.2);
          place = (refl, sym (b.next inner), refl);
        },
      )

  z0-Finds :
      Finds pt lt
        (z0 processes subgrids pt lt (number_of pt p) p l)
        (p.z * lt.z + l.z ≡ 0)
        (λ g. NextZ g (global lt p l))
  unfolding z0
  z0-Finds =
      let b = all-Below l.z lt.z p.z pt.z l_inside.0 inside.0 in
      (
        b.edge,
        λ inner. record {
          process = record p { z = b.process };
          process_inside = (b.process_lt, inside.1, inside.2);
          subgrid_inside = (b.place_lt, l_inside.1, l_inside.2);
          process_id =
              ap (process_of (kind_below l.z p.z) (processes (p.z - 1) p.y p.x))
                (sym (numbers p inside))
              ∙ b.process_eq (λ z. processes z p.y p.x) inner
              ∙ numbers (record p { z = b.process }) (b.process_lt, inside.1, inside.2);
          local_id =
              places (record l { z = place_below l.z lt.z }) (b.place_lt, l_inside.1, l_inside.2);
          place = (refl, refl, b.next inner);
        },
      )

  z1-Finds :
      Finds pt lt
        (z1 processes subgrids pt lt (number_of pt p) p l)
        (p.z * lt.z + l.z + 1 ≡ pt.z * lt.z)
        (λ g. NextZ (global lt p l) g)
  unfolding z1
  z1-Finds =
      let b = all-Above l.z lt.z p.z pt.z l_inside.0 inside.0 in
      (
        b.edge,
        λ inner. record {
          process = record p { z = b.process };
          process_inside = (b.process_lt inner, inside.1, inside.2);
          subgrid_inside = (b.place_lt, l_inside.1, l_inside.2);
          process_id =
              ap (process_of (kind_above l.z lt.z p.z pt.z) (processes (p.z + 1) p.y p.x))
                (sym (numbers p inside))
              ∙ b.process_eq (λ z. processes z p.y p.x) inner
              ∙ numbers (record p { z = b.process }) (b.process_lt inner, inside.1, inside.2);
          local_id =
              places (record l { z = place_above l.z lt.z }) (b.place_lt, l_inside.1, l_inside.2);
          place = (refl, refl, sym (b.next inner));
        },
      )

  -- Together, where both are numbered by their positions in rows.
  pub faces-FacesFind : FacesFind processes subgrids pt lt p l
  faces-FacesFind = (x0-Finds, x1-Finds, y0-Finds, y1-Finds, z0-Finds, z1-Finds)
