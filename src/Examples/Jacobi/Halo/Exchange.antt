-- ===== src/Examples/Jacobi/Halo/Exchange.antt =====
-- A message between two neighbours: what one process packs at a face, the other one unpacks beside its
-- opposite face.
use task_r.Base.{ℕ, ◌+◌, ◌-◌, ◌*◌, ◌<◌, ◌≡◌, ◌≢◌, some, arith, refl, sym, ap, subst, ◌∙◌, true, ok}
use native.Mathlib.Nat.{add-mul, mul-add, div-add-mod'}
use task_r.Examples.Jacobi.{
  D3, Sizes, sizes, CommType, kind_below, kind_above, place_below, place_above,
}
use task_r.Examples.Jacobi.Numbers.{IsInside, place}
use task_r.Examples.Jacobi.Directions.{row_before}
use task_r.Examples.Jacobi.Grid.{bounds, written_by, buffer}
use task_r.Examples.Jacobi.Grid.Cells.{bounds-IsPlaced, volume}
use task_r.Examples.Jacobi.Halo.{
  Face, face_x0, face_x1, face_y0, face_y1, face_z0, face_z1, is_remote, extent, edge, ghost, index,
  Packing, pack, unpack,
}
use task_r.Examples.Jacobi.Halo.Places.{at_position, SameCell, room}
use task_r.Examples.Jacobi.Halo.Pack.{pack_lem}
use task_r.Examples.Jacobi.Halo.Unpack.{unpack_lem}

abbrev pub opposite : Face → Face
opposite face_x0 = face_x1
opposite face_x1 = face_x0
opposite face_y0 = face_y1
opposite face_y1 = face_y0
opposite face_z0 = face_z1
opposite face_z1 = face_z0

-- What is beside a face, and the positions of the process and the subgrid there.
abbrev pub kind_at : (pt lt p l : D3) → Face → CommType
kind_at pt lt p l face_x0 = kind_below l.x p.x
kind_at pt lt p l face_x1 = kind_above l.x lt.x p.x pt.x
kind_at pt lt p l face_y0 = kind_below l.y p.y
kind_at pt lt p l face_y1 = kind_above l.y lt.y p.y pt.y
kind_at pt lt p l face_z0 = kind_below l.z p.z
kind_at pt lt p l face_z1 = kind_above l.z lt.z p.z pt.z

abbrev pub process_at : Face → D3 → D3
process_at face_x0 p = record p { x = p.x - 1 }
process_at face_x1 p = record p { x = p.x + 1 }
process_at face_y0 p = record p { y = p.y - 1 }
process_at face_y1 p = record p { y = p.y + 1 }
process_at face_z0 p = record p { z = p.z - 1 }
process_at face_z1 p = record p { z = p.z + 1 }

abbrev pub subgrid_at : Face → (lt l : D3) → D3
subgrid_at face_x0 lt l = record l { x = place_below l.x lt.x }
subgrid_at face_x1 lt l = record l { x = place_above l.x lt.x }
subgrid_at face_y0 lt l = record l { y = place_below l.y lt.y }
subgrid_at face_y1 lt l = record l { y = place_above l.y lt.y }
subgrid_at face_z0 lt l = record l { z = place_below l.z lt.z }
subgrid_at face_z1 lt l = record l { z = place_above l.z lt.z }

-- The place in the grid of all processes of a cell of the process at `p`, counted from one depth before
-- its start.
abbrev pub everywhere : (ps p c : D3) → D3
everywhere ps p c = record { x = p.x * ps.x + c.x; y = p.y * ps.y + c.y; z = p.z * ps.z + c.z }

-- The neighbour in another process has this one in another process, on the opposite side.
pub opposite-remote :
    (pt lt p l : D3) (f : Face)
    → IsInside pt p
    → IsInside lt l
    → is_remote (kind_at pt lt p l f) ≡ true
    → is_remote (kind_at pt lt (process_at f p) (subgrid_at f lt l) (opposite f)) ≡ true
opposite-remote pt lt p l face_x0 inside l_inside far = ground arith
opposite-remote pt lt p l _ inside l_inside far = ground arith

pub subgrid_at-IsInside : (lt l : D3) (f : Face) → IsInside lt l → IsInside lt (subgrid_at f lt l)
subgrid_at-IsInside lt l face_x0 h = ground arith
subgrid_at-IsInside lt l _ h = ground arith

-- One direction.
cells_below :
    (ps ls lt depth d l p : ℕ)
    → ls * lt ≡ ps
    → l < lt
    → is_remote (kind_below l p) ≡ true
    → p * ps + (ls * l + depth + d) ≡ (p - 1) * ps + (ls * place_below l lt + depth + ls + d)
cells_below ps ls lt depth d l p e inside far =
    let first : l ≡ 0 = ground arith in
    let other : p ≢ 0 = λ z. ground arith in
    let last : place_below l lt ≡ lt - 1 = ground arith in
    let whole : lt - 1 + 1 ≡ lt = omega arith in
    omega (
      arith,
      ap (λ (m : ℕ). ls * m) first,
      ap (λ (m : ℕ). ls * m) last,
      ap (λ (m : ℕ). ls * m) whole,
      mul-add ls (lt - 1) 1,
      row_before p ps other,
    )

cells_above :
    (ps ls lt depth d l p pt : ℕ)
    → ls * lt ≡ ps
    → is_remote (kind_above l lt p pt) ≡ true
    → p * ps + (ls * l + depth + ls - depth + d) ≡ (p + 1) * ps + d
cells_above ps ls lt depth d l p pt e far =
    let last : l + 1 ≡ lt = ground arith in
    omega (arith, ap (λ (m : ℕ). ls * m) last, mul-add ls l 1, add-mul p 1 ps)

sizes_divide :
    (n depth : ℕ) (pt lt : D3) (sz : Sizes)
    → sizes n depth pt lt ≡ some sz
    → (sz.ls.z * lt.z ≡ sz.ps.z) × (sz.ls.y * lt.y ≡ sz.ps.y) × (sz.ls.x * lt.x ≡ sz.ps.x)
unfolding sizes
sizes_divide n depth pt lt sz e = (
  ground (arith, div-add-mod' sz.ps.z lt.z),
  ground (arith, div-add-mod' sz.ps.y lt.y),
  ground (arith, div-add-mod' sz.ps.x lt.x),
)

-- The cell that is packed and the one that is unpacked are the same cell of the whole grid.
same_place :
    (n depth : ℕ) (pt lt p l : D3) (sz : Sizes) (f : Face) (d r c : ℕ)
    → sizes n depth pt lt ≡ some sz
    → IsInside lt l
    → is_remote (kind_at pt lt p l f) ≡ true
    → SameCell (everywhere sz.ps p (edge depth (bounds depth sz.ls l) f d r c)) (
        everywhere sz.ps
          (process_at f p)
          (ghost (bounds depth sz.ls (subgrid_at f lt l)) (opposite f) d r c))
unfolding bounds
same_place n depth pt lt p l sz face_x0 d r c e inside far =
    let w = sizes_divide n depth pt lt sz e in
    (refl, refl, cells_below sz.ps.x sz.ls.x lt.x depth d l.x p.x w.2 inside.2 far)
same_place n depth pt lt p l sz face_x1 d r c e inside far =
    let w = sizes_divide n depth pt lt sz e in
    (refl, refl, cells_above sz.ps.x sz.ls.x lt.x depth d l.x p.x pt.x w.2 far)
same_place n depth pt lt p l sz face_y0 d r c e inside far =
    let w = sizes_divide n depth pt lt sz e in
    (refl, cells_below sz.ps.y sz.ls.y lt.y depth d l.y p.y w.1 inside.1 far, refl)
same_place n depth pt lt p l sz face_y1 d r c e inside far =
    let w = sizes_divide n depth pt lt sz e in
    (refl, cells_above sz.ps.y sz.ls.y lt.y depth d l.y p.y pt.y w.1 far, refl)
same_place n depth pt lt p l sz face_z0 d r c e inside far =
    let w = sizes_divide n depth pt lt sz e in
    (cells_below sz.ps.z sz.ls.z lt.z depth d l.z p.z w.0 inside.0 far, refl, refl)
same_place n depth pt lt p l sz face_z1 d r c e inside far =
    let w = sizes_divide n depth pt lt sz e in
    (cells_above sz.ps.z sz.ls.z lt.z depth d l.z p.z pt.z w.0 far, refl, refl)

extent-opposite :
    (depth : ℕ) (ls : D3) (f : Face) → extent depth ls (opposite f) ≡ extent depth ls f
extent-opposite depth ls face_x0 = refl
extent-opposite depth ls face_x1 = refl
extent-opposite depth ls face_y0 = refl
extent-opposite depth ls face_y1 = refl
extent-opposite depth ls face_z0 = refl
extent-opposite depth ls face_z1 = refl

-- The memory of a process: its grids, and the buffers of the faces to other processes, of these kinds.
pub record HasMemory {A : Type 0} (depth it : ℕ) (sz : Sizes) (kind : Face → CommType)
    (s : Packing A) : Type 0 where
  pub grid : (buffer (written_by it) s.fields).size ≡ volume sz.fs
  pub rooms : (f : Face) → is_remote (kind f) ≡ true → (s.slot f).size ≡ room (extent depth sz.ls f)

-- The sender's `pack` and the receiver's `unpack` return, and each cell that the receiver has beside its
-- face gets the value of the sender's cell at the same place of the whole grid.
abbrev pub Exchanges :
    {A : Type 0} (depth it : ℕ) (pt lt p l : D3) (sz : Sizes) (f : Face) (s r : Packing A) → Type 0
Exchanges {A} depth it pt lt p l sz f s r =
    ((pack sz.fs depth sz.ls (bounds depth sz.ls l) it (kind_at pt lt p l) s).1 ≡ ok tt)
    × (r' : Packing A) × (unpack sz.fs depth sz.ls (bounds depth sz.ls (subgrid_at f lt l)) it
          (kind_at pt lt (process_at f p) (subgrid_at f lt l)) r
        ≡ (r', ok tt))
    × ((d y x : ℕ)
        → IsInside (extent depth sz.ls f) (at_position d y x)
        → (let own = edge depth (bounds depth sz.ls l) f d y x in
            let other = ghost (bounds depth sz.ls (subgrid_at f lt l)) (opposite f) d y x in
            ((buffer (written_by it) r'.fields).at (index sz.fs other)
              ≡ (buffer (written_by it) s.fields).at (index sz.fs own))
            × SameCell (everywhere sz.ps p own) (everywhere sz.ps (process_at f p) other)))

-- In processes whose sizes pass the checks of `initialize`, take a subgrid with a neighbour in another
-- process at a face, and let the neighbour's unpack buffer of the opposite face be what the subgrid packs
-- for that face. Then `pack` and the neighbour's `unpack` return, and each cell that the neighbour has
-- beside its face gets the value of the sender's cell at the same place of the whole grid.
pub unpack-pack :
    {A : Type 0} (n depth it : ℕ) (pt lt p l : D3) (sz : Sizes) (f : Face) (s r : Packing A)
    → sizes n depth pt lt ≡ some sz
    → IsInside pt p
    → IsInside lt l
    → is_remote (kind_at pt lt p l f) ≡ true
    → HasMemory depth it sz (kind_at pt lt p l) s
    → HasMemory depth it sz (kind_at pt lt (process_at f p) (subgrid_at f lt l)) r
    → r.slot (opposite f)
      ≡ (pack sz.fs depth sz.ls (bounds depth sz.ls l) it (kind_at pt lt p l) s).0.slot f
    → Exchanges depth it pt lt p l sz f s r
unpack-pack n depth it pt lt p l sz f s r checked inside l_inside far sender receiver brought =
    let m = subgrid_at f lt l in
    let m_inside = subgrid_at-IsInside lt l f l_inside in
    let there = opposite-remote pt lt p l f inside l_inside far in
    let (s', e, _, _, _, _, sent) =
      pack_lem sz.fs depth sz.ls l (kind_at pt lt p l) it
        (bounds-IsPlaced n depth pt lt l sz checked l_inside) s sender.grid sender.rooms in
    let (r', e', _, _, _, received) =
      unpack_lem sz.fs depth sz.ls m (kind_at pt lt (process_at f p) m) it
        (bounds-IsPlaced n depth pt lt m sz checked m_inside) r receiver.grid receiver.rooms in
    let carried : r.slot (opposite f) ≡ s'.slot f = brought ∙ ap (λ q. q.0.slot f) e in
    (
      ap (λ q. q.1) e,
      r',
      e',
      λ d y x h. (
        received (opposite f) d y x there
              (subst (λ t. IsInside t (at_position d y x)) (sym (extent-opposite depth sz.ls f)) h)
            ∙ ap (λ w. w.at (place (extent depth sz.ls (opposite f)) d y x)) carried
            ∙ ap (λ t. (s'.slot f).at (place t d y x)) (extent-opposite depth sz.ls f)
            ∙ sent f d y x far h,
        same_place n depth pt lt p l sz f d y x checked l_inside far,
      ),
    )
