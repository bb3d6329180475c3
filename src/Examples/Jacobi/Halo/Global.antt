-- ===== src/Examples/Jacobi/Halo/Global.antt =====
-- The exchange against one grid of all processes.
use task_r.Base.{ℕ, ◌≤◌, ◌≡◌, arith, ◌∙◌, true, some, ok}
use task_r.Examples.Jacobi.{D3, Sizes, sizes}
use task_r.Examples.Jacobi.Numbers.{IsInside}
use task_r.Examples.Jacobi.Grid.{bounds, buffer, written_by}
use task_r.Examples.Jacobi.Grid.Cells.{InBounds, grid}
use task_r.Examples.Jacobi.Grid.Global.{Agrees, offset}
use task_r.Examples.Jacobi.Halo.{
  Face, face_x0, is_remote, extent, edge, ghost, Packing, pack, unpack,
}
use task_r.Examples.Jacobi.Halo.Places.{at_position}
use task_r.Examples.Jacobi.Halo.Exchange.{
  opposite, kind_at, process_at, subgrid_at, HasMemory, unpack-pack,
}

-- A subgrid is at least as long as the depth in each direction.
abbrev pub IsDeep : (depth : ℕ) → D3 → Type 0
IsDeep depth ls = (depth ≤ ls.z) × (depth ≤ ls.y) × (depth ≤ ls.x)

-- The cells that are packed are then the subgrid's own.
edge-InBounds :
    (depth : ℕ) (ls l : D3) (f : Face) (d r c : ℕ)
    → IsDeep depth ls
    → IsInside (extent depth ls f) (at_position d r c)
    → (let own = edge depth (bounds depth ls l) f d r c in
        InBounds (bounds depth ls l) own.z own.y own.x)
unfolding bounds
edge-InBounds depth ls l face_x0 d r c deep h = omega arith
edge-InBounds depth ls l _ d r c deep h = omega arith

-- In processes whose sizes pass the checks of `initialize` and whose subgrids are as long as the depth, take a
-- subgrid whose cells, in the grid that the iteration wrote, are those of a whole grid at their places
-- among all processes, and a neighbour in another process at a face, whose unpack buffer of the opposite
-- face is what the subgrid packs for that face. Then `pack` and the neighbour's `unpack` return, and
-- beside its face the neighbour has the cells of the whole grid at their places.
pub exchange_whole :
    {A : Type 0} (n depth it : ℕ) (pt lt p l : D3) (sz : Sizes) (f : Face) (whole : ℕ → ℕ → ℕ → A)
    (s r : Packing A)
    → sizes n depth pt lt ≡ some sz
    → IsDeep depth sz.ls
    → IsInside pt p
    → IsInside lt l
    → is_remote (kind_at pt lt p l f) ≡ true
    → HasMemory depth it sz (kind_at pt lt p l) s
    → HasMemory depth it sz (kind_at pt lt (process_at f p) (subgrid_at f lt l)) r
    → r.slot (opposite f)
      ≡ (pack sz.fs depth sz.ls (bounds depth sz.ls l) it (kind_at pt lt p l) s).0.slot f
    → ((k j i : ℕ)
        → InBounds (bounds depth sz.ls l) k j i
        → Agrees (grid sz.fs (buffer (written_by it) s.fields)) whole (offset sz.ps p) k j i)
    → ((pack sz.fs depth sz.ls (bounds depth sz.ls l) it (kind_at pt lt p l) s).1 ≡ ok tt)
      × (r' : Packing A) × (unpack sz.fs depth sz.ls
            (bounds depth sz.ls (subgrid_at f lt l))
            it
            (kind_at pt lt (process_at f p) (subgrid_at f lt l))
            r
          ≡ (r', ok tt))
      × ((d y x : ℕ)
          → IsInside (extent depth sz.ls f) (at_position d y x)
          → (let c = ghost (bounds depth sz.ls (subgrid_at f lt l)) (opposite f) d y x in
              Agrees
                (grid sz.fs (buffer (written_by it) r'.fields))
                whole
                (offset sz.ps (process_at f p))
                c.z
                c.y
                c.x))
exchange_whole n depth it pt lt p l sz f whole s r checked deep inside l_inside far sender receiver
      brought agrees =
    let (e, r', e', received) =
      unpack-pack n depth it pt lt p l sz f s r checked inside l_inside far sender receiver
        brought in
    (
      e,
      r',
      e',
      λ d y x h.
          let own = edge depth (bounds depth sz.ls l) f d y x in
          let (value, (ez, ey, ex)) = received d y x h in
          value
          ∙ agrees own.z own.y own.x (edge-InBounds depth sz.ls l f d y x deep h)
          ∙ (λ t. whole (ez t) (ey t) (ex t)),
    )
