-- ===== src/Examples/Jacobi.antt =====
-- examples/jacobi3d/source/grid.cpp: how `Grid::initialize` numbers the processes and the subgrids of a
-- process, and what it finds beside each subgrid. The order of the arguments of a position is z, y, x.
pub mod Numbers
pub mod Directions
pub mod Neighbours
pub mod Initialized
pub mod Grid
pub mod Halo
pub mod Channels
pub mod Reset
pub mod TaskNames
use task_r.Base.{
  ℕ, ◌+◌, ◌-◌, ◌*◌, ◌/◌, ◌%◌, ◌==◌, ◌&&◌, ◌||◌, if◌then◌else◌, Bool, true, false, Option, none,
  some, M, modify, pure, ok, for_from, ltb,
}

-- `D3` and `commType`.
pub record D3 : Type 0 where
  pub x : ℕ
  pub y : ℕ
  pub z : ℕ

pub data CommType : Type 0 where
  remote : CommType
  local : CommType
  boundary : CommType

pub record Neighbor : Type 0 where
  pub kind : CommType
  pub process_id : ℕ
  pub local_id : ℕ
  pub l_pos : D3

-- The checks of the topology, and the sizes: of a process with and without ghost cells, and of a
-- subgrid.
pub record Sizes : Type 0 where
  pub ps : D3
  pub fs : D3
  pub ls : D3

abbrev per : ℕ → D3 → D3
per n d = record { x = n / d.x; y = n / d.y; z = n / d.z }

abbrev divides : D3 → D3 → Bool
divides d n = n.x % d.x == 0 && n.y % d.y == 0 && n.z % d.z == 0

unfoldable pub sizes : (n depth : ℕ) → (pt lt : D3) → Option Sizes
sizes n depth pt lt =
    let ps = per n pt in
    if divides pt (record { x = n; y = n; z = n })
    then if divides lt ps
      then some (record {
        ps = ps;
        fs = record { x = ps.x + 2 * depth; y = ps.y + 2 * depth; z = ps.z + 2 * depth };
        ls = record { x = ps.x / lt.x; y = ps.y / lt.y; z = ps.z / lt.z };
      })
      else none
    else none

-- Three loops over the positions of a topology.
abbrev pub for_positions : {S : Type 0} → D3 → (ℕ → ℕ → ℕ → M S (Unit {0})) → M S (Unit {0})
for_positions t body = for_from 0 t.z λ z. for_from 0 t.y λ y. for_from 0 t.x λ x. body z y x

-- `globalProcessMapping` with `globalRankX`, `globalRankY` and `globalRankZ`, and the next number.
pub record Numbering : Type 0 where
  pub mapping : ℕ → ℕ → ℕ → ℕ
  pub rank : ℕ → D3
  pub current : ℕ

unfoldable pub assign : (z y x : ℕ) → M Numbering (Unit {0})
assign z y x = modify λ s. record {
  mapping = λ z' y' x'. if z == z' && y == y' && x == x' then s.current else s.mapping z' y' x';
  rank = λ r. if s.current == r then record { x = x; y = y; z = z } else s.rank r;
  current = s.current + 1;
}

-- The numbers of the processes, and, without the ranks, those of the subgrids.
unfoldable pub number : D3 → M Numbering (Unit {0})
unfolding assign
number t = for_positions t assign

-- The search for the position of a subgrid.
unfoldable pub locate : (mapping : ℕ → ℕ → ℕ → ℕ) → (t : D3) → (local_id : ℕ) → M D3 (Unit {0})
locate mapping t local_id =
    for_positions t
      λ z y x. modify λ p. if mapping z y x == local_id then record { x = x; y = y; z = z } else p

-- The neighbours below and above a subgrid in one direction, where the subgrid is number `l` of `lt`,
-- and its process number `p` of `pt`: what they are, and their number in their process. A number
-- below zero is the last one of the process before.
abbrev pub kind_below : (l p : ℕ) → CommType
kind_below l p = if p == 0 && l == 0 then boundary else if l == 0 then remote else local

abbrev pub place_below : (l lt : ℕ) → ℕ
place_below l lt = if l == 0 then lt - 1 else l - 1

abbrev pub kind_above : (l lt p pt : ℕ) → CommType
kind_above l lt p pt =
    if p == pt - 1 && l == lt - 1 then boundary else if l + 1 == lt then remote else local

abbrev pub place_above : (l lt : ℕ) → ℕ
place_above l lt = if l + 1 == lt then 0 else l + 1

abbrev pub process_of : CommType → (other own : ℕ) → ℕ
process_of remote other own = other
process_of local other own = own
process_of boundary other own = own

-- The faces `X0` and `X1`, `Y0` and `Y1`, `Z0` and `Z1` of the subgrid at `l` of the process at `p`.
module _ (processes subgrids : ℕ → ℕ → ℕ → ℕ) (pt lt : D3) (process_id : ℕ) (p l : D3) where
  unfoldable pub x0 : Neighbor
  x0 = record {
    kind = kind_below l.x p.x;
    l_pos = record { x = place_below l.x lt.x; y = l.y; z = l.z };
    local_id = subgrids l.z l.y (place_below l.x lt.x);
    process_id = process_of (kind_below l.x p.x) (processes p.z p.y (p.x - 1)) process_id;
  }

  unfoldable pub x1 : Neighbor
  x1 = record {
    kind = kind_above l.x lt.x p.x pt.x;
    l_pos = record { x = place_above l.x lt.x; y = l.y; z = l.z };
    local_id = subgrids l.z l.y (place_above l.x lt.x);
    process_id = process_of (kind_above l.x lt.x p.x pt.x) (processes p.z p.y (p.x + 1)) process_id;
  }

  unfoldable pub y0 : Neighbor
  y0 = record {
    kind = kind_below l.y p.y;
    l_pos = record { x = l.x; y = place_below l.y lt.y; z = l.z };
    local_id = subgrids l.z (place_below l.y lt.y) l.x;
    process_id = process_of (kind_below l.y p.y) (processes p.z (p.y - 1) p.x) process_id;
  }

  unfoldable pub y1 : Neighbor
  y1 = record {
    kind = kind_above l.y lt.y p.y pt.y;
    l_pos = record { x = l.x; y = place_above l.y lt.y; z = l.z };
    local_id = subgrids l.z (place_above l.y lt.y) l.x;
    process_id = process_of (kind_above l.y lt.y p.y pt.y) (processes p.z (p.y + 1) p.x) process_id;
  }

  unfoldable pub z0 : Neighbor
  z0 = record {
    kind = kind_below l.z p.z;
    l_pos = record { x = l.x; y = l.y; z = place_below l.z lt.z };
    local_id = subgrids (place_below l.z lt.z) l.y l.x;
    process_id = process_of (kind_below l.z p.z) (processes (p.z - 1) p.y p.x) process_id;
  }

  unfoldable pub z1 : Neighbor
  z1 = record {
    kind = kind_above l.z lt.z p.z pt.z;
    l_pos = record { x = l.x; y = l.y; z = place_above l.z lt.z };
    local_id = subgrids (place_above l.z lt.z) l.y l.x;
    process_id = process_of (kind_above l.z lt.z p.z pt.z) (processes (p.z + 1) p.y p.x) process_id;
  }
