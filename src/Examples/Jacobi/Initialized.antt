-- ===== src/Examples/Jacobi/Initialized.antt =====
-- The faces that `Grid::initialize` finds with the numbers that it gave.
use task_r.Base.{◌≡◌, subst, sym}
use task_r.Examples.Jacobi.{D3, Numbering, number}
use task_r.Examples.Jacobi.Numbers.{IsInside, number_of, number_lem}
use task_r.Examples.Jacobi.Neighbours.{FacesFind, faces-FacesFind}

pub mapped :
    (t : D3) (s : Numbering)
    → s.current ≡ 0
    → (q : D3) → IsInside t q
    → (number t s).0.mapping q.z q.y q.x ≡ number_of t q
mapped t s e q inside =
    let (s', f, v) = number_lem t s e in
    subst (λ x. x.0.mapping q.z q.y q.x ≡ number_of t q) (sym f) (v q inside).0

-- With the processes and the subgrids numbered by the loops of `initialize`, from zero and in any memory,
-- each of the six faces of a subgrid is a boundary exactly where the subgrid is at that edge of the whole
-- grid; and otherwise the process and the subgrid that it names are those of the next place of the whole
-- grid in that direction.
pub number-FacesFind :
    (pt lt p l : D3) (s s' : Numbering)
    → s.current ≡ 0
    → s'.current ≡ 0
    → IsInside pt p
    → IsInside lt l
    → FacesFind (number pt s).0.mapping (number lt s').0.mapping pt lt p l
number-FacesFind pt lt p l s s' e e' inside l_inside =
    faces-FacesFind (number pt s).0.mapping (number lt s').0.mapping pt lt p l (mapped pt s e)
      (mapped lt s' e') inside l_inside
