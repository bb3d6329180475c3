-- ===== src/Tests/Jacobi.antt =====
-- Two processes in the direction of x, with two by two subgrids in the directions of x and y.
use task_r.Base.{ℕ, ◌+◌, ◌*◌, ◌≡◌, refl, ok, arith, none}
use task_r.Examples.Jacobi.{D3, Numbering, number, locate, sizes, x1, remote}
use task_r.Examples.Jacobi.Numbers.{number_of}
use task_r.Examples.Jacobi.Neighbours.{FacesFind}
use task_r.Examples.Jacobi.Initialized.{number-FacesFind}

abbrev pt : D3
pt = record { x = 2; y = 1; z = 1 }

abbrev lt : D3
lt = record { x = 2; y = 2; z = 1 }

abbrev nothing : Numbering
nothing = record { mapping = λ z y x. 0; rank = λ r. pt; current = 0 }

abbrev origin : D3
origin = record { x = 0; y = 0; z = 0 }

-- Subgrid (1, 1) of process 0: beside it in the direction of x is number 2 of process 1.
corner :
    x1 (λ z y x. x) (λ z y x. y * 2 + x) pt lt 0 origin (record { x = 1; y = 1; z = 0 })
    ≡ record { kind = remote; process_id = 1; local_id = 2; l_pos = record { x = 0; y = 1; z = 0 } }
unfolding x1
corner = refl

undivided : sizes 10 1 (record { x = 3; y = 1; z = 1 }) lt ≡ none
unfolding sizes
undivided = refl

-- Numbers by rows.
abbrev of_subgrids : (z y x : ℕ) → ℕ
of_subgrids z y x = number_of lt (record { x = x; y = y; z = z })

number-FacesFind_example :
    FacesFind
      (number pt nothing).0.mapping
      (number lt nothing).0.mapping
      pt
      lt
      origin
      (record { x = 1; y = 1; z = 0 })
number-FacesFind_example =
    number-FacesFind pt lt origin (record { x = 1; y = 1; z = 0 }) nothing nothing refl refl
      (omega arith) (omega arith)

searched : locate of_subgrids lt 3 origin ≡ (record { x = 1; y = 1; z = 0 }, ok tt)
unfolding locate
searched = refl
