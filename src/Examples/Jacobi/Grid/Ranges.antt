-- ===== src/Examples/Jacobi/Grid/Ranges.antt =====
-- Loops over a region whose rounds write what belongs to some places.
use task_r.Base.{ℕ, M, Writes, for_range-Writes}
use task_r.Examples.Jacobi.Grid.{Bounds, for_ranges}
use task_r.Examples.Jacobi.Grid.Cells.{InBounds}

module _ {S L A : Type 0} (at : S → L → A) (IsDue : L → A → Type 0) (Base : S → Type 0) where
  -- The places of the rounds at the positions of a region.
  abbrev pub AtRegion : Bounds → (ℕ → ℕ → ℕ → L → Type 0) → L → Type 0
  AtRegion b At n = (k : ℕ) × (j : ℕ) × (i : ℕ) × InBounds b k j i × At k j i n

  pub for_ranges-Writes :
      (b : Bounds) (body : ℕ → ℕ → ℕ → M S (Unit {0})) (At : ℕ → ℕ → ℕ → L → Type 0)
      → ((k j i : ℕ) (x : S)
          → InBounds b k j i
          → Base x
          → Writes at IsDue Base (body k j i) (At k j i) x)
      → (x : S) → Base x
      → Writes at IsDue Base (for_ranges b body) (AtRegion b At) x
  for_ranges-Writes b body At step x base =
      let (x', e, base', keeps, due) =
        for_range-Writes at IsDue Base b.start.z b.finish.z _ _
          (λ k x kl ku base.
            for_range-Writes at IsDue Base b.start.y b.finish.y _ _
              (λ j x jl ju base.
                for_range-Writes at IsDue Base b.start.x b.finish.x (body k j) (At k j)
                  (λ i x il iu base. step k j i x (kl, ku, jl, ju, il, iu) base) x base)
              x base)
          x base in
      (
        x',
        e,
        base',
        keeps,
        λ n (k, j, i, h, here). due n (k, h.0, h.1, (j, h.2, h.3, (i, h.4, h.5, here))),
      )
