-- ===== src/Examples/Jacobi/Halo/Positions.antt =====
-- Loops over positions whose rounds count up an index and write what belongs to each position.
use task_r.Base.{
  ℕ, suc, ◌<◌, ◌≡◌, arith, sym, subst, M, ok, ℕ_discrete, Keeps, HasDue, Keeps-reflexive,
  Keeps-transitive, HasDue-stays,
}
use task_r.Examples.Jacobi.{D3, for_positions}
use task_r.Examples.Jacobi.Numbers.{
  place, IsInside, place-lt, place-injective, for_positions-Invariant,
}

module _ {S L A : Type 0} (at : S → L → A) (IsDue : L → A → Type 0) (Base : S → Type 0)
    (counter : S → ℕ) (spot : (z y x : ℕ) → L) where
  record Reached (t : D3) (s : S) (c : ℕ) (x : S) : Type 0 where
    base : Base x
    count : counter x ≡ c
    keeps : Keeps at IsDue s x
    done :
        (z y k : ℕ)
        → IsInside t (record { z = z; y = y; x = k })
        → place t z y k < c
        → HasDue at IsDue (spot z y k) x

  -- A round at a position writes what belongs there, and counts.
  abbrev pub Round : D3 → (ℕ → ℕ → ℕ → M S (Unit {0})) → Type 0
  Round t body =
      (z y k : ℕ) (x : S)
      → IsInside t (record { z = z; y = y; x = k })
      → Base x
      → counter x ≡ place t z y k
      → (x' : S) × (body z y k x ≡ (x', ok tt))
        × Base x'
        × (counter x' ≡ suc (place t z y k))
        × Keeps at IsDue x x'
        × HasDue at IsDue (spot z y k) x'

  advance-Reached :
      (t : D3) (body : ℕ → ℕ → ℕ → M S (Unit {0})) (s : S)
      → Round t body
      → (z y k : ℕ) (x : S) → z < t.z
      → y < t.y
      → k < t.x
      → Reached t s (place t z y k) x
      → (x' : S) × (body z y k x ≡ (x', ok tt)) × Reached t s (suc (place t z y k)) x'
  advance-Reached t body s step z y k x lz ly lk v =
      let (x', e, base, count, keeps, due) = step z y k x (lz, ly, lk) v.base v.count in
      (
        x',
        e,
        record {
          base = base;
          count = count;
          keeps = Keeps-transitive at IsDue s x x' v.keeps keeps;
          done = λ z' y' k' inside lt. elim (ℕ_discrete (place t z' y' k') (place t z y k)) [
            | yes same ↦
                let (ez, ey, ek) = place-injective t z' y' k' z y k inside.1 inside.2 ly lk same in
                subst (λ n. HasDue at IsDue n x') (sym (λ i. spot (ez i) (ey i) (ek i))) due
            | no earlier ↦
                HasDue-stays at IsDue (spot z' y' k') x x' keeps
                  (v.done z' y' k' inside (omega arith))
          ];
        },
      )

  -- The whole loop, from zero.
  pub for_positions-Writes :
      (t : D3) (body : ℕ → ℕ → ℕ → M S (Unit {0}))
      → Round t body
      → (s : S) → Base s
      → counter s ≡ 0
      → (s' : S) × (for_positions t body s ≡ (s', ok tt))
        × Base s'
        × Keeps at IsDue s s'
        × ((z y k : ℕ)
            → IsInside t (record { z = z; y = y; x = k })
            → HasDue at IsDue (spot z y k) s')
  for_positions-Writes t body step s base zero_count =
      let (s', e, v) =
        for_positions-Invariant (Reached t s) t body (advance-Reached t body s step) s (record {
          base = base;
          count = zero_count;
          keeps = Keeps-reflexive at IsDue s;
          done = λ z y k inside lt. absurd (omega arith);
        }) in
      (
        s',
        e,
        v.base,
        v.keeps,
        λ z y k inside. v.done z y k inside (place-lt t (record { z = z; y = y; x = k }) inside),
      )
