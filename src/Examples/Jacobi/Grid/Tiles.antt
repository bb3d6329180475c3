-- ===== src/Examples/Jacobi/Grid/Tiles.antt =====
-- The loop over tiles ends by its test, and its tiles make up the whole range.
use task_r.Base.{
  ℕ, zero, suc, ◌+◌, ◌≤◌, ◌<◌, ◌≡◌, inl, inr, arith, refl, false, M, ltb, if◌then◌else◌,
  Establishes, Bool-cases, dec_lt,
}
use task_r.Examples.Jacobi.Grid.{for_blocks}

module _ {S : Type 0} (Base : S → Type 0) (Keeps : S → S → Type 0) (reflexive : (s : S) → Keeps s s)
    (transitive : (s s' s'' : S) → Keeps s s' → Keeps s' s'' → Keeps s s'') (Good : ℕ → S → Type 0)
    (stays : (k : ℕ) (s s' : S) → Keeps s s' → Good k s → Good k s') where
  -- Every index of a range is good.
  abbrev pub Through : (a c : ℕ) → S → Type 0
  Through a c s = (k : ℕ) → a ≤ k → k < c → Good k s

  pub for_blocks-Establishes :
      (fuel lo hi block : ℕ) (body : ℕ → ℕ → M S (Unit {0}))
      → 0 < block
      → hi ≤ lo + fuel
      → ((a c : ℕ) (s : S)
          → lo ≤ a
          → c ≤ hi
          → Base s
          → Establishes Base Keeps reflexive transitive (body a c) (Through a c) s)
      → (s : S) → Base s
      → Establishes Base Keeps reflexive transitive
          (for_blocks fuel lo hi block body)
          (Through lo hi)
          s
  unfolding for_blocks
  for_blocks-Establishes zero lo hi block body positive enough step s base =
      let done : ltb lo hi ≡ false = ground arith in
      rw done (s, refl, base, reflexive s, λ k le lt. absurd (omega arith))
  for_blocks-Establishes (suc fuel) lo hi block body positive enough step s base =
      elim (Bool-cases (ltb lo hi)) [
        | inr done ↦ rw done (s, refl, base, reflexive s, λ k le lt. absurd (ground arith))
        | inl more ↦
            let c : ℕ = if ltb (lo + block) hi then lo + block else hi in
            let below : c ≤ hi = ground arith in
            let reached : (hi ≤ lo + block → c ≡ hi) = λ le. ground arith in
            let next : (lo + block < hi → c ≡ lo + block) = λ lt. ground arith in
            let (s1, e, base1, keeps1, good1) = step lo c s (omega arith) below base in
            let (s2, f, base2, keeps2, good2) =
              for_blocks-Establishes fuel (lo + block) hi block body positive (omega arith)
                (λ a c s le le'. step a c s (omega arith) le') s1 base1 in
            rw more (
              s2,
              rw e f,
              base2,
              transitive s s1 s2 keeps1 keeps2,
              λ k le lt. elim (dec_lt k (lo + block)) [
                | yes first ↦ stays k s1 s2 keeps2 (good1 k le (ground arith))
                | no later ↦ good2 k (omega arith) lt
              ],
            )
      ]
