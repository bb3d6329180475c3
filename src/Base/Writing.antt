-- ===== src/Base/Writing.antt =====
-- Code that writes to each place only what belongs there: any part of it may run again, or overlap
-- with another, and what was written stays right.
use mathlib.Core.Path.{◌≡◌, refl, sym, subst, ◌∙◌}
use mathlib.Core.Logic.{◌⊎◌, inl, inr}
use mathlib.Core.List.{List, [], ◌∷◌}
use Prim.Native.Nat.{ℕ, ◌-◌, ◌≤◌, ◌<◌}
use native.Mathlib.Omega.{arith}
use task_r.Base.Loops.{for_from-Establishes}
use task_r.Base.Results.{M, ok, each_of, for_from}
use task_r.Base.Lists.{All}

-- What stands at a place of a state, and what may belong there.
module _ {S L A : Type 0} (at : S → L → A) (IsDue : L → A → Type 0) where
  -- Each place is unchanged or has what belongs there.
  abbrev pub Keeps : S → S → Type 0
  Keeps x x' = (n : L) → (at x' n ≡ at x n) ⊎ IsDue n (at x' n)

  abbrev pub HasDue : L → S → Type 0
  HasDue n x = IsDue n (at x n)

  pub Keeps-reflexive : (x : S) → Keeps x x
  Keeps-reflexive x n = inl refl

  pub Keeps-transitive : (x x' x'' : S) → Keeps x x' → Keeps x' x'' → Keeps x x''
  Keeps-transitive x x' x'' h h' n = elim (h' n) [
    | inr new ↦ inr new
    | inl e ↦ elim (h n) [ inl e' ↦ inl (e ∙ e') | inr old ↦ inr (subst (IsDue n) (sym e) old) ]
  ]

  pub HasDue-stays : (n : L) (x x' : S) → Keeps x x' → HasDue n x → HasDue n x'
  HasDue-stays n x x' h due = elim (h n) [ inl e ↦ subst (IsDue n) (sym e) due | inr new ↦ new ]

  -- A call that returns, keeps a property of the state, and writes what belongs to some places.
  abbrev pub Writes : (S → Type 0) → M S (Unit {0}) → (L → Type 0) → S → Type 0
  Writes Base m At x =
      (x' : S) × (m x ≡ (x', ok tt)) × Base x' × Keeps x x' × ((n : L) → At n → HasDue n x')

  pub each_of-Writes :
      {E : Type 0} (Base : S → Type 0) (es : List E) (body : E → M S (Unit {0}))
      (At : E → L → Type 0)
      → ((e : E) (x : S) → Base x → Writes Base (body e) (At e) x)
      → (x : S) → Base x
      → (x' : S) × (each_of es body x ≡ (x', ok tt))
        × Base x'
        × Keeps x x'
        × All (λ e. (n : L) → At e n → HasDue n x') es
  each_of-Writes Base [] body At step x base = (x, refl, base, Keeps-reflexive x, tt)
  each_of-Writes Base (e ∷ es) body At step x base =
      let (x1, p, base1, keeps1, due1) = step e x base in
      let (x2, q, base2, keeps2, due2) = each_of-Writes Base es body At step x1 base1 in
      (
        x2,
        rw p q,
        base2,
        Keeps-transitive x x1 x2 keeps1 keeps2,
        ((λ n h. HasDue-stays n x1 x2 keeps2 (due1 n h)), due2),
      )

  -- A round of a loop that writes to the places `At` its index.
  abbrev pub RoundWrites :
      (S → Type 0) → (lo hi : ℕ) → (ℕ → M S (Unit {0})) → (ℕ → L → Type 0) → Type 0
  RoundWrites Base lo hi body At =
      (k : ℕ) (x : S) → lo ≤ k → k < hi → Base x → Writes Base (body k) (At k) x

  -- A loop over a range.
  pub for_range-Writes :
      (Base : S → Type 0) (lo hi : ℕ) (body : ℕ → M S (Unit {0})) (At : ℕ → L → Type 0)
      → RoundWrites Base lo hi body At
      → (x : S) → Base x
      → Writes Base (for_from lo (hi - lo) body) (λ n. (k : ℕ) × (lo ≤ k) × (k < hi) × At k n) x
  for_range-Writes Base lo hi body At step x base =
      let (x', e, base', keeps, good) =
        for_from-Establishes Base Keeps Keeps-reflexive Keeps-transitive
          (λ k x. (n : L) → At k n → HasDue n x) lo (hi - lo) body
          (λ k x x' keeps good n h. HasDue-stays n x x' keeps (good n h))
          (λ k x le lt base. step k x le (omega arith) base) x base in
      (x', e, base', keeps, λ n (k, le, lt, h). good k le (omega arith) n h)
