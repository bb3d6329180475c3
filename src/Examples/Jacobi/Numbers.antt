-- ===== src/Examples/Jacobi/Numbers.antt =====
-- The numbers are those of the positions in rows: the mapping and the ranks are inverse to one another,
-- and the search for a number finds its position.
use task_r.Base.{
  ℕ, suc, ◌+◌, ◌*◌, ◌/◌, ◌%◌, ◌<◌, ◌≡◌, ◌==◌, if◌then◌else◌, arith, refl, sym, subst, M, ok,
  for_from, for_from-Invariant, ap, ◌∙◌, Bool-cases, inl, inr,
}
use native.Mathlib.Nat.{suc-mul}
use task_r.Examples.Blocks.Indices.{flat-lt, flat-div, flat-mod}
use task_r.Examples.Jacobi.{D3, Numbering, for_positions, assign, number, locate}

-- The number of a position in rows.
abbrev pub place : D3 → (z y x : ℕ) → ℕ
place t z y x = (z * t.y + y) * t.x + x

next_row : (t : D3) (z y : ℕ) → place t z y (0 + t.x) ≡ (z * t.y + suc y) * t.x
next_row t z y =
    let e : z * t.y + suc y ≡ suc (z * t.y + y) = omega arith in
    omega (arith, ap (λ (k : ℕ). k * t.x) e, suc-mul (z * t.y + y) t.x)

first_row : (t : D3) (z : ℕ) → z * t.y * t.x ≡ (z * t.y + 0) * t.x
first_row t z = ap (λ (k : ℕ). k * t.x) (omega arith)

next_layer : (t : D3) (z : ℕ) → (z * t.y + (0 + t.y)) * t.x ≡ suc z * t.y * t.x
next_layer t z = ap (λ (k : ℕ). k * t.x) (omega (arith, suc-mul z t.y))

all_layers : (t : D3) → (0 + t.z) * t.y * t.x ≡ t.z * t.y * t.x
all_layers t = ap (λ (k : ℕ). k * t.y * t.x) (omega arith)

-- A loop over all positions whose rounds carry an invariant from one number to the next.
pub for_positions-Invariant :
    {S : Type 0} (I : ℕ → S → Type 0) (t : D3) (body : ℕ → ℕ → ℕ → M S (Unit {0}))
    → ((z y x : ℕ) (s : S)
        → z < t.z
        → y < t.y
        → x < t.x
        → I (place t z y x) s
        → (s' : S) × (body z y x s ≡ (s', ok tt)) × I (suc (place t z y x)) s')
    → (s : S) → I 0 s
    → (s' : S) × (for_positions t body s ≡ (s', ok tt)) × I (t.z * t.y * t.x) s'
for_positions-Invariant I t body step s v =
    let (s', e, w) =
      for_from-Invariant (λ z s. I (z * t.y * t.x) s) 0 t.z
        (λ z. for_from 0 t.y λ y. for_from 0 t.x λ x. body z y x)
        (λ z s lz vz.
          let (sy, ey, wy) =
            for_from-Invariant (λ y s. I ((z * t.y + y) * t.x) s) 0 t.y
              (λ y. for_from 0 t.x λ x. body z y x)
              (λ y s ly vy.
                let (sx, ex, wx) =
                  for_from-Invariant (λ x s. I (place t z y x) s) 0 t.x (body z y)
                    (λ x s lx vx.
                      let (s1, e1, w1) =
                        step z y x s (omega arith) (omega arith) (omega arith) vx in
                      (s1, e1, subst (λ k. I k s1) (omega arith) w1))
                    s (subst (λ k. I k s) (omega arith) vy) in
                (sx, ex, subst (λ k. I k sx) (next_row t z y) wx))
              s (subst (λ k. I k s) (first_row t z) vz) in
          (sy, ey, subst (λ k. I k sy) (next_layer t z) wy))
        s (subst (λ k. I k s) (omega arith) v) in
    (s', e, subst (λ k. I k s') (all_layers t) w)

pub place-injective :
    (t : D3) (z y x z' y' x' : ℕ)
    → y < t.y
    → x < t.x
    → y' < t.y
    → x' < t.x
    → place t z y x ≡ place t z' y' x'
    → (z ≡ z') × (y ≡ y') × (x ≡ x')
place-injective t z y x z' y' x' ly lx ly' lx' e =
    let row : z * t.y + y ≡ z' * t.y + y' =
      sym (flat-div (z * t.y + y) x t.x lx)
      ∙ ap (λ k. k / t.x) e
      ∙ flat-div (z' * t.y + y') x' t.x lx' in
    (
      sym (flat-div z y t.y ly) ∙ ap (λ k. k / t.y) row ∙ flat-div z' y' t.y ly',
      sym (flat-mod z y t.y ly) ∙ ap (λ k. k % t.y) row ∙ flat-mod z' y' t.y ly',
      sym (flat-mod (z * t.y + y) x t.x lx)
          ∙ ap (λ k. k % t.x) e
          ∙ flat-mod (z' * t.y + y') x' t.x lx',
    )

-- A position is inside a topology.
abbrev pub IsInside : D3 → D3 → Type 0
IsInside t p = (p.z < t.z) × (p.y < t.y) × (p.x < t.x)

abbrev pub number_of : D3 → D3 → ℕ
number_of t p = place t p.z p.y p.x

pub place-lt : (t p : D3) → IsInside t p → number_of t p < t.z * t.y * t.x
place-lt t p (lz, ly, lx) =
    flat-lt (p.z * t.y + p.y) p.x (t.z * t.y) t.x (flat-lt p.z p.y t.z t.y lz ly) lx

-- The numbers below `c` are given.
record Given (t : D3) (c : ℕ) (s : Numbering) : Type 0 where
  current : s.current ≡ c
  mapping : (z y x : ℕ) → y < t.y → x < t.x → place t z y x < c → s.mapping z y x ≡ place t z y x
  rank :
      (z y x : ℕ)
      → y < t.y
      → x < t.x
      → place t z y x < c
      → s.rank (place t z y x) ≡ record { x = x; y = y; z = z }

assign-Given :
    (t : D3) (z y x : ℕ) (s : Numbering)
    → y < t.y
    → x < t.x
    → Given t (place t z y x) s
    → (s' : Numbering) × (assign z y x s ≡ (s', ok tt)) × Given t (suc (place t z y x)) s'
unfolding assign
assign-Given t z y x s ly lx v = (
  (assign z y x s).0,
  refl,
  record {
    current = ground (arith, v.current);
    mapping = λ z' y' x' ly' lx' lt. ground (
      arith,
      v.current,
      v.mapping z' y' x' ly' lx',
      place-injective t z y x z' y' x' ly lx ly' lx',
    );
    rank = λ z' y' x' ly' lx' lt.
        ground (
          arith,
          v.current,
          v.rank z' y' x' ly' lx',
          place-injective t z y x z' y' x' ly lx ly' lx',
        );
  },
)

-- Numbering a topology from zero returns, gives each position its number in rows, and records for each
-- number its position.
pub number_lem :
    (t : D3) (s : Numbering)
    → s.current ≡ 0
    → (s' : Numbering) × (number t s ≡ (s', ok tt))
      × ((p : D3)
          → IsInside t p
          → (s'.mapping p.z p.y p.x ≡ number_of t p) × (s'.rank (number_of t p) ≡ p))
unfolding number
number_lem t s e =
    let (s', f, v) =
      for_positions-Invariant (Given t) t assign
        (λ z y x s lz ly lx w. assign-Given t z y x s ly lx w) s
        (record {
          current = e;
          mapping = λ z y x ly lx lt. absurd (omega arith);
          rank = λ z y x ly lx lt. absurd (omega arith);
        }) in
    (
      s',
      f,
      λ p inside. (
        v.mapping p.z p.y p.x inside.1 inside.2 (place-lt t p inside),
        v.rank p.z p.y p.x inside.1 inside.2 (place-lt t p inside),
      ),
    )

found :
    (mapping : ℕ → ℕ → ℕ → ℕ) (t p : D3) (z y x : ℕ) (s : D3)
    → z < t.z
    → y < t.y
    → x < t.x
    → mapping z y x ≡ place t z y x
    → IsInside t p
    → (number_of t p < place t z y x → s ≡ p)
    → number_of t p < suc (place t z y x)
    → (if mapping z y x == number_of t p then record { x = x; y = y; z = z } else s) ≡ p
found mapping t p z y x s lz ly lx e inside w lt =
    elim (Bool-cases (mapping z y x == number_of t p)) [
      | inl here ↦
          let same = place-injective t z y x p.z p.y p.x ly lx inside.1 inside.2 (ground arith) in
          rw here (λ i. record { x = same.2 i; y = same.1 i; z = same.0 i })
      | inr other ↦ rw other (w (ground arith))
    ]

-- The search through a mapping that numbers the positions finds each number's position.
locate_lem :
    (mapping : ℕ → ℕ → ℕ → ℕ) (t p q : D3)
    → ((z y x : ℕ) → z < t.z → y < t.y → x < t.x → mapping z y x ≡ place t z y x)
    → IsInside t p
    → locate mapping t (number_of t p) q ≡ (p, ok tt)
unfolding locate
locate_lem mapping t p q right inside =
    let body : ℕ → ℕ → ℕ → M D3 (Unit {0}) = λ z y x s.
      ((if mapping z y x == number_of t p then record { x = x; y = y; z = z } else s), ok tt) in
    let (s', e, v) =
      for_positions-Invariant (λ c s. number_of t p < c → s ≡ p) t body
        (λ z y x s lz ly lx w. (
          (body z y x s).0,
          refl,
          λ lt. found mapping t p z y x s lz ly lx (right z y x lz ly lx) inside w lt,
        ))
        q (λ lt. absurd (omega arith)) in
    e ∙ ap (λ s. (s, ok tt)) (v (place-lt t p inside))
