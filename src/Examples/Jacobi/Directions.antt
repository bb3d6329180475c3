-- ===== src/Examples/Jacobi/Directions.antt =====
-- What is beside a subgrid in one direction.
use task_r.Base.{
  ℕ, ◌+◌, ◌-◌, ◌*◌, ◌<◌, ◌≤◌, ℕ_discrete, ◌≡◌, ◌≢◌, ◌↔◌, ◌==◌, arith, ap, Bool-cases, inl, inr, ◌⊎◌,
}
use native.Mathlib.Nat.{add-mul, mul-le-mul_right}
use task_r.Examples.Jacobi.{boundary, kind_below, kind_above, place_below, place_above, process_of}

-- A process is the last one, or there is room for another one after it.
last_or_not :
    (p pt lt : ℕ)
    → p < pt
    → ((p + 1 ≡ pt) × (pt * lt ≡ p * lt + lt)) ⊎ ((p + 1 < pt) × (p * lt + lt + lt ≤ pt * lt))
last_or_not p pt lt lp = elim (ℕ_discrete (p + 1) pt) [
  | yes e ↦ inl (e, omega (arith, ap (λ (k : ℕ). k * lt) e, add-mul p 1 lt))
  | no more ↦
      let le : p + 2 ≤ pt = omega arith in
      inr (omega arith, omega (arith, mul-le-mul_right lt le, add-mul p 2 lt))
]

-- One direction: the process and the place beside.
pub record Above (l lt p pt : ℕ) : Type 0 where
  pub edge : (kind_above l lt p pt ≡ boundary) ↔ (p * lt + l + 1 ≡ pt * lt)
  pub process : ℕ
  pub process_eq :
      (own : ℕ → ℕ)
      → kind_above l lt p pt ≢ boundary
      → process_of (kind_above l lt p pt) (own (p + 1)) (own p) ≡ own process
  pub process_lt : kind_above l lt p pt ≢ boundary → process < pt
  pub place_lt : place_above l lt < lt
  pub next : kind_above l lt p pt ≢ boundary → process * lt + place_above l lt ≡ p * lt + l + 1

pub all-Above : (l lt p pt : ℕ) → l < lt → p < pt → Above l lt p pt
all-Above l lt p pt ll lp = elim (Bool-cases (l + 1 == lt)) [
  | inl last ↦ record {
    edge = elim (last_or_not p pt lt lp) [ inl h ↦ ground arith | inr h ↦ ground arith ];
    process = p + 1;
    process_eq = λ own inner. ground arith;
    process_lt = λ inner. ground arith;
    place_lt = ground arith;
    next = λ inner. ground (arith, add-mul p 1 lt);
  }
  | inr more ↦ record {
    edge = elim (last_or_not p pt lt lp) [ inl h ↦ ground arith | inr h ↦ ground arith ];
    process = p;
    process_eq = λ own inner. ground arith;
    process_lt = λ inner. lp;
    place_lt = ground arith;
    next = λ inner. ground arith;
  }
]

one_row : (p lt : ℕ) → p ≢ 0 → lt ≤ p * lt
one_row p lt h = let le : 1 ≤ p = omega arith in omega (arith, mul-le-mul_right lt le)

pub row_before : (p lt : ℕ) → p ≢ 0 → (p - 1) * lt + lt ≡ p * lt
row_before p lt h =
    let e : p - 1 + 1 ≡ p = omega arith in
    omega (arith, ap (λ (k : ℕ). k * lt) e, add-mul (p - 1) 1 lt)

pub record Below (l lt p pt : ℕ) : Type 0 where
  pub edge : (kind_below l p ≡ boundary) ↔ (p * lt + l ≡ 0)
  pub process : ℕ
  pub process_eq :
      (own : ℕ → ℕ)
      → kind_below l p ≢ boundary
      → process_of (kind_below l p) (own (p - 1)) (own p) ≡ own process
  pub process_lt : process < pt
  pub place_lt : place_below l lt < lt
  pub next : kind_below l p ≢ boundary → process * lt + place_below l lt + 1 ≡ p * lt + l

pub all-Below : (l lt p pt : ℕ) → l < lt → p < pt → Below l lt p pt
all-Below l lt p pt ll lp = elim (Bool-cases (l == 0)) [
  | inl first ↦ record {
    edge = elim (ℕ_discrete p 0) [
      | yes e ↦ ground (arith, ap (λ (k : ℕ). k * lt) e)
      | no e ↦ ground (arith, one_row p lt e)
    ];
    process = p - 1;
    process_eq = λ own inner. ground arith;
    process_lt = ground arith;
    place_lt = ground arith;
    next = λ inner. elim (ℕ_discrete p 0) [
      | yes e ↦ absurd (inner (ground arith))
      | no e ↦ ground (arith, row_before p lt e)
    ];
  }
  | inr more ↦ record {
    edge = ground arith;
    process = p;
    process_eq = λ own inner. ground arith;
    process_lt = lp;
    place_lt = ground arith;
    next = λ inner. ground arith;
  }
]
