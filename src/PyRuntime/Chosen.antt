-- ===== src/PyRuntime/Chosen.antt =====
-- The compute resources that the constructors of the wrapper for Python take of the devices.
use task_r.Base.{
  ℕ, zero, suc, ◌<◌, ◌≤◌, ◌≡◌, inl, inr, refl, true, false, List, [], ◌∷◌, ◌++◌, arith, length,
  take, dec_lt, ℕ_discrete, Bool-cases, ap, ap₂, sym, subst, ◌∙◌,
}
use mathlib.Core.Logic.{∥∥₁_elim, if_pos, if_neg}
use mathlib.Core.HLevel.{⊥_prop}
use mathlib.Core.List.{filter, filter-append, flatten, Mem, Memᴰ, dec_mem, mem-cons_of_mem}
use task_r.PyRuntime.{ComputeResource, is_in, select_list, select, addresses, is_empty_list}

pub length-take : {A : Type 0} (n : ℕ) (xs : List A) → n ≤ length xs → length (take n xs) ≡ n
length-take zero xs h = refl
length-take (suc n) [] h = absurd (omega arith)
length-take (suc n) (x ∷ xs) h = ap suc (length-take n xs (omega arith))

-- The first of some resources, as a beginning of their list.
take-prefix : {A : Type 0} (n : ℕ) (xs : List A) → (rest : List A) × (xs ≡ take n xs ++ rest)
take-prefix zero xs = (xs, refl)
take-prefix (suc n) [] = ([], refl)
take-prefix (suc n) (x ∷ xs) = let (rest, e) = take-prefix n xs in (rest, ap (λ z. x ∷ z) e)

addresses-append :
    (xs ys : List ComputeResource) → addresses (xs ++ ys) ≡ addresses xs ++ addresses ys
addresses-append [] ys = refl
addresses-append (x ∷ xs) ys = ap (λ z. x.address ∷ z) (addresses-append xs ys)

pub first-addresses :
    (n : ℕ) (cr : List ComputeResource)
    → (rest : List ℕ) × (addresses cr ≡ addresses (take n cr) ++ rest)
first-addresses n cr =
    let (rest, e) = take-prefix n cr in
    (addresses rest, ap addresses e ∙ addresses-append (take n cr) rest)

pub length-addresses : (rs : List ComputeResource) → length (addresses rs) ≡ length rs
length-addresses [] = refl
length-addresses (r ∷ rs) = ap suc (length-addresses rs)

pub is_empty_list-false : {A : Type 0} (xs : List A) → 0 < length xs → is_empty_list xs ≡ false
is_empty_list-false [] h = absurd (omega arith)
is_empty_list-false (x ∷ xs) h = refl

-- The resources of all devices, one after the other, whose processor is one of those that were named.
abbrev pub chosen : List ℕ → List (List ComputeResource) → List ComputeResource
chosen workers devices =
    filter (λ (r : ComputeResource). dec_mem ℕ_discrete r.processor_id workers) (flatten devices)

is_in-Mem : (x : ℕ) (ys : List ℕ) → is_in x ys ≡ true → Mem x ys
is_in-Mem x [] e = cc
is_in-Mem x (y ∷ ys) e = elim (ℕ_discrete x y) [
  | yes same ↦ ∣ Memᴰ.head same ∣₁
  | no other ↦ mem-cons_of_mem y (is_in-Mem x ys (ground arith))
]

Memᴰ-is_in : (x : ℕ) (ys : List ℕ) → Memᴰ x ys → is_in x ys ≡ true
Memᴰ-is_in x [] m = elim m [ ]
Memᴰ-is_in x (y ∷ ys) (Memᴰ.head e) = ground arith
Memᴰ-is_in x (y ∷ ys) (Memᴰ.tail m) = ground (arith, Memᴰ-is_in x ys m)

not_in : (x : ℕ) (ys : List ℕ) → is_in x ys ≡ false → ¬ Mem x ys
not_in x ys e m = ∥∥₁_elim m ⊥_prop (λ d. cc (e, Memᴰ-is_in x ys d))

-- Whether a resource is to be chosen.
abbrev is_named : (workers : List ℕ) (r : ComputeResource) → Dec (Mem r.processor_id workers)
is_named workers r = dec_mem ℕ_discrete r.processor_id workers

select_list-filter :
    (workers : List ℕ) (rs : List ComputeResource)
    → select_list workers rs ≡ filter (is_named workers) rs
unfolding select_list
select_list-filter workers [] = refl
select_list-filter workers (r ∷ rest) =
    let chosen_rest = filter (is_named workers) rest in
    elim (Bool-cases (is_in r.processor_id workers)) [
      | inl e ↦
          rw e (ap (λ z. r ∷ z) (select_list-filter workers rest))
          ∙ sym (
              if_pos (is_named workers r) (is_in-Mem r.processor_id workers e) (r ∷ chosen_rest)
                chosen_rest)
      | inr e ↦
          rw e (select_list-filter workers rest)
          ∙ sym (
              if_neg (is_named workers r) (not_in r.processor_id workers e) (r ∷ chosen_rest)
                chosen_rest)
    ]

-- The loops select what is to be chosen.
pub select-chosen :
    (workers : List ℕ) (devices : List (List ComputeResource))
    → select workers devices ≡ chosen workers devices
unfolding select flatten
select-chosen workers [] = refl
select-chosen workers (d ∷ rest) =
    ap₂ (λ xs ys. xs ++ ys) (select_list-filter workers d) (select-chosen workers rest)
    ∙ sym (filter-append (is_named workers) d (flatten rest))

chosen_some :
    (workers : List ℕ) (c : ComputeResource) (rs : List ComputeResource)
    → Memᴰ c rs
    → Mem c.processor_id workers
    → 0 < length (filter (is_named workers) rs)
chosen_some workers c [] m named = elim m [ ]
chosen_some workers c (r ∷ rs) (Memᴰ.head e) named =
    let m = subst (λ (k : ComputeResource). Mem k.processor_id workers) e named in
    let chosen_rest = filter (is_named workers) rs in
    subst (λ (z : List ComputeResource). 0 < length z)
      (sym (if_pos (is_named workers r) m (r ∷ chosen_rest) chosen_rest)) (omega arith)
chosen_some workers c (r ∷ rs) (Memᴰ.tail m) named =
    let more = chosen_some workers c rs m named in
    let chosen_rest = filter (is_named workers) rs in
    elim (is_named workers r) [
      | yes k ↦
          subst (λ (z : List ComputeResource). 0 < length z)
            (sym (if_pos (is_named workers r) k (r ∷ chosen_rest) chosen_rest)) (omega arith)
      | no k ↦
          subst (λ (z : List ComputeResource). 0 < length z)
            (sym (if_neg (is_named workers r) k (r ∷ chosen_rest) chosen_rest)) more
    ]

pub named_some : (x : ℕ) (ys : List ℕ) → Mem x ys → 0 < length ys
named_some x [] m = absurd (∥∥₁_elim m ⊥_prop (λ d. cc (Memᴰ-is_in x [] d)))
named_some x (y ∷ ys) m = omega arith

pub select_some :
    (workers : List ℕ) (c : ComputeResource) (devices : List (List ComputeResource))
    → Mem c (flatten devices)
    → Mem c.processor_id workers
    → 0 < length (select workers devices)
select_some workers c devices there named = elim (dec_lt 0 (length (select workers devices))) [
  | yes some_resource ↦ some_resource
  | no nothing ↦ absurd (
      ∥∥₁_elim there ⊥_prop (λ d.
        nothing
          (rw (select-chosen workers devices) (chosen_some workers c (flatten devices) d named))))
]
