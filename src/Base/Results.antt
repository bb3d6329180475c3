-- ===== src/Base/Results.antt =====
-- Calls that may throw or wait for ever, on a state that keeps what was written before the throw.
use Prim.Native.Nat.{ℕ, zero, suc}
use mathlib.Core.Bool.{Bool, true, false}
use mathlib.Core.List.{List, [], ◌∷◌}
use mathlib.Core.Path.{◌≡◌, refl}

-- The exceptions of the library, one for each `HICR_THROW_LOGIC`, and that of a missing
-- configuration entry.
pub data Error : Type 0 where
  invalid_affinity : Error
  already_initialized : Error
  no_processing_units : Error
  too_many_service_workers : Error
  run_uninitialized : Error
  run_running : Error
  await_not_running : Error
  finalize_uninitialized : Error
  finalize_running : Error
  unlock_not_owner : Error
  condition_not_owner : Error
  no_such_entry : Error
  unknown_backend : Error
  illegal_worker_count : Error
  no_workers_given : Error
  no_such_workers : Error
  out_of_range : Error

-- `blocked` is a call that spins, as a push into a full queue does; `undefined` is an access out of
-- bounds.
pub data Outcome {ℓ} (A : Type ℓ) : Type ℓ where
  ok : A → Outcome A
  throw : Error → Outcome A
  blocked : Outcome A
  undefined : Outcome A

abbrev pub M : Type 0 → Type 0 → Type 0
M S A = S → S × Outcome A

abbrev pub pure : {S A : Type 0} → A → M S A
pure a s = (s, ok a)

abbrev pub fail : {S A : Type 0} → Error → M S A
fail e s = (s, throw e)

abbrev pub spin : {S A : Type 0} → M S A
spin s = (s, blocked)

abbrev pub fault : {S A : Type 0} → M S A
fault s = (s, undefined)

abbrev pub get : {S : Type 0} → M S S
get s = (s, ok s)

abbrev pub modify : {S : Type 0} → (S → S) → M S (Unit {0})
modify f s = (f s, ok tt)

abbrev pub after : {S A B : Type 0} → S × Outcome A → (A → M S B) → S × Outcome B
after (s, ok a) f = f a s
after (s, throw e) f = (s, throw e)
after (s, blocked) f = (s, blocked)
after (s, undefined) f = (s, undefined)

infixl 5 ◌>>=◌ ◌>>◌
abbrev pub ◌>>=◌ : {S A B : Type 0} → M S A → (A → M S B) → M S B
◌>>=◌ m f s = after (m s) f

abbrev pub ◌>>◌ : {S B : Type 0} → M S (Unit {0}) → M S B → M S B
m >> k = m >>= λ _. k

-- `if (b) HICR_THROW_LOGIC(e);`
abbrev pub throw_if : {S : Type 0} → Bool → Error → M S (Unit {0})
throw_if true e s = (s, throw e)
throw_if false e s = (s, ok tt)

-- `if (b) m;`
abbrev pub when : {S : Type 0} → Bool → M S (Unit {0}) → M S (Unit {0})
when true m s = m s
when false m s = (s, ok tt)

-- `n` rounds of a loop whose index starts at `i`.
abbrev pub for_from : {S : Type 0} → (i n : ℕ) → (ℕ → M S (Unit {0})) → M S (Unit {0})
for_from i zero body = λ s. (s, ok tt)
for_from i (suc n) body = body i >> for_from (suc i) n body

-- A call for each element of a list.
abbrev pub each_of : {S E : Type 0} → List E → (E → M S (Unit {0})) → M S (Unit {0})
each_of [] body = λ s. (s, ok tt)
each_of (e ∷ es) body = body e >> each_of es body

-- Inversion of a sequence that returns.
pub after-eq-ok :
    {S A B : Type 0} (r : S × Outcome A) (f : A → M S B) {s' : S} {b : B}
    → after r f ≡ (s', ok b)
    → (s : S) × (a : A) × (r ≡ (s, ok a)) × (f a s ≡ (s', ok b))
after-eq-ok (s, ok a) f h = (s, a, refl, h)
after-eq-ok (s, throw e) f h = cc
after-eq-ok (s, blocked) f h = cc
after-eq-ok (s, undefined) f h = cc
