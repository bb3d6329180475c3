-- ===== src/Queue.antt =====
-- include/taskr/queue.hpp: the wrapper around the lock-free queue of the `atomic_queue` package.
-- Items are pointers, written as numbers; a null pointer is `none`.
mod Interface
mod ListQueue
pub use Interface.*
pub use ListQueue.{Bounded, bounded}
use task_r.Base.{
  ℕ, ◌≡◌, ◌⊎◌, refl, Option, none, some, Bool, true, false, List, [], ◌∷◌, ◌++◌, arith, inl, inr,
  Option-cases,
}

module _ {Q : Type 0} (lib : AtomicQueue Q) where
  -- `Queue(maxEntries)`.
  unfoldable pub create : ℕ → Q
  create max_entries = lib.make max_entries

  -- `push(obj)`; `none` while it spins.
  unfoldable pub push : Q → ℕ → Option Q
  push q obj = lib.push q obj

  abbrev popped : Q → Option (ℕ × Q) → Option ℕ × Q
  popped q none = (none, q)
  popped q (some (obj, q')) = (some obj, q')

  -- `pop()`: the pointer stays null where `try_pop` finds nothing.
  unfoldable pub pop : Q → Option ℕ × Q
  pop q = popped q (lib.try_pop q)

  unfoldable pub was_empty : Q → Bool
  was_empty q = lib.was_empty q

  unfoldable pub was_size : Q → ℕ
  was_size q = lib.was_size q

  -- The two results of `pop`: null from an empty queue, which stays as it was, or the oldest item.
  abbrev pub Pops : Q → Option ℕ × Q → Type 0
  Pops q (none, q') = (lib.contents q ≡ []) × (q' ≡ q)
  Pops q (some obj, q') =
      (lib.contents q ≡ obj ∷ lib.contents q') × (lib.capacity q' ≡ lib.capacity q)

  pub pop-Pops : (q : Q) → Pops q (pop q)
  unfolding pop
  pop-Pops q = elim (Option-cases (lib.try_pop q)) [
    | inl e ↦ rw e (lib.try_pop-none q e, refl)
    | inr ((obj, q'), e) ↦ rw e (lib.try_pop-some q q' obj e)
  ]

  pub contents-push :
      (q q' : Q) (obj : ℕ) → push q obj ≡ some q' → lib.contents q' ≡ lib.contents q ++ obj ∷ []
  unfolding push
  contents-push = lib.contents-push

  pub was_empty-false :
      (q : Q) (x : ℕ) (xs : List ℕ) → lib.contents q ≡ x ∷ xs → was_empty q ≡ false
  unfolding was_empty
  was_empty-false q x xs h = ground (arith, lib.was_empty-true q)

  pub was_empty-nil : (q : Q) → lib.contents q ≡ [] → was_empty q ≡ true
  unfolding was_empty
  was_empty-nil q h = lib.was_empty-nil q h

  -- The same as a case split, with the equation of the call.
  pub pop-cases :
      (q : Q)
      → ((lib.contents q ≡ []) × (was_empty q ≡ true) × (pop q ≡ (none, q)))
        ⊎ ((obj : ℕ) × (q' : Q) × (pop q ≡ (some obj, q'))
            × (lib.contents q ≡ obj ∷ lib.contents q')
            × (lib.capacity q' ≡ lib.capacity q)
            × (was_empty q ≡ false))
  unfolding pop
  pop-cases q = elim (Option-cases (lib.try_pop q)) [
    | inl e ↦ inl (lib.try_pop-none q e, was_empty-nil q (lib.try_pop-none q e), rw e)
    | inr ((obj, q'), e) ↦
        let h = lib.try_pop-some q q' obj e in
        inr (obj, q', rw e, h.0, h.1, was_empty-false q obj (lib.contents q') h.0)
  ]
