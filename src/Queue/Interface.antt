-- ===== src/Queue/Interface.antt =====
-- What include/taskr/queue.hpp relies on in `atomic_queue::AtomicQueueB`, which is not in the
-- repository: a bounded queue, first in first out, whose `push` spins while it is full.
use task_r.Base.{ℕ, ◌≤◌, ◌<◌, ◌≡◌, Option, none, some, Bool, true, List, [], ◌∷◌, ◌++◌, length}

pub record AtomicQueue (Q : Type 0) : Type 0 where
  pub make : ℕ → Q
  -- `none` while the queue is full and the call spins.
  pub push : Q → ℕ → Option Q
  -- `none` where the call returns false and leaves its argument as it was.
  pub try_pop : Q → Option (ℕ × Q)
  pub was_empty : Q → Bool
  pub was_size : Q → ℕ
  -- The items, oldest first, and the room.
  pub contents : Q → List ℕ
  pub capacity : Q → ℕ
  pub contents-make : (n : ℕ) → contents (make n) ≡ []
  pub capacity-make : (n : ℕ) → n ≤ capacity (make n)
  pub push_returns :
      (q : Q) (x : ℕ) → length (contents q) < capacity q → (q' : Q) × (push q x ≡ some q')
  pub contents-push : (q q' : Q) (x : ℕ) → push q x ≡ some q' → contents q' ≡ contents q ++ x ∷ []
  pub capacity-push : (q q' : Q) (x : ℕ) → push q x ≡ some q' → capacity q' ≡ capacity q
  pub try_pop-none : (q : Q) → try_pop q ≡ none → contents q ≡ []
  pub try_pop-some :
      (q q' : Q) (x : ℕ)
      → try_pop q ≡ some (x, q')
      → (contents q ≡ x ∷ contents q') × (capacity q' ≡ capacity q)
  pub was_empty-true : (q : Q) → was_empty q ≡ true → contents q ≡ []
  pub was_empty-nil : (q : Q) → contents q ≡ [] → was_empty q ≡ true
  pub was_size-length : (q : Q) → was_size q ≡ length (contents q)
