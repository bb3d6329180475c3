-- ===== src/Queue/ListQueue.antt =====
-- A bounded list meets the interface: an instance at which the theorems are evaluated.
use task_r.Base.{
  ℕ, ◌≤◌, ◌<◌, ◌≡◌, refl, Option, none, some, Bool, true, false, List, [], ◌∷◌, ◌++◌, length, ltb,
  if◌then◌else◌, arith,
}
use task_r.Queue.Interface.{AtomicQueue}

pub record Bounded : Type 0 where
  pub items : List ℕ
  pub room : ℕ

abbrev is_nil : List ℕ → Bool
is_nil [] = true
is_nil (x ∷ xs) = false

abbrev pop_items : ℕ → List ℕ → Option (ℕ × Bounded)
pop_items n [] = none
pop_items n (x ∷ xs) = some (x, record { items = xs; room = n })

abbrev push_item : Bounded → ℕ → Option Bounded
push_item q x =
    if ltb (length q.items) q.room then some (record q { items = q.items ++ x ∷ [] }) else none

pub push_item_returns :
    (q : Bounded) (x : ℕ) → length q.items < q.room → (q' : Bounded) × (push_item q x ≡ some q')
push_item_returns q x h = (record q { items = q.items ++ x ∷ [] }, ground arith)

pub push_item_contents :
    (q q' : Bounded) (x : ℕ) → push_item q x ≡ some q' → q'.items ≡ q.items ++ x ∷ []
push_item_contents q q' x h = ground arith

pub push_item_room : (q q' : Bounded) (x : ℕ) → push_item q x ≡ some q' → q'.room ≡ q.room
push_item_room q q' x h = ground arith

pub pop_items-none : (n : ℕ) (xs : List ℕ) → pop_items n xs ≡ none → xs ≡ []
pop_items-none n [] h = refl
pop_items-none n (x ∷ xs) h = cc

pub pop_items-some :
    (n : ℕ) (xs : List ℕ) (q' : Bounded) (x : ℕ)
    → pop_items n xs ≡ some (x, q')
    → (xs ≡ x ∷ q'.items) × (q'.room ≡ n)
pop_items-some n [] q' x h = cc
pop_items-some n (y ∷ ys) q' x h = ground arith

pub is_nil-true : (xs : List ℕ) → is_nil xs ≡ true → xs ≡ []
is_nil-true [] h = refl
is_nil-true (x ∷ xs) h = cc

pub is_nil_nil : (xs : List ℕ) → xs ≡ [] → is_nil xs ≡ true
is_nil_nil [] h = refl
is_nil_nil (x ∷ xs) h = cc

pub le_self : (n : ℕ) → n ≤ n
le_self n = omega arith

abbrev pub bounded : AtomicQueue Bounded
bounded = record {
  make = λ n. record { items = []; room = n };
  push = push_item;
  try_pop = λ q. pop_items q.room q.items;
  was_empty = λ q. is_nil q.items;
  was_size = λ q. length q.items;
  contents = λ q. q.items;
  capacity = λ q. q.room;
  contents-make = λ n. refl;
  capacity-make = le_self;
  push_returns = push_item_returns;
  contents-push = push_item_contents;
  capacity-push = push_item_room;
  try_pop-none = λ q. pop_items-none q.room q.items;
  try_pop-some = λ q. pop_items-some q.room q.items;
  was_empty-true = λ q. is_nil-true q.items;
  was_empty-nil = λ q. is_nil_nil q.items;
  was_size-length = λ q. refl;
}
