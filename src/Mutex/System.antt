-- ===== src/Mutex/System.antt =====
-- Tasks that use one mutex, interleaved in any order. A task calls `lock` or `trylock` only while it
-- does not hold the mutex and is not waiting for it.
use task_r.Base.{ℕ, Bool, true, false, ◌≡◌, ◌==◌, if◌then◌else◌, ok}
use task_r.Task.{Store}
use task_r.Mutex.{
  Mutex, create, trylock, lock, Locking, returns, suspends, unlock, owner_check_result,
}

-- Where a task stands: it does not hold the mutex, it is suspended in `lock`, or it holds the mutex.
pub data Place : Type 0 where
  outside : Place
  suspended : Place
  inside : Place

-- `Op` is trivial here: the only pending operation is the check of the owner.
pub record System : Type 0 where
  pub mutex : Mutex
  pub store : Store (Unit {0})
  pub place : ℕ → Place

abbrev pub move : (ℕ → Place) → ℕ → Place → ℕ → Place
move f t p u = if t == u then p else f u

abbrev pub owner_check : ℕ → Unit {0}
owner_check t = tt

abbrev pub place_of : Locking → Place
place_of returns = inside
place_of suspends = suspended

abbrev pub tried : Bool → Place
tried true = inside
tried false = outside

-- The state after `lock`, after `trylock` and after `unlock`.
abbrev pub locked : ℕ → System → Mutex × Store (Unit {0}) × Locking → System
locked t s (m, store, l) = record { mutex = m; store = store; place = move s.place t (place_of l) }

abbrev pub try_locked : ℕ → System → Mutex × Bool → System
try_locked t s (m, b) = record s { mutex = m; place = move s.place t (tried b) }

pub data Step (s s' : System) : Type 0 where
  locks :
      (t : ℕ)
      → s.place t ≡ outside
      → s' ≡ locked t s (lock owner_check t s.store s.mutex)
      → Step s s'
  tries : (t : ℕ) → s.place t ≡ outside → s' ≡ try_locked t s (trylock t s.mutex) → Step s s'
  -- The runtime polls the pending operation of a suspended task, which then runs on.
  resumes :
      (t : ℕ)
      → s.place t ≡ suspended
      → owner_check_result t s.mutex ≡ true
      → s' ≡ record s { place = move s.place t inside }
      → Step s s'
  unlocks :
      (t : ℕ) (m : Mutex)
      → s.place t ≡ inside
      → unlock t s.mutex ≡ (m, ok tt)
      → s' ≡ record s { mutex = m; place = move s.place t outside }
      → Step s s'

abbrev pub init : Store (Unit {0}) → System
init store = record { mutex = create; store = store; place = λ t. outside }

pub data Reach (store : Store (Unit {0})) : System → Type 0 where
  start : Reach store (init store)
  next : {s s' : System} → Reach store s → Step s s' → Reach store s'
