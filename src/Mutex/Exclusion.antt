-- ===== src/Mutex/Exclusion.antt =====
-- What every reachable state of a mutex and its tasks satisfies.
use task_r.Base.{ℕ, ◌≡◌, refl, true, Option, none, some, [], ◌∷◌, ◌==◌, if◌then◌else◌, arith, ok}
use task_r.Task.{Store}
use task_r.Task.Graph.{count, count-append}
use task_r.Mutex.{Mutex, create, trylock, lock, unlock, owner_check_result}
use task_r.Mutex.System.{
  Place, outside, suspended, inside, System, move, locked, owner_check, Step, locks, tries, resumes,
  unlocks, init, Reach, start, next,
}

-- How often a task belongs into the queue: once, if it is suspended and was not yet given the lock.
abbrev waits : ℕ → Place → Option ℕ → ℕ
waits t suspended none = 1
waits t suspended (some u) = if u == t then 0 else 1
waits t outside o = 0
waits t inside o = 0

-- The owner holds the mutex, or was given it and is still to be resumed.
abbrev IsOwner : Place → Type 0
IsOwner outside = ⊥
IsOwner suspended = Unit
IsOwner inside = Unit

pub record Inv (s : System) : Type 0 where
  pub queued : (t : ℕ) → count t s.mutex.queue ≡ waits t (s.place t) s.mutex.owner_task
  pub holds : (t : ℕ) → s.place t ≡ inside → s.mutex.owner_task ≡ some t
  pub owner : (t : ℕ) → s.mutex.owner_task ≡ some t → IsOwner (s.place t)
  pub free : s.mutex.owner_task ≡ none → s.mutex.queue ≡ []

init-Inv : (store : Store (Unit {0})) → Inv (init store)
init-Inv store = record {
  queued = λ t. refl;
  holds = λ t e. cc;
  owner = λ t e. cc;
  free = λ e. refl;
}

tries-Inv :
    (s s' : System) (t : ℕ)
    → s.place t ≡ outside
    → s' ≡ task_r.Mutex.System.try_locked t s (trylock t s.mutex)
    → Inv s
    → Inv s'
unfolding trylock
tries-Inv s s' t at e v = record {
  queued = λ u. ground (arith, v.queued u, v.free, v.owner u);
  holds = λ u h. ground (arith, v.holds u);
  owner = λ u h. ground (arith, v.owner u);
  free = λ h. ground (arith, v.free);
}

locks-Inv :
    (s s' : System) (t : ℕ)
    → s.place t ≡ outside
    → s' ≡ locked t s (lock owner_check t s.store s.mutex)
    → Inv s
    → Inv s'
unfolding lock
locks-Inv s s' t at e v = record {
  queued = λ u. ground (
    arith,
    v.queued u,
    v.queued t,
    v.owner t,
    v.owner u,
    v.free,
    count-append u s.mutex.queue (t ∷ []),
  );
  holds = λ u h. ground (arith, v.holds u);
  owner = λ u h. ground (arith, v.owner u);
  free = λ h. ground (arith, v.free);
}

resumes-Inv :
    (s s' : System) (t : ℕ)
    → s.place t ≡ suspended
    → owner_check_result t s.mutex ≡ true
    → s' ≡ record s { place = move s.place t inside }
    → Inv s
    → Inv s'
unfolding owner_check_result
resumes-Inv s s' t at owns e v = record {
  queued = λ u. ground (arith, v.queued u);
  holds = λ u h. ground (arith, v.holds u);
  owner = λ u h. ground (arith, v.owner u);
  free = λ h. ground (arith, v.free);
}

unlocks-Inv :
    (s s' : System) (t : ℕ) (m : Mutex)
    → s.place t ≡ inside
    → unlock t s.mutex ≡ (m, ok tt)
    → s' ≡ record s { mutex = m; place = move s.place t outside }
    → Inv s
    → Inv s'
unfolding unlock
unlocks-Inv s s' t m at done e v = record {
  queued = λ u. ground (arith, v.queued u, v.queued t, v.holds u, v.holds t, v.owner u);
  holds = λ u h. ground (arith, v.holds u, v.holds t);
  owner = λ u h. ground (arith, v.queued u, v.owner u, v.holds t);
  free = λ h. ground (arith, v.free);
}

-- Every step keeps the invariant.
pub Step-Inv : {s s' : System} → Step s s' → Inv s → Inv s'
Step-Inv {s} {s'} (locks t at e) v = locks-Inv s s' t at e v
Step-Inv {s} {s'} (tries t at e) v = tries-Inv s s' t at e v
Step-Inv {s} {s'} (resumes t at owns e) v = resumes-Inv s s' t at owns e v
Step-Inv {s} {s'} (unlocks t m at done e) v = unlocks-Inv s s' t m at done e v

pub Reach-Inv : {store : Store (Unit {0})} {s : System} → Reach store s → Inv s
Reach-Inv {store} start = init-Inv store
Reach-Inv (next r st) = Step-Inv st (Reach-Inv r)

-- Two tasks never hold the mutex together.
pub mutual_exclusion :
    {store : Store (Unit {0})} {s : System} (t u : ℕ)
    → Reach store s
    → s.place t ≡ inside
    → s.place u ≡ inside
    → t ≡ u
mutual_exclusion {s} t u r in_t in_u =
    let v = Reach-Inv r in ground (arith, v.holds t in_t, v.holds u in_u)
