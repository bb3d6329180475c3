-- ===== src/ConditionVariable/System.antt =====
-- Tasks that call `wait`, `notifyOne` and `notifyAll`, interleaved in any order. A call of `wait`
-- with a predicate makes the same turns, until the predicate holds.
use task_r.Base.{
  ℕ, Bool, true, false, ◌≡◌, ◌≢◌, Option, none, some, [], ok, throw, Error, ◌==◌, if◌then◌else◌,
}
use task_r.Mutex
use task_r.Mutex.{Locking}
use task_r.ConditionVariable.{
  Shared, Pending, notified, lock_cv, lock_condition, unlock_condition, register, release,
  wait_check, notify_one, notify_all, write,
}
use task_r.Task.{Store}

-- Where a task stands. The number is the address of the flag of its call of `wait`.
pub data Place : Type 0 where
  -- Not in a call of the condition variable.
  idle : Place
  -- In `_mutex.lock` of a notification.
  notifying : Place
  -- In `_mutex.lock` of `wait`.
  entering : ℕ → Place
  -- Its flag is in the list; the mutex of the condition is still to be released.
  registered : ℕ → Place
  -- Suspended until its flag is set.
  sleeping : ℕ → Place
  -- In the last `conditionMutex.lock`.
  retaking : ℕ → Place

pub record System : Type 0 where
  pub shared : Shared
  pub place : ℕ → Place
  -- The flags of the calls that were left by the exception of their release.
  pub left : ℕ → Bool

abbrev pub move : (ℕ → Place) → ℕ → Place → ℕ → Place
move f t p u = if t == u then p else f u

abbrev pub flag_of : Place → Option ℕ
flag_of idle = none
flag_of notifying = none
flag_of (entering f) = some f
flag_of (registered f) = some f
flag_of (sleeping f) = some f
flag_of (retaking f) = some f

-- No call that has not returned has its flag at this address.
abbrev pub IsFresh : ℕ → System → Type 0
IsFresh f s = (t : ℕ) → flag_of (s.place t) ≢ some f

abbrev pub goes : System → Shared → ℕ → Place → System
goes s shared t p = record s { shared = shared; place = move s.place t p }

pub data Step (s s' : System) : Type 0 where
  calls :
      (t f : ℕ) (h : Shared) (l : Locking)
      → s.place t ≡ idle
      → IsFresh f s
      → lock_cv t s.shared ≡ (h, ok l)
      → s' ≡ goes s h t (entering f)
      → Step s s'
  registers :
      (t f : ℕ) (h : Shared)
      → s.place t ≡ entering f
      → register t f s.shared ≡ (h, ok tt)
      → s' ≡ goes s h t (registered f)
      → Step s s'
  releases :
      (t f : ℕ) (h : Shared)
      → s.place t ≡ registered f
      → release t (notified f) s.shared ≡ (h, ok tt)
      → s' ≡ goes s h t (sleeping f)
      → Step s s'
  -- The release of a mutex that the task does not own: the exception leaves the call.
  refuses :
      (t f : ℕ) (h : Shared) (e : Error)
      → s.place t ≡ registered f
      → release t (notified f) s.shared ≡ (h, throw e)
      → s' ≡ record (goes s h t idle) { left = write f true s.left }
      → Step s s'
  wakes :
      (t f : ℕ) (h : Shared) (l : Locking)
      → s.place t ≡ sleeping f
      → wait_check f s.shared ≡ true
      → lock_condition t s.shared ≡ (h, ok l)
      → s' ≡ goes s h t (retaking f)
      → Step s s'
  returns :
      (t f : ℕ)
      → s.place t ≡ retaking f
      → Mutex.owns_lock t s.shared.condition_mutex ≡ true
      → s' ≡ goes s s.shared t idle
      → Step s s'
  asks :
      (t : ℕ) (h : Shared) (l : Locking)
      → s.place t ≡ idle
      → lock_cv t s.shared ≡ (h, ok l)
      → s' ≡ goes s h t notifying
      → Step s s'
  notifies_one :
      (t : ℕ) (h : Shared)
      → s.place t ≡ notifying
      → notify_one t s.shared ≡ (h, ok tt)
      → s' ≡ goes s h t idle
      → Step s s'
  notifies_all :
      (t : ℕ) (h : Shared)
      → s.place t ≡ notifying
      → notify_all t s.shared ≡ (h, ok tt)
      → s' ≡ goes s h t idle
      → Step s s'
  -- The user's own calls on the mutex of the condition.
  locks :
      (t : ℕ) (h : Shared) (l : Locking)
      → s.place t ≡ idle
      → lock_condition t s.shared ≡ (h, ok l)
      → s' ≡ goes s h t idle
      → Step s s'
  unlocks :
      (t : ℕ) (h : Shared)
      → s.place t ≡ idle
      → unlock_condition t s.shared ≡ (h, ok tt)
      → s' ≡ goes s h t idle
      → Step s s'

-- `ConditionVariable()` with a new mutex for the condition; the memory is arbitrary.
abbrev pub init : Store Pending → (ℕ → Bool) → System
init tasks flag = record {
  shared = record {
    mutex = Mutex.create;
    condition_mutex = Mutex.create;
    waiting_tasks = [];
    tasks = tasks;
    flag = flag;
    is_timeout = λ f. false;
    due_to_notification = λ f. false;
  };
  place = λ t. idle;
  left = λ f. false;
}

pub data Reach (tasks : Store Pending) (flag : ℕ → Bool) : System → Type 0 where
  start : Reach tasks flag (init tasks flag)
  next : {s s' : System} → Reach tasks flag s → Step s s' → Reach tasks flag s'
