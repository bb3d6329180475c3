-- ===== src/ConditionVariable/Timed.antt =====
-- Tasks that make any of the four calls that wait, and the notifications, interleaved in any order.
-- The predicates are the user's: a step takes their answer. So is the clock: a step takes its reading.
pub mod Listing
pub mod Reaching
use task_r.Base.{
  ℕ, Bool, true, false, ◌≡◌, ◌≢◌, Option, none, some, List, [], ok, throw, Error, ◌==◌,
  if◌then◌else◌, M, pure, ◌>>=◌, ◌>>◌,
}
use task_r.Mutex
use task_r.Mutex.{Locking}
use task_r.ConditionVariable.{
  Shared, Pending, notified, notified_or_timeout, timeout_or_notified, lock_cv, lock_condition,
  unlock_condition, register, enlist, release, check_owner, wait_check, wait_for_check,
  wait_for_condition_check, wait_condition_next, wait_for_condition_next, wait_for_answer,
  notify_one, notify_all, Next, answers, waits_again,
}
use task_r.ConditionVariable.Calls.{wait_for_condition_start, wait_for_start}
use task_r.Task.{Store}

-- The calls that wait: the last two with their timeout and the time at their start.
pub data Kind : Type 0 where
  wait : Kind
  wait_condition : Kind
  wait_for_condition : (timeout start : ℕ) → Kind
  wait_for : (timeout start : ℕ) → Kind

-- A call with the address of its notification flag.
pub record Call : Type 0 where
  pub kind : Kind
  pub flag : ℕ

-- Where a task stands.
pub data Place : Type 0 where
  -- Not in a call of the condition variable.
  idle : Place
  -- In `_mutex.lock` of a notification.
  notifying : Place
  -- In `_mutex.lock` of a call that waits.
  entering : Call → Place
  -- Its flag is in the list; the mutex of the condition is still to be released.
  registered : Call → Place
  -- Suspended until its pending operation is satisfied.
  sleeping : Call → Place
  -- In `conditionMutex.lock` after the suspension.
  retaking : Call → Place

pub record System : Type 0 where
  pub shared : Shared
  pub place : ℕ → Place

abbrev pub move : (ℕ → Place) → ℕ → Place → ℕ → Place
move f t p u = if t == u then p else f u

abbrev pub goes : System → Shared → ℕ → Place → System
goes s shared t p = record { shared = shared; place = move s.place t p }

abbrev pub flag_of : Place → Option ℕ
flag_of idle = none
flag_of notifying = none
flag_of (entering c) = some c.flag
flag_of (registered c) = some c.flag
flag_of (sleeping c) = some c.flag
flag_of (retaking c) = some c.flag

-- No call that has not returned has its flag at this address; the list may still hold it.
abbrev pub IsFresh : ℕ → System → Type 0
IsFresh f s = (t : ℕ) → flag_of (s.place t) ≢ some f

-- What a call does before its first `_mutex.lock`, where its predicate, if it has one, does not hold.
unfoldable pub begin : Kind → ℕ → ℕ → M Shared (Unit {0})
unfolding check_owner wait_for_condition_start wait_for_start
begin wait t f = pure tt
begin wait_condition t f = check_owner t
begin (wait_for_condition timeout start) t f = do _ ← wait_for_condition_start t f false; pure tt
begin (wait_for timeout start) t f = wait_for_start t f

-- What a call does once it has `_mutex`: `waitFor` without a predicate has cleared its flag before.
unfoldable pub enter_list : Kind → (t flag : ℕ) → M Shared (Unit {0})
unfolding register enlist
enter_list wait t f = register t f
enter_list wait_condition t f = register t f
enter_list (wait_for_condition timeout start) t f = register t f
enter_list (wait_for timeout start) t f = enlist t f

-- The pending operation of a call.
abbrev pub operation : Kind → ℕ → Pending
operation wait f = notified f
operation wait_condition f = notified f
operation (wait_for_condition timeout start) f = notified_or_timeout f
operation (wait_for timeout start) f = timeout_or_notified f

-- The pending operation, asked at time `now`.
unfoldable pub check : Kind → (flag now : ℕ) → Shared → Shared × Bool
unfolding wait_check wait_for_condition_check wait_for_check
check wait f now s = (s, wait_check f s)
check wait_condition f now s = (s, wait_check f s)
check (wait_for_condition timeout start) f now s = wait_for_condition_check f timeout start now s
check (wait_for timeout start) f now s = wait_for_check f timeout start now s

-- What a call does once it has the mutex of the condition again. `wait` without a predicate has no
-- answer, for which `true` stands.
unfoldable pub after_retaking : Kind → (flag : ℕ) → (satisfied : Bool) → Shared → Next
unfolding wait_condition_next wait_for_condition_next wait_for_answer
after_retaking wait f satisfied s = answers true
after_retaking wait_condition f satisfied s = wait_condition_next satisfied
after_retaking (wait_for_condition timeout start) f satisfied s =
    wait_for_condition_next f satisfied s
after_retaking (wait_for timeout start) f satisfied s = answers (wait_for_answer f s)

pub data Step (s s' : System) : Type 0 where
  calls :
      (t f : ℕ) (k : Kind) (h h' : Shared) (l : Locking)
      → s.place t ≡ idle
      → IsFresh f s
      → begin k t f s.shared ≡ (h, ok tt)
      → lock_cv t h ≡ (h', ok l)
      → s' ≡ goes s h' t (entering (record { kind = k; flag = f }))
      → Step s s'
  registers :
      (t : ℕ) (c : Call) (h : Shared)
      → s.place t ≡ entering c
      → enter_list c.kind t c.flag s.shared ≡ (h, ok tt)
      → s' ≡ goes s h t (registered c)
      → Step s s'
  releases :
      (t : ℕ) (c : Call) (h : Shared)
      → s.place t ≡ registered c
      → release t (operation c.kind c.flag) s.shared ≡ (h, ok tt)
      → s' ≡ goes s h t (sleeping c)
      → Step s s'
  -- The release of a mutex that the task does not own: the exception leaves the call.
  refuses :
      (t : ℕ) (c : Call) (h : Shared) (e : Error)
      → s.place t ≡ registered c
      → release t (operation c.kind c.flag) s.shared ≡ (h, throw e)
      → s' ≡ goes s h t idle
      → Step s s'
  wakes :
      (t now : ℕ) (c : Call) (h h' : Shared) (l : Locking)
      → s.place t ≡ sleeping c
      → check c.kind c.flag now s.shared ≡ (h, true)
      → lock_condition t h ≡ (h', ok l)
      → s' ≡ goes s h' t (retaking c)
      → Step s s'
  returns :
      (t : ℕ) (c : Call) (satisfied answer : Bool)
      → s.place t ≡ retaking c
      → Mutex.owns_lock t s.shared.condition_mutex ≡ true
      → after_retaking c.kind c.flag satisfied s.shared ≡ answers answer
      → s' ≡ goes s s.shared t idle
      → Step s s'
  repeats :
      (t : ℕ) (c : Call) (satisfied : Bool) (h : Shared) (l : Locking)
      → s.place t ≡ retaking c
      → Mutex.owns_lock t s.shared.condition_mutex ≡ true
      → after_retaking c.kind c.flag satisfied s.shared ≡ waits_again
      → lock_cv t s.shared ≡ (h, ok l)
      → s' ≡ goes s h t (entering c)
      → Step s s'
  asks :
      (t : ℕ) (h : Shared) (l : Locking)
      → s.place t ≡ idle
      → lock_cv t s.shared ≡ (h, ok l)
      → s' ≡ goes s h t notifying
      → Step s s'
  notifies_one :
      (t : ℕ) (h : Shared)
      → s.place t ≡ notifying
      → notify_one t s.shared ≡ (h, ok tt)
      → s' ≡ goes s h t idle
      → Step s s'
  notifies_all :
      (t : ℕ) (h : Shared)
      → s.place t ≡ notifying
      → notify_all t s.shared ≡ (h, ok tt)
      → s' ≡ goes s h t idle
      → Step s s'
  -- The user's own calls on the mutex of the condition.
  locks :
      (t : ℕ) (h : Shared) (l : Locking)
      → s.place t ≡ idle
      → lock_condition t s.shared ≡ (h, ok l)
      → s' ≡ goes s h t idle
      → Step s s'
  unlocks :
      (t : ℕ) (h : Shared)
      → s.place t ≡ idle
      → unlock_condition t s.shared ≡ (h, ok tt)
      → s' ≡ goes s h t idle
      → Step s s'

-- `ConditionVariable()`, in states whose mutexes and memory are arbitrary but whose list is empty.
pub data Reach : System → Type 0 where
  start : (h : Shared) → h.waiting_tasks ≡ [] → Reach (record { shared = h; place = λ t. idle })
  next : {s s' : System} → Reach s → Step s s' → Reach s'
