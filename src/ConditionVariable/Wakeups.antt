-- ===== src/ConditionVariable/Wakeups.antt =====
-- What every reachable state of a condition variable and tasks that wait without a timeout satisfies.
use task_r.Base.{
  ℕ, ◌<◌, ◌≡◌, ◌⊎◌, refl, Bool, true, false, none, some, arith, inl, inr, ok, throw, Bool-cases,
}
use task_r.Task.{Store}
use task_r.Task.Graph.{count}
use task_r.ConditionVariable.{Shared, Pending, notified, wait_check}
use task_r.ConditionVariable.System
use task_r.ConditionVariable.Listing.{
  Inv, init-Inv, SameList, SameList-Notified, keep-Inv, begin-Inv, end-Inv, register-Inv, leave-Inv,
  listed,
}
use task_r.ConditionVariable.Effects.{
  notify_one-Notified, notify_all-Notified, same-lock_cv, same-lock_condition,
  same-unlock_condition, same-release, register_list,
}

-- A step that leaves the list and the flags alone and the moving task without a flag.
quiet-Inv :
    (s : System.System) (h : Shared) (t : ℕ) (p : System.Place)
    → SameList s.shared h
    → s.place t ≡ System.idle
    → System.flag_of p ≡ none
    → Inv s
    → Inv (System.goes s h t p)
quiet-Inv s h t p same at no_flag v =
    keep-Inv s h t p (SameList-Notified s.left s.shared h same) (ground arith) (λ f e. ground arith)
      v

woken_right :
    (s : System.System) (t f : ℕ)
    → s.place t ≡ System.sleeping f
    → wait_check f s.shared ≡ true
    → (g : ℕ) → System.flag_of (System.retaking f) ≡ some g
    → listed (System.retaking f) (s.shared.flag g) ≡ listed (s.place t) (s.shared.flag g)
unfolding wait_check
woken_right s t f at ready g e = ground arith

-- Every step keeps the invariant.
Step-Inv : {s s' : System.System} → System.Step s s' → Inv s → Inv s'
Step-Inv {s} (System.calls t f h l at fresh done e) v =
    rw e (begin-Inv s h t f (same-lock_cv t s.shared h l done) at fresh v)
Step-Inv {s} (System.registers t f h at done e) v =
    let k = register_list t f s.shared h done in rw e (register-Inv s h t f k.0 k.1 at v)
Step-Inv {s} (System.releases t f h at done e) v = rw e (
    keep-Inv s h t (System.sleeping f)
      (SameList-Notified s.left s.shared h (same-release t (notified f) s.shared h (ok tt) done))
      (ground arith) (λ g k. ground arith) v)
Step-Inv {s} (System.refuses t f h x at done e) v =
    rw e (leave-Inv s h t f (same-release t (notified f) s.shared h (throw x) done) at v)
Step-Inv {s} (System.wakes t f h l at ready done e) v = rw e (
    keep-Inv s h t (System.retaking f)
      (SameList-Notified s.left s.shared h (same-lock_condition t s.shared h l done)) (ground arith)
      (woken_right s t f at ready) v)
Step-Inv {s} (System.returns t f at own e) v = rw e (end-Inv s t f at v)
Step-Inv {s} (System.asks t h l at done e) v =
    rw e (quiet-Inv s h t System.notifying (same-lock_cv t s.shared h l done) at refl v)
Step-Inv {s} (System.notifies_one t h at done e) v = rw e (
    keep-Inv s h t System.idle (notify_one-Notified s h t s.shared.waiting_tasks v refl done)
      (ground arith) (λ g k. ground arith) v)
Step-Inv {s} (System.notifies_all t h at done e) v = rw e (
    keep-Inv s h t System.idle (notify_all-Notified s h t done) (ground arith) (λ g k. ground arith)
      v)
Step-Inv {s} (System.locks t h l at done e) v =
    rw e (quiet-Inv s h t System.idle (same-lock_condition t s.shared h l done) at refl v)
Step-Inv {s} (System.unlocks t h at done e) v =
    rw e (quiet-Inv s h t System.idle (same-unlock_condition t s.shared h done) at refl v)

Reach-Inv :
    {tasks : Store Pending} {flag : ℕ → Bool} {s : System.System}
    → System.Reach tasks flag s
    → Inv s
Reach-Inv {tasks} {flag} System.start = init-Inv tasks flag
Reach-Inv (System.next r st) = Step-Inv st (Reach-Inv r)

-- In every reachable state of tasks that call `wait` and the notifications, and no `waitFor`: every
-- address in the list of waiting tasks is the flag of a call of `wait` that has registered and was not
-- notified yet, so that no notification writes to a call that has returned; or a call with its flag at
-- that address was left by the exception of its release, for the task did not own the mutex.
pub no_dangling_entry :
    {tasks : Store Pending} {flag : ℕ → Bool} {s : System.System} (f : ℕ)
    → System.Reach tasks flag s
    → 0 < count f s.shared.waiting_tasks
    → (s.left f ≡ true)
      ⊎ ((t : ℕ) × ((s.place t ≡ System.registered f) ⊎ (s.place t ≡ System.sleeping f))
          × (s.shared.flag f ≡ false))
no_dangling_entry {s} f r entry = elim (Bool-cases (s.left f)) [
  | inl gone ↦ inl gone
  | inr stays ↦
      let v = Reach-Inv r in
      let (t, e) = v.live f stays entry in
      let k = v.entries t f e stays in inr (t, ground arith, ground arith)
]
