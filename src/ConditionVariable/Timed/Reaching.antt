-- ===== src/ConditionVariable/Timed/Reaching.antt =====
-- No wake-up is lost, also with timeouts: the flag of a call that still sleeps is in the list.
use task_r.Base.{
  ℕ, ◌<◌, ◌≡◌, ◌⊎◌, inl, inr, Bool, true, some, List, [], ◌∷◌, ◌==◌, arith, ok, throw, Bool-cases,
  ltb, refl,
}
use task_r.Task.Graph.{count}
use task_r.ConditionVariable.{
  Shared, notify_one, notify_all, wait_check, wait_for_check, wait_for_condition_check,
}
use task_r.ConditionVariable.Notify.{notify_loop_lem, notify_all-sets}
use task_r.ConditionVariable.Effects.{
  same-lock_cv, same-lock_condition, same-unlock_condition, same-release,
}
use task_r.ConditionVariable.Timed
use task_r.ConditionVariable.Timed.{
  Kind, Call, wait, wait_condition, wait_for_condition, wait_for, check, begin, enter_list,
}
use task_r.ConditionVariable.Timed.Listing.{
  Inv, Spares, SameList-Spares, Spares-trans, keep-Inv, leave-Inv, begin-Inv, register-Inv,
}

notify_one-Spares :
    (t : ℕ) (w : List ℕ) (s h : Shared)
    → s.waiting_tasks ≡ w
    → notify_one t s ≡ (h, ok tt)
    → Spares s h
unfolding notify_one
notify_one-Spares t [] s h e done f = inl (ground arith, ground arith)
notify_one-Spares t (g ∷ rest) s h e done f = elim (Bool-cases (g == f)) [
  | inl here ↦ inr (ground arith)
  | inr other ↦ inl (ground arith, ground arith)
]

notify_all-Spares : (t : ℕ) (s h : Shared) → notify_all t s ≡ (h, ok tt) → Spares s h
unfolding notify_all
notify_all-Spares t s h done f =
    let k = notify_loop_lem s.waiting_tasks s refl in
    elim (Bool-cases (ltb 0 (count f s.waiting_tasks))) [
      | inl entry ↦ inr (ground (arith, k.1 f))
      | inr none_there ↦ inl (ground (arith, k.1 f), ground arith)
    ]

-- A pending operation that is asked sets the flag of its own call at most.
check-Spares :
    (k : Kind) (f now : ℕ) (s h : Shared) (b : Bool) → check k f now s ≡ (h, b) → Spares s h
unfolding check wait_for_condition_check wait_for_check
check-Spares wait f now s h b e g = inl (ground arith, ground arith)
check-Spares wait_condition f now s h b e g = inl (ground arith, ground arith)
check-Spares (wait_for_condition timeout start) f now s h b e g = inl (ground arith, ground arith)
check-Spares (wait_for timeout start) f now s h b e g = elim (Bool-cases (f == g)) [
  | inl own ↦ ground arith
  | inr other ↦ inl (ground arith, ground arith)
]

Step-Inv : {s s' : Timed.System} → Timed.Step s s' → Inv s → Inv s'
Step-Inv {s} (Timed.calls t f k h h' l at fresh begun done e) v =
    rw e (begin-Inv s h h' t f k at fresh begun (same-lock_cv t h h' l done) v)
Step-Inv {s} (Timed.registers t c h at done e) v = rw e (register-Inv s h t c at done v)
Step-Inv {s} (Timed.releases t c h at done e) v = rw e (
    keep-Inv s h t (Timed.sleeping c)
      (SameList-Spares s.shared h
        (same-release t (Timed.operation c.kind c.flag) s.shared h (ok tt) done))
      (ground arith) (λ b. ground arith) v)
Step-Inv {s} (Timed.refuses t c h x at done e) v = rw e (
    leave-Inv s h t Timed.idle
      (SameList-Spares s.shared h
        (same-release t (Timed.operation c.kind c.flag) s.shared h (throw x) done))
      refl v)
Step-Inv {s} (Timed.wakes t now c h h' l at ready done e) v = rw e (
    keep-Inv s h' t (Timed.retaking c)
      (Spares-trans s.shared h h' (check-Spares c.kind c.flag now s.shared h true ready)
        (same-lock_condition t h h' l done))
      (ground arith) (λ b. ground arith) v)
Step-Inv {s} (Timed.returns t c satisfied answer at own ends e) v =
    rw e (leave-Inv s s.shared t Timed.idle (λ f. inl (refl, omega arith)) refl v)
Step-Inv {s} (Timed.repeats t c satisfied h l at own again done e) v = rw e (
    keep-Inv s h t (Timed.entering c)
      (SameList-Spares s.shared h (same-lock_cv t s.shared h l done)) (ground arith)
      (λ b. ground arith) v)
Step-Inv {s} (Timed.asks t h l at done e) v = rw e (
    leave-Inv s h t Timed.notifying (SameList-Spares s.shared h (same-lock_cv t s.shared h l done))
      refl v)
Step-Inv {s} (Timed.notifies_one t h at done e) v = rw e (
    leave-Inv s h t Timed.idle (notify_one-Spares t s.shared.waiting_tasks s.shared h refl done)
      refl v)
Step-Inv {s} (Timed.notifies_all t h at done e) v =
    rw e (leave-Inv s h t Timed.idle (notify_all-Spares t s.shared h done) refl v)
Step-Inv {s} (Timed.locks t h l at done e) v = rw e (
    leave-Inv s h t Timed.idle
      (SameList-Spares s.shared h (same-lock_condition t s.shared h l done)) refl v)
Step-Inv {s} (Timed.unlocks t h at done e) v = rw e (
    leave-Inv s h t Timed.idle
      (SameList-Spares s.shared h (same-unlock_condition t s.shared h done)) refl v)

Reach-Inv : {s : Timed.System} → Timed.Reach s → Inv s
Reach-Inv (Timed.start h e) = record { entries = λ t f e. cc; distinct = λ t u f e g. cc }
Reach-Inv (Timed.next r st) = Step-Inv st (Reach-Inv r)

-- A set flag satisfies the pending operation of any call, at any time.
flagged-check : (k : Kind) (f now : ℕ) (s : Shared) → s.flag f ≡ true → (check k f now s).1 ≡ true
unfolding check wait_check wait_for_condition_check wait_for_check
flagged-check wait f now s e = ground arith
flagged-check wait_condition f now s e = ground arith
flagged-check (wait_for_condition timeout start) f now s e = ground arith
flagged-check (wait_for timeout start) f now s e = ground arith

-- No wake-up is lost, with and without timeouts: a task that sleeps in any of the calls that wait was
-- notified, or the address of its flag is in the list; and after a `notifyAll` by any task that holds
-- the internal mutex, its pending operation is satisfied whenever it is asked.
pub sleeper_is_reached :
    {s : Timed.System} (t u now : ℕ) (c : Call)
    → Timed.Reach s
    → s.place t ≡ Timed.sleeping c
    → s.shared.mutex.owner_task ≡ some u
    → ((s.shared.flag c.flag ≡ true) ⊎ (0 < count c.flag s.shared.waiting_tasks))
      × ((check c.kind c.flag now (notify_all u s.shared).0).1 ≡ true)
sleeper_is_reached {s} t u now c r at own =
    let k = (Reach-Inv r).entries t c.flag (ground arith) in
    let all = notify_all-sets u s.shared own in
    (
      ground arith,
      flagged-check c.kind c.flag now (notify_all u s.shared).0 (ground (arith, all.2 c.flag)),
    )
