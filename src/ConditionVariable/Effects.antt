-- ===== src/ConditionVariable/Effects.antt =====
-- What the calls of the condition variable change of the list of waiting tasks and of the flags.
use task_r.Base.{
  ℕ, ◌≡◌, inl, inr, refl, false, List, [], ◌∷◌, ◌++◌, ◌==◌, if◌then◌else◌, arith, Bool-cases, ok,
  Outcome, ltb,
}
use task_r.Task.Graph.{count}
use task_r.Mutex.{Locking}
use task_r.ConditionVariable.{
  Shared, Pending, lock_cv, lock_condition, unlock_condition, enlist, register, release, notify_one,
  notify_all,
}
use task_r.ConditionVariable.Notify.{notify_loop_lem}
use task_r.ConditionVariable.System
use task_r.ConditionVariable.Listing.{Inv, SameList, Notified, entry_once}

pub notify_one-Notified :
    (s : System.System) (h : Shared) (t : ℕ) (w : List ℕ)
    → Inv s
    → s.shared.waiting_tasks ≡ w
    → notify_one t s.shared ≡ (h, ok tt)
    → Notified s.left s.shared h
unfolding notify_one
notify_one-Notified s h t [] v e done f stays = inl (ground arith, ground arith)
notify_one-Notified s h t (g ∷ rest) v e done f stays = elim (Bool-cases (g == f)) [
  | inl here ↦ inr (ground (arith, entry_once s f stays v), ground arith)
  | inr other ↦ inl (ground arith, ground arith)
]

pub notify_all-Notified :
    (s : System.System) (h : Shared) (t : ℕ)
    → notify_all t s.shared ≡ (h, ok tt)
    → Notified s.left s.shared h
unfolding notify_all
notify_all-Notified s h t done f stays =
    let k = notify_loop_lem s.shared.waiting_tasks s.shared refl in
    elim (Bool-cases (ltb 0 (count f s.shared.waiting_tasks))) [
      | inl entry ↦ inr (ground (arith, k.0), ground (arith, k.1 f))
      | inr none_there ↦ inl (ground (arith, k.0), ground (arith, k.1 f))
    ]

pub same-lock_cv : (t : ℕ) (s h : Shared) (l : Locking) → lock_cv t s ≡ (h, ok l) → SameList s h
unfolding lock_cv
same-lock_cv t s h l e = ground arith

pub same-lock_condition :
    (t : ℕ) (s h : Shared) (l : Locking) → lock_condition t s ≡ (h, ok l) → SameList s h
unfolding lock_condition
same-lock_condition t s h l e = ground arith

pub same-unlock_condition :
    (t : ℕ) (s h : Shared) → unlock_condition t s ≡ (h, ok tt) → SameList s h
unfolding unlock_condition
same-unlock_condition t s h e = ground arith

pub same-release :
    (t : ℕ) (op : Pending) (s h : Shared) (o : Outcome (Unit {0}))
    → release t op s ≡ (h, o)
    → SameList s h
unfolding release
same-release t op s h o e = ground arith

pub register_list :
    (t g : ℕ) (s h : Shared)
    → register t g s ≡ (h, ok tt)
    → (h.waiting_tasks ≡ s.waiting_tasks ++ g ∷ [])
      × ((f : ℕ) → h.flag f ≡ (if g == f then false else s.flag f))
unfolding register
register_list t g s h e = (ground arith, λ f. ground arith)

pub enlist_list :
    (t g : ℕ) (s h : Shared)
    → enlist t g s ≡ (h, ok tt)
    → (h.waiting_tasks ≡ s.waiting_tasks ++ g ∷ []) × (h.flag ≡ s.flag)
unfolding enlist
enlist_list t g s h e = (ground arith, ground arith)
