-- ===== src/Mutex/Order.antt =====
-- Who gets the mutex next, and that nobody is forgotten or overtaken.
use task_r.Base.{
  ℕ, suc, ◌<◌, ◌≤◌, ◌≡◌, ◌⊎◌, inl, inr, true, Option, none, some, List, [], ◌∷◌, ◌++◌, ◌==◌,
  if◌then◌else◌, arith, Option-cases,
}
use task_r.Task.{Store}
use task_r.Task.Graph.{count}
use task_r.Mutex.{Mutex, trylock, lock, unlock, owner_check_result}
use task_r.Mutex.System.{suspended, inside, System, Step, locks, tries, resumes, unlocks, Reach}
use task_r.Mutex.Exclusion.{Reach-Inv}

-- No deadlock and no lost hand-over: while a task is suspended in `lock`, the mutex has an owner that
-- either holds it, or is suspended with its pending operation satisfied, so that it runs on when it
-- is next polled.
pub somebody_proceeds :
    {store : Store (Unit {0})} {s : System} (t : ℕ)
    → Reach store s
    → s.place t ≡ suspended
    → (u : ℕ) × (s.mutex.owner_task ≡ some u)
      × ((s.place u ≡ inside) ⊎ ((s.place u ≡ suspended) × (owner_check_result u s.mutex ≡ true)))
unfolding owner_check_result
somebody_proceeds {s} t r at =
    let v = Reach-Inv r in
    elim (Option-cases s.mutex.owner_task) [
      | inl e ↦ absurd (ground (arith, v.queued t, v.free e))
      | inr (u, e) ↦ (u, e, ground (arith, v.owner u e))
    ]

-- How many hand-overs a suspended task is away from the mutex: none if it is the owner, and
-- otherwise one more than there are tasks before it in the queue.
abbrev before : ℕ → List ℕ → ℕ
before t [] = 0
before t (u ∷ us) = if u == t then 0 else suc (before t us)

abbrev rank_in : ℕ → List ℕ → Option ℕ → ℕ
rank_in t queue none = suc (before t queue)
rank_in t queue (some u) = if u == t then 0 else suc (before t queue)

abbrev pub rank : ℕ → Mutex → ℕ
rank t m = rank_in t m.queue m.owner_task

before-append : (t u : ℕ) (us : List ℕ) → 0 < count t us → before t (us ++ u ∷ []) ≡ before t us
before-append t u [] h = absurd (omega arith)
before-append t u (x ∷ us) h = ground (arith, before-append t u us)

-- While a task is suspended in `lock`, no step of any task takes it further from the mutex.
pub Step-rank :
    {store : Store (Unit {0})} {s s' : System} (t : ℕ)
    → Reach store s
    → s.place t ≡ suspended
    → Step s s'
    → rank t s'.mutex ≤ rank t s.mutex
unfolding lock trylock unlock
Step-rank {s} t r at (locks u out e) =
    let v = Reach-Inv r in ground (arith, v.queued t, v.free, before-append t u s.mutex.queue)
Step-rank {s} t r at (tries u out e) = let v = Reach-Inv r in ground (arith, v.queued t, v.free)
Step-rank {s} t r at (resumes u there owns e) = ground arith
Step-rank {s} t r at (unlocks u m there done e) =
    let v = Reach-Inv r in ground (arith, v.queued t, v.holds u there)
