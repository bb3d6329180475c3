-- ===== src/ConditionVariable/Notify.antt =====
-- What a notification reaches.
use task_r.Base.{ℕ, ◌≡◌, refl, true, List, [], ◌∷◌, if◌then◌else◌, arith, ltb, ok, some}
use task_r.Task.Graph.{count}
use task_r.ConditionVariable.{Shared, write, notify_all, notify_loop}

pub notify_loop_lem :
    (fs : List ℕ) (s : Shared)
    → s.waiting_tasks ≡ fs
    → ((notify_loop fs s).waiting_tasks ≡ [])
      × ((f : ℕ) → (notify_loop fs s).flag f ≡ (if ltb 0 (count f fs) then true else s.flag f))
      × ((notify_loop fs s).mutex ≡ s.mutex)
      × ((notify_loop fs s).condition_mutex ≡ s.condition_mutex)
unfolding notify_loop
notify_loop_lem [] s e = (e, λ f. refl, refl, refl)
notify_loop_lem (g ∷ rest) s e =
    let s1 = record s { waiting_tasks = rest; flag = write g true s.flag } in
    let ih = notify_loop_lem rest s1 refl in (ih.0, λ f. ground (arith, ih.1 f), ih.2, ih.3)

-- `notifyAll` by a task that holds the internal mutex returns with nobody waiting, every flag in the
-- list of waiting tasks set, and every other flag as it was.
pub notify_all-sets :
    (t : ℕ) (s : Shared)
    → s.mutex.owner_task ≡ some t
    → ((notify_all t s).1 ≡ ok tt)
      × ((notify_all t s).0.waiting_tasks ≡ [])
      × ((f : ℕ)
          → (notify_all t s).0.flag f
            ≡ (if ltb 0 (count f s.waiting_tasks) then true else s.flag f))
unfolding notify_all
notify_all-sets t s own =
    let h = notify_loop_lem s.waiting_tasks s refl in (ground (arith, h.2), h.0, h.1)
