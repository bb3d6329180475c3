-- ===== src/Runtime/Tasks/Finish.antt =====
-- What `setFinishedTask` does: the tasks that waited for the finished one alone become ready.
use task_r.Base.{
  ℕ, suc, ◌+◌, ◌<◌, ◌^◌, ◌≡◌, ◌≢◌, ◌⊎◌, inl, inr, refl, List, [], ◌∷◌, ◌==◌, ◌&&◌, ltb,
  if◌then◌else◌, arith, length, Outcome, ok, dec64, dec64-sub, ◌>>=◌, ◌∙◌, after-eq-ok, All,
}
use task_r.Task
use task_r.Task.{Task, Store}
use task_r.Task.Graph.{count, waits_for, waits_for_same, IsConsistent}
use task_r.Runtime.State.{Runtime, Environment}
use task_r.Runtime.Queued.{queued, RoomFor, RoomFor-suc}
use task_r.Runtime.Tasks.{resume_task, release, release_all, set_finished_task}
use task_r.Runtime.Tasks.Resume.{
  Resumed, waiting, refused, full, ready, resume_task-Resumed, HasValidAffinity, Returns,
  Resumed-Returns,
}

module _ {Q Op W : Type 0} (env : Environment Q Op W) where
  -- Each counter is a number of dependencies that stay, `rest_of`, and those that are about to go.
  abbrev Counts : (ℕ → ℕ) → List ℕ → Store Op → Type 0
  Counts rest_of going store =
      (u : ℕ)
      → ((store u).dependency_count ≡ rest_of u + count u going)
        × (rest_of u + count u going < 2 ^ 64)

  -- How often `u` becomes ready when the tasks of a list are released.
  abbrev pub made_ready : ℕ → ℕ → ℕ
  made_ready stays goes = if ltb 0 goes && stays == 0 then 1 else 0

  pub record Releases (rest_of : ℕ → ℕ) (going : List ℕ) (s s' : Runtime Q Op W) : Type 0 where
    pub counts : (u : ℕ) → (s'.tasks u).dependency_count ≡ rest_of u
    pub entered :
        (u : ℕ)
        → queued env.queue u s' ≡ queued env.queue u s + made_ready (rest_of u) (count u going)
    pub outputs : (u : ℕ) → (s'.tasks u).output_dependencies ≡ (s.tasks u).output_dependencies
    pub active : s'.active_task_count ≡ s.active_task_count
    pub active_workers : s'.active_task_worker_count ≡ s.active_task_worker_count

  abbrev decremented : ℕ → Runtime Q Op W → Runtime Q Op W
  decremented d s = record s { tasks = Task.update d Task.decrement_dependency_count s.tasks }

  decremented-count :
      (d u : ℕ) (s : Runtime Q Op W)
      → ((decremented d s).tasks u).dependency_count
        ≡ (if d == u then dec64 (s.tasks u).dependency_count else (s.tasks u).dependency_count)
  unfolding Task.update Task.decrement_dependency_count
  decremented-count d u s = ground arith

  decremented-outputs :
      (d u : ℕ) (s : Runtime Q Op W)
      → ((decremented d s).tasks u).output_dependencies ≡ (s.tasks u).output_dependencies
  unfolding Task.update Task.decrement_dependency_count
  decremented-outputs d u s = ground arith

  decremented-Counts :
      (rest_of : ℕ → ℕ) (d : ℕ) (going : List ℕ) (s : Runtime Q Op W)
      → Counts rest_of (d ∷ going) s.tasks
      → Counts rest_of going (decremented d s).tasks
  decremented-Counts rest_of d going s c u =
      ground (arith, c u, decremented-count d u s, dec64-sub (s.tasks u).dependency_count)

  -- The two ways in which one release goes on: the task still waits, or it is resumed.
  release-cases :
      (d : ℕ) (s : Runtime Q Op W)
      → ((((decremented d s).tasks d).dependency_count ≢ 0)
          × (release env d s ≡ (decremented d s, ok tt)))
        ⊎ ((((decremented d s).tasks d).dependency_count ≡ 0)
            × (release env d s ≡ resume_task env d (decremented d s)))
  unfolding release
  release-cases d s = ground arith

  -- What a release that returns did to the queues.
  record Entered (d : ℕ) (s s' : Runtime Q Op W) : Type 0 where
    entered :
        (u : ℕ)
        → queued env.queue u s'
          ≡ queued env.queue u s
            + (if d == u && ((decremented d s).tasks d).dependency_count == 0 then 1 else 0)
    tasks : s'.tasks ≡ (decremented d s).tasks
    active : s'.active_task_count ≡ s.active_task_count
    active_workers : s'.active_task_worker_count ≡ s.active_task_worker_count

  Resumed-Entered :
      (d : ℕ) (s s' : Runtime Q Op W) {r : Runtime Q Op W × Outcome (Unit {0})}
      → Resumed env d (decremented d s) r
      → ((decremented d s).tasks d).dependency_count ≡ 0
      → r ≡ (s', ok tt)
      → Entered d s s'
  Resumed-Entered d s s' (waiting p) z e = absurd (omega arith)
  Resumed-Entered d s s' (refused p q) z e = cc
  Resumed-Entered d s s' (full p q) z e = cc
  Resumed-Entered d s s' (ready p v) z e = record {
    entered = λ u. ground (arith, v.entered u);
    tasks = ground (arith, v.tasks);
    active = ground (arith, v.active);
    active_workers = ground (arith, v.active_workers);
  }

  release-Entered : (d : ℕ) (s s' : Runtime Q Op W) → release env d s ≡ (s', ok tt) → Entered d s s'
  release-Entered d s s' h = elim (release-cases d s) [
    | inl (more, e) ↦ record {
      entered = λ u. ground arith;
      tasks = ground arith;
      active = ground arith;
      active_workers = ground arith;
    }
    | inr (last, e) ↦
        Resumed-Entered d s s' (resume_task-Resumed env d (decremented d s)) last (ground arith)
  ]

  pub release_all-Releases :
      (rest_of : ℕ → ℕ) (going : List ℕ) (s s' : Runtime Q Op W)
      → Counts rest_of going s.tasks
      → release_all env going s ≡ (s', ok tt)
      → Releases rest_of going s s'
  unfolding release_all
  release_all-Releases rest_of [] s s' c h = record {
    counts = λ u. ground (arith, c u);
    entered = λ u. ground arith;
    outputs = λ u. ground arith;
    active = ground arith;
    active_workers = ground arith;
  }
  release_all-Releases rest_of (d ∷ going) s s' c h =
      let (s1, _, first, later) = after-eq-ok (release env d s) _ h in
      let one = release-Entered d s s1 (ground arith) in
      let c1 : Counts rest_of going s1.tasks =
        rw one.tasks (decremented-Counts rest_of d going s c) in
      let others = release_all-Releases rest_of going s1 s' c1 later in
      record {
        counts = others.counts;
        entered = λ u. ground (
          arith,
          others.entered u,
          one.entered u,
          c d,
          c u,
          decremented-count d d s,
          dec64-sub (s.tasks d).dependency_count,
        );
        outputs = λ u. ground (arith, others.outputs u, one.tasks, decremented-outputs d u s);
        active = ground (arith, others.active, one.active);
        active_workers = ground (arith, others.active_workers, one.active_workers);
      }

  decremented-affinity :
      (d u : ℕ) (s : Runtime Q Op W)
      → ((decremented d s).tasks u).worker_affinity ≡ (s.tasks u).worker_affinity
  unfolding Task.update Task.decrement_dependency_count
  decremented-affinity d u s = ground arith

  release-Returns :
      (d n : ℕ) (s : Runtime Q Op W)
      → RoomFor env.queue (suc n) s
      → HasValidAffinity env s d
      → (s' : Runtime Q Op W) × (release env d s ≡ (s', ok tt)) × Returns env n (decremented d s) s'
  release-Returns d n s room valid = elim (release-cases d s) [
    | inl (more, e) ↦ (
      decremented d s,
      e,
      record {
        tasks = refl;
        workers = refl;
        room = RoomFor-suc env.queue n (decremented d s) room;
      },
    )
    | inr (last, e) ↦
        let (s', f, v) =
          Resumed-Returns env d n (decremented d s) (resume_task-Resumed env d (decremented d s))
            room (rw (decremented-affinity d d s) valid) in
        (s', e ∙ f, v)
  ]

  AllValid-decremented :
      (d n : ℕ) (s s' : Runtime Q Op W) (ts : List ℕ)
      → Returns env n (decremented d s) s'
      → All (HasValidAffinity env s) ts
      → All (HasValidAffinity env s') ts
  AllValid-decremented d n s s' [] v h = tt
  AllValid-decremented d n s s' (t ∷ ts) v h = (
    rw (v.workers, v.tasks, decremented-affinity d t s) h.0,
    AllValid-decremented d n s s' ts v h.1,
  )

  -- Releasing returns as long as every queue has room and no affinity is beyond the last worker.
  pub release_all_returns :
      (going : List ℕ) (s : Runtime Q Op W)
      → RoomFor env.queue (length going) s
      → All (HasValidAffinity env s) going
      → (s' : Runtime Q Op W) × (release_all env going s ≡ (s', ok tt))
  unfolding release_all
  release_all_returns [] s room valid = (s, refl)
  release_all_returns (d ∷ going) s room valid =
      let (s1, e, v) = release-Returns d (length going) s room valid.0 in
      let (s', f) =
        release_all_returns going s1 v.room
          (AllValid-decremented d (length going) s s1 going v valid.1) in
      (s', rw (e, ◌>>=◌) f)

  -- The dependencies of `u` on the unfinished tasks, without the first of the list.
  pub waits_for-Releases :
      (t : ℕ) (others : List ℕ) (s : Runtime Q Op W)
      → IsConsistent s.tasks (t ∷ others)
      → Counts (waits_for s.tasks others) (s.tasks t).output_dependencies s.tasks
  waits_for-Releases t others s c u = (omega (arith, c.counted u), omega (arith, c.fits u))

  -- When a task finishes that stands first among the unfinished ones, in a graph whose counters and
  -- output dependencies agree, with room in the ready queues for its dependents and with valid
  -- affinities: the call returns, the counters agree with the graph of the remaining tasks, the
  -- number of active tasks is as before, and exactly the dependents that wait for no remaining task
  -- enter a ready queue, each once.
  pub set_finished_task-Releases :
      (t : ℕ) (others : List ℕ) (s : Runtime Q Op W)
      → IsConsistent s.tasks (t ∷ others)
      → RoomFor env.queue (length (s.tasks t).output_dependencies) s
      → All (HasValidAffinity env s) (s.tasks t).output_dependencies
      → (s' : Runtime Q Op W) × (set_finished_task env t s ≡ (s', ok tt))
        × IsConsistent s'.tasks others
        × (s'.active_task_count ≡ s.active_task_count)
        × ((u : ℕ)
            → queued env.queue u s'
              ≡ queued env.queue u s
                + made_ready
                    (waits_for s'.tasks others u)
                    (count u (s.tasks t).output_dependencies))
  unfolding set_finished_task
  set_finished_task-Releases t others s c room valid =
      let (s', e) = release_all_returns (s.tasks t).output_dependencies s room valid in
      let v =
        release_all-Releases (waits_for s.tasks others) (s.tasks t).output_dependencies s s'
          (waits_for-Releases t others s c) e in
      let same = λ (u : ℕ). waits_for_same s.tasks s'.tasks others u v.outputs in
      (
        s',
        e,
        record {
          counted = λ u. rw (same u) (v.counts u);
          fits = λ u. rw (same u) (omega (arith, c.fits u));
        },
        v.active,
        λ u. rw (same u) (v.entered u),
      )
