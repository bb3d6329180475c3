-- ===== src/Examples/Cholesky/Graph.antt =====
-- The graph that the calls of `cholesky` build, kernel by kernel: each is an addition of a run of the
-- runtime, and depends on every earlier one that wrote a block which it gets.
use task_r.Base.{
  ℕ, suc, ◌+◌, ◌*◌, ◌<◌, ◌^◌, ◌≡◌, ◌==◌, true, List, [], ◌∷◌, ◌++◌, some, arith, refl, sym, ap, ◌∙◌,
  subst, length, All, if◌then◌else◌, ok, ◌>>◌, inc64, inc64-add, negsuc, M, Bool-cases, inl, inr,
}
use task_r.Task
use task_r.Task.{Store, Function}
use task_r.Task.Graph.{count, count-append, outputs-add_dependency}
use task_r.Task.Order.{depend_on, created, All-count, affinity-add_dependency}
use task_r.Runtime.State.{Runtime, Environment}
use task_r.Runtime.Queued.{RoomFor}
use task_r.Runtime.Tasks.{add_task}
use task_r.Runtime.Tasks.Resume.{HasValidAffinity, Resumed-Returns, resume_task-Resumed}
use task_r.Runtime.Tasks.Add.{counted_in, add_task-resume_task, counted_in-affinity}
use task_r.Runtime.Execution.Frames.{counted_in-outputs}
use task_r.Runtime.Execution.{Reach, next, adds}
use task_r.Examples.Cholesky.Schedule.{touches}
use task_r.Examples.Cholesky.Writers.{
  tasks_of, kernel_at, kernel_at_lt, writers, gather, onto, count-tasks_of, length-tasks_of,
  writers_small, gather_small, length-gather, gather_hit, contains_none,
}
use task_r.Examples.Cholesky.{
  Cell, Kernel, accesses, output, same_cell, emplace, Building, with_tasks, add_task_dependencies,
  update_dependency_grid, new_task, spawn,
}

module _ {Op : Type 0} where
  depend_on-append :
      (t : ℕ) (xs ys : List ℕ) (store : Store Op)
      → depend_on t (xs ++ ys) store ≡ depend_on t ys (depend_on t xs store)
  depend_on-append t [] ys store = refl
  depend_on-append t (x ∷ xs) ys store = depend_on-append t xs ys (Task.add_dependency t x store)

  outputs-depend_on :
      (t u m : ℕ) (ds : List ℕ) (store : Store Op)
      → count u (depend_on t ds store m).output_dependencies
        ≡ count u (store m).output_dependencies + (if t == u then count m ds else 0)
  outputs-depend_on t u m [] store = ground arith
  outputs-depend_on t u m (d ∷ ds) store = ground (
    arith,
    outputs-depend_on t u m ds (Task.add_dependency t d store),
    outputs-add_dependency t d m store,
    count-append u (store m).output_dependencies (t ∷ []),
  )

  affinity-depend_on :
      (t u : ℕ) (ds : List ℕ) (store : Store Op)
      → (depend_on t ds store u).worker_affinity ≡ (store u).worker_affinity
  affinity-depend_on t u [] store = refl
  affinity-depend_on t u (d ∷ ds) store =
      affinity-depend_on t u ds (Task.add_dependency t d store)
      ∙ affinity-add_dependency t d u store

module _ {Q Op W : Type 0} (env : Environment Q Op W) (function : Kernel → Function) where
  pub record Wired (ks : List Kernel) (store : Store Op) : Type 0 where
    pub later :
        (m n : ℕ) (k l : Kernel)
        → kernel_at m ks ≡ some k
        → kernel_at n ks ≡ some l
        → m < n
        → touches (accesses l) (output k) ≡ true
        → 0 < count n (store m).output_dependencies

  -- The kernels `ks` were spawned, the newest first.
  pub record Builds (ks : List Kernel) (b : Building Q Op W) : Type 0 where
    pub counter : b.task_counter ≡ length ks
    pub grid : (r c : ℕ) → b.dependency_grid r c ≡ writers (r, c) ks
    pub reach : Reach env (record { runtime = b.runtime; executing = []; unfinished = tasks_of ks })
    pub wired : Wired ks b.runtime.tasks

  -- `addTaskDependency` for each block.
  add_task_dependencies-gather :
      (t : ℕ) (cs : List Cell) (ks : List Kernel) (b : Building Q Op W)
      → ((r c : ℕ) → b.dependency_grid r c ≡ writers (r, c) ks)
      → add_task_dependencies t cs b ≡ (with_tasks (depend_on t (gather cs ks)) b, ok tt)
  unfolding add_task_dependencies
  add_task_dependencies-gather t [] ks b h = refl
  add_task_dependencies-gather t ((r, c) ∷ cs) ks b h =
      rw (depend_on-append t (writers (r, c) ks) (gather cs ks) b.runtime.tasks) (
        rw (sym (h r c)) (
          add_task_dependencies-gather t cs ks (with_tasks (depend_on t (b.dependency_grid r c)) b)
            h))

  -- The state in which the task of a kernel is added.
  abbrev prepared : Kernel → List Kernel → Runtime Q Op W → Runtime Q Op W
  prepared k ks r = record r {
    tasks =
        depend_on (length ks) (gather (accesses k) ks)
          (created (length ks) (some (length ks)) (function k) (negsuc 0) r.tasks);
  }

  prepared-valid :
      (k : Kernel) (ks : List Kernel) (r : Runtime Q Op W)
      → HasValidAffinity env (counted_in env (length ks) (prepared k ks r)) (length ks)
  unfolding created
  prepared-valid k ks r =
      let made = created (length ks) (some (length ks)) (function k) (negsuc 0) r.tasks in
      let same : (made (length ks)).worker_affinity ≡ negsuc 0 = ground arith in
      rw
        (
          counted_in-affinity env (length ks) (length ks) (prepared k ks r),
          affinity-depend_on (length ks) (length ks) (gather (accesses k) ks) made,
          same,
        )
        (ground arith)

  -- The task of a kernel that touches a block depends on the earlier tasks that wrote it.
  prepared-Wired :
      (k : Kernel) (ks : List Kernel) (r : Runtime Q Op W) (store : Store Op)
      → Wired ks r.tasks
      → ((u : ℕ) → (store u).output_dependencies ≡ ((prepared k ks r).tasks u).output_dependencies)
      → Wired (k ∷ ks) store
  unfolding created
  prepared-Wired k ks r store v same = record {
    later = λ m n x y ex ey lt touched.
        let ds = gather (accesses k) ks in
        let made = created (length ks) (some (length ks)) (function k) (negsuc 0) r.tasks in
        let older : m < length ks = ground (arith, kernel_at_lt n ks y) in
        let ex' : kernel_at m ks ≡ some x = ground arith in
        elim (Bool-cases (n == length ks)) [
          | inl here ↦
              let y_is : k ≡ y = ground arith in
              let hit =
                gather_hit (accesses k) ks m x ex'
                  (subst (λ z. touches (accesses z) (output x) ≡ true) (sym y_is) touched) in
              ground (arith, same m, outputs-depend_on (length ks) n m ds made)
          | inr before ↦
              let ey' : kernel_at n ks ≡ some y = ground arith in
              ground (
                arith,
                same m,
                outputs-depend_on (length ks) n m ds made,
                v.later m n x y ex' ey' lt touched,
              )
        ];
  }

  gather-counted :
      (cs : List Cell) (ks : List Kernel) → All (λ d. count d (tasks_of ks) ≡ 1) (gather cs ks)
  gather-counted cs ks =
      All-count (λ d. count d (tasks_of ks) ≡ 1) (gather cs ks)
        (λ d h. ground (arith, count-tasks_of d ks, gather_small cs ks d h))

  -- What `spawn` does before `addTask`.
  abbrev before_addition : Kernel → List Kernel → Building Q Op W → Building Q Op W
  before_addition k ks b = record {
    dependency_grid = λ r c.
        if same_cell (output k) (r, c)
        then emplace (length ks) (b.dependency_grid r c)
        else b.dependency_grid r c;
    task_counter = inc64 b.task_counter;
    runtime = prepared k ks b.runtime;
  }

  spawn_eq :
      (k : Kernel) (ks : List Kernel) (b : Building Q Op W) (r : Runtime Q Op W)
      → b.task_counter ≡ length ks
      → ((r c : ℕ) → b.dependency_grid r c ≡ writers (r, c) ks)
      → add_task env (length ks) (prepared k ks b.runtime) ≡ (r, ok tt)
      → spawn env function k b ≡ (record (before_addition k ks b) { runtime = r }, ok tt)
  unfolding spawn new_task update_dependency_grid created Task.create Task.create_with_id
  spawn_eq k ks b r counter grid e =
      let made : Building Q Op W = record {
        dependency_grid = b.dependency_grid;
        task_counter = inc64 (length ks);
        runtime = record b.runtime {
          tasks = created (length ks) (some (length ks)) (function k) (negsuc 0) b.runtime.tasks;
        };
      } in
      rw (counter, add_task_dependencies-gather (length ks) (accesses k) ks made grid, e) refl

  emplaced :
      (k : Kernel) (ks : List Kernel) (b : Building Q Op W)
      → ((r c : ℕ) → b.dependency_grid r c ≡ writers (r, c) ks)
      → (r c : ℕ) → (before_addition k ks b).dependency_grid r c ≡ writers (r, c) (k ∷ ks)
  emplaced k ks b grid r c =
      rw
        (
          grid r c,
          contains_none (length ks) (writers (r, c) ks)
              (ground (arith, writers_small (r, c) ks (length ks))),
        )
        refl

  -- Spawning a kernel returns where there is room, and is an addition of a run.
  pub spawn-Builds :
      (k : Kernel) (ks : List Kernel) (n : ℕ) (b : Building Q Op W)
      → Builds ks b
      → RoomFor env.queue (suc n) b.runtime
      → 3 * (length ks + 1) < 2 ^ 64
      → (b' : Building Q Op W) × (spawn env function k b ≡ (b', ok tt))
        × Builds (k ∷ ks) b'
        × RoomFor env.queue n b'.runtime
  spawn-Builds k ks n b v room few =
      let t = length ks in
      let p = prepared k ks b.runtime in
      let (r, e, back) =
        Resumed-Returns env t n (counted_in env t p)
          (resume_task-Resumed env t (counted_in env t p)) room (prepared-valid k ks b.runtime) in
      let run : add_task env t p ≡ (r, ok tt) = add_task-resume_task env t p ∙ e in
      (
        record (before_addition k ks b) { runtime = r },
        spawn_eq k ks b r v.counter v.grid run,
        record {
          counter = ground (arith, v.counter, inc64-add t);
          grid = emplaced k ks b v.grid;
          reach = next v.reach (
              adds t (some t) (function k) (negsuc 0) (gather (accesses k) ks) r
                (ground (arith, count-tasks_of t ks)) (gather-counted (accesses k) ks)
                (omega (arith, length-gather k ks)) (omega (arith, length-tasks_of ks))
                (ground arith) run refl);
          wired = prepared-Wired k ks b.runtime r.tasks v.wired (λ u.
              ap (λ ts. (ts u).output_dependencies) back.tasks ∙ counted_in-outputs env t u p);
        },
        back.room,
      )

  -- The kernels of a list, one after the other.
  abbrev pub spawn_all : List Kernel → M (Building Q Op W) (Unit {0})
  spawn_all [] = λ b. (b, ok tt)
  spawn_all (k ∷ ks) = spawn env function k >> spawn_all ks

  pub spawn_all-Builds :
      (ks done : List Kernel) (b : Building Q Op W)
      → Builds done b
      → RoomFor env.queue (length ks) b.runtime
      → 3 * (length ks + length done) < 2 ^ 64
      → (b' : Building Q Op W) × (spawn_all ks b ≡ (b', ok tt)) × Builds (onto ks done) b'
  spawn_all-Builds [] done b v room few = (b, refl, v)
  spawn_all-Builds (k ∷ ks) done b v room few =
      let (b1, e, v1, room1) = spawn-Builds k done (length ks) b v room (omega arith) in
      let (b2, f, v2) = spawn_all-Builds ks (k ∷ done) b1 v1 room1 (omega arith) in (b2, rw e f, v2)
