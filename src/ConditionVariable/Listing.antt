-- ===== src/ConditionVariable/Listing.antt =====
-- The list of waiting tasks against the calls of `wait` that are under way: an invariant of the
-- steps, one lemma for each kind of change.
use task_r.Base.{
  ℕ, ◌<◌, ◌≡◌, ◌⊎◌, inl, inr, Bool, true, false, some, [], ◌∷◌, ◌++◌, ◌==◌, if◌then◌else◌, arith,
  Bool-cases, dec_lt,
}
use task_r.Task.{Store}
use task_r.Task.Graph.{count, count-append}
use task_r.ConditionVariable.{Shared, Pending, write}
use task_r.ConditionVariable.System

-- Whether a call's flag is to be in the list of waiting tasks: from its registration until it is
-- notified.
abbrev pub listed : System.Place → Bool → ℕ
listed (System.registered f) b = if b then 0 else 1
listed (System.sleeping f) b = if b then 0 else 1
listed _ b = 0

pub record Inv (s : System.System) : Type 0 where
  pub entries :
      (t f : ℕ)
      → System.flag_of (s.place t) ≡ some f
      → s.left f ≡ false
      → count f s.shared.waiting_tasks ≡ listed (s.place t) (s.shared.flag f)
  pub distinct :
      (t u f : ℕ)
      → System.flag_of (s.place t) ≡ some f
      → System.flag_of (s.place u) ≡ some f
      → t ≡ u
  pub live :
      (f : ℕ)
      → s.left f ≡ false
      → 0 < count f s.shared.waiting_tasks
      → (t : ℕ) × (System.flag_of (s.place t) ≡ some f)

pub init-Inv : (tasks : Store Pending) (flag : ℕ → Bool) → Inv (System.init tasks flag)
init-Inv tasks flag = record {
  entries = λ t f e stays. cc;
  distinct = λ t u f e g. cc;
  live = λ f stays h. absurd (omega arith);
}

-- A change of what is shared that keeps the list of waiting tasks and the flags.
pub record SameList (h h' : Shared) : Type 0 where
  pub waiting : h'.waiting_tasks ≡ h.waiting_tasks
  pub flags : h'.flag ≡ h.flag

listed-true : (p : System.Place) → listed p true ≡ 0
listed-true p = ground arith

listed_le : (p : System.Place) (b : Bool) → listed p b < 2
listed_le p b = ground arith

-- The flag and the entry of each call, where no exception left a call with that flag, are as before,
-- or the call was notified and has no entry.
abbrev pub Notified : (left : ℕ → Bool) → Shared → Shared → Type 0
Notified left h h' =
    (f : ℕ)
    → left f ≡ false
    → ((count f h'.waiting_tasks ≡ count f h.waiting_tasks) × (h'.flag f ≡ h.flag f))
      ⊎ ((count f h'.waiting_tasks ≡ 0) × (h'.flag f ≡ true))

pub SameList-Notified : (left : ℕ → Bool) (h h' : Shared) → SameList h h' → Notified left h h'
SameList-Notified left h h' same f stays =
    inl (ground (arith, same.waiting), ground (arith, same.flags))

-- A move of one task between two places with the same flag and the same right to an entry.
pub keep-Inv :
    (s : System.System) (h : Shared) (t : ℕ) (p : System.Place)
    → Notified s.left s.shared h
    → System.flag_of p ≡ System.flag_of (s.place t)
    → ((f : ℕ)
        → System.flag_of p ≡ some f
        → listed p (s.shared.flag f) ≡ listed (s.place t) (s.shared.flag f))
    → Inv s
    → Inv (System.goes s h t p)
keep-Inv s h t p change flag right v = record {
  entries = λ u f e stays. ground (
    arith,
    change f stays,
    v.entries u f,
    v.entries t f,
    right f,
    listed-true p,
    listed-true (s.place u),
  );
  distinct = λ u w f e g. ground (arith, v.distinct u w f, v.distinct u t f, v.distinct t w f);
  live = λ f stays m.
      let (u, e) = v.live f stays (ground (arith, change f stays)) in
      (u, ground (arith, v.distinct u t f));
}

fresh_unlisted :
    (s : System.System) (g : ℕ)
    → Inv s
    → System.IsFresh g s
    → s.left g ≡ false
    → count g s.shared.waiting_tasks ≡ 0
fresh_unlisted s g v fresh stays = elim (dec_lt 0 (count g s.shared.waiting_tasks)) [
  | yes some_entry ↦ let (u, e) = v.live g stays some_entry in absurd (fresh u e)
  | no none_there ↦ omega arith
]

-- A task whose call has just begun, with a fresh flag.
pub begin-Inv :
    (s : System.System) (h : Shared) (t g : ℕ)
    → SameList s.shared h
    → s.place t ≡ System.idle
    → System.IsFresh g s
    → Inv s
    → Inv (System.goes s h t (System.entering g))
begin-Inv s h t g same at fresh v = record {
  entries = λ u f e stays.
      ground (arith, same.waiting, same.flags, v.entries u f, fresh_unlisted s g v fresh);
  distinct = λ u w f e k. ground (arith, v.distinct u w f, fresh u, fresh w);
  live =
      λ f stays m. let (u, e) = v.live f stays (ground (arith, same.waiting)) in (u, ground arith);
}

-- A call that returns; its flag was notified, and is in the list no more.
pub end-Inv :
    (s : System.System) (t g : ℕ)
    → s.place t ≡ System.retaking g
    → Inv s
    → Inv (System.goes s s.shared t System.idle)
end-Inv s t g at v = record {
  entries = λ u f e stays. ground (arith, v.entries u f);
  distinct = λ u w f e k. ground (arith, v.distinct u w f);
  live = λ f stays m.
      let (u, e) = v.live f stays m in (u, ground (arith, v.entries u f, v.entries t f));
}

-- A call that is left by an exception: its entry stays in the list.
pub leave-Inv :
    (s : System.System) (h : Shared) (t g : ℕ)
    → SameList s.shared h
    → s.place t ≡ System.registered g
    → Inv s
    → Inv (record (System.goes s h t System.idle) { left = write g true s.left })
leave-Inv s h t g same at v = record {
  entries = λ u f e stays. ground (arith, same.waiting, same.flags, v.entries u f);
  distinct = λ u w f e k. ground (arith, v.distinct u w f);
  live = λ f stays m.
      let (u, e) = v.live f (ground arith) (ground (arith, same.waiting)) in (u, ground arith);
}

-- A call whose flag is cleared and enters the list.
pub register-Inv :
    (s : System.System) (h : Shared) (t g : ℕ)
    → h.waiting_tasks ≡ s.shared.waiting_tasks ++ g ∷ []
    → ((f : ℕ) → h.flag f ≡ (if g == f then false else s.shared.flag f))
    → s.place t ≡ System.entering g
    → Inv s
    → Inv (System.goes s h t (System.registered g))
register-Inv s h t g list flags at v = record {
  entries = λ u f e stays. ground (
    arith,
    list,
    flags f,
    count-append f s.shared.waiting_tasks (g ∷ []),
    v.entries u f,
    v.entries t g,
    v.distinct u t f,
  );
  distinct = λ u w f e k. ground (arith, v.distinct u w f, v.distinct u t f, v.distinct t w f);
  live = λ f stays m. elim (Bool-cases (g == f)) [
    | inl here ↦ (t, ground arith)
    | inr other ↦
        let (u, e) =
          v.live f stays (ground (arith, list, count-append f s.shared.waiting_tasks (g ∷ []))) in
        (u, ground arith)
  ];
}

-- An entry of the list occurs once.
pub entry_once :
    (s : System.System) (g : ℕ) → s.left g ≡ false → Inv s → count g s.shared.waiting_tasks < 2
entry_once s g stays v = elim (dec_lt 0 (count g s.shared.waiting_tasks)) [
  | yes some_entry ↦
      let (u, e) = v.live g stays some_entry in
      ground (arith, v.entries u g e, listed_le (s.place u) (s.shared.flag g))
  | no none_there ↦ omega arith
]
