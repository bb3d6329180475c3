-- ===== src/ConditionVariable/Timed/Listing.antt =====
-- The list of waiting tasks against all calls that are under way, with and without timeouts: one lemma
-- for each kind of change.
use task_r.Base.{
  ℕ, ◌≤◌, ◌≡◌, ◌⊎◌, inl, Bool, true, false, none, some, [], ◌∷◌, ◌==◌, if◌then◌else◌, arith, ok,
  ◌++◌,
}
use task_r.Task.Graph.{count, count-append}
use task_r.ConditionVariable.{Shared, check_owner}
use task_r.ConditionVariable.Calls.{wait_for_condition_start, wait_for_start}
use task_r.ConditionVariable.Effects.{register_list, enlist_list}
use task_r.ConditionVariable.Listing.{SameList}
use task_r.ConditionVariable.Timed
use task_r.ConditionVariable.Timed.{
  Kind, Call, wait, wait_condition, wait_for_condition, wait_for, check, begin, enter_list,
}

-- How many entries a call needs: one from its registration until it is notified.
abbrev pub needed : Timed.Place → Bool → ℕ
needed (Timed.registered c) b = if b then 0 else 1
needed (Timed.sleeping c) b = if b then 0 else 1
needed _ b = 0

pub record Inv (s : Timed.System) : Type 0 where
  pub entries :
      (t f : ℕ)
      → Timed.flag_of (s.place t) ≡ some f
      → needed (s.place t) (s.shared.flag f) ≤ count f s.shared.waiting_tasks
  pub distinct :
      (t u f : ℕ) → Timed.flag_of (s.place t) ≡ some f → Timed.flag_of (s.place u) ≡ some f → t ≡ u

-- Each flag and its entries are as before, or the flag is set.
abbrev pub Spares : Shared → Shared → Type 0
Spares h h' =
    (f : ℕ)
    → ((h'.flag f ≡ h.flag f) × (count f h.waiting_tasks ≤ count f h'.waiting_tasks))
      ⊎ (h'.flag f ≡ true)

needed-true : (p : Timed.Place) → needed p true ≡ 0
needed-true p = ground arith

pub SameList-Spares : (h h' : Shared) → SameList h h' → Spares h h'
SameList-Spares h h' same f = inl (ground (arith, same.flags), ground (arith, same.waiting))

pub Spares-trans : (h h' h'' : Shared) → Spares h h' → SameList h' h'' → Spares h h''
Spares-trans h h' h'' change same f = ground (arith, change f, same.flags, same.waiting)

-- A move of one task between two places with the same flag, that needs no more entries.
pub keep-Inv :
    (s : Timed.System) (h : Shared) (t : ℕ) (p : Timed.Place)
    → Spares s.shared h
    → Timed.flag_of p ≡ Timed.flag_of (s.place t)
    → ((b : Bool) → needed p b ≤ needed (s.place t) b)
    → Inv s
    → Inv (Timed.goes s h t p)
keep-Inv s h t p change flag less v = record {
  entries = λ u f e. ground (
    arith,
    change f,
    v.entries u f,
    v.entries t f,
    less (s.shared.flag f),
    needed-true p,
    needed-true (s.place u),
  );
  distinct = λ u w f e g. ground (arith, v.distinct u w f, v.distinct u t f, v.distinct t w f);
}

-- A move to a place without a flag.
pub leave-Inv :
    (s : Timed.System) (h : Shared) (t : ℕ) (p : Timed.Place)
    → Spares s.shared h
    → Timed.flag_of p ≡ none
    → Inv s
    → Inv (Timed.goes s h t p)
leave-Inv s h t p change no_flag v = record {
  entries = λ u f e. ground (arith, change f, v.entries u f, needed-true (s.place u));
  distinct = λ u w f e g. ground (arith, v.distinct u w f);
}

-- A call that begins clears at most its own flag, and leaves the list alone.
begin_list :
    (k : Kind) (t f : ℕ) (s h : Shared)
    → begin k t f s ≡ (h, ok tt)
    → (h.waiting_tasks ≡ s.waiting_tasks) × ((g : ℕ) → (f == g ≡ false) → h.flag g ≡ s.flag g)
unfolding begin check_owner wait_for_condition_start wait_for_start
begin_list wait t f s h e = (ground arith, λ g k. ground arith)
begin_list wait_condition t f s h e = (ground arith, λ g k. ground arith)
begin_list (wait_for_condition timeout start) t f s h e = (ground arith, λ g k. ground arith)
begin_list (wait_for timeout start) t f s h e = (ground arith, λ g k. ground arith)

pub begin-Inv :
    (s : Timed.System) (h h' : Shared) (t f : ℕ) (k : Kind)
    → s.place t ≡ Timed.idle
    → Timed.IsFresh f s
    → begin k t f s.shared ≡ (h, ok tt)
    → SameList h h'
    → Inv s
    → Inv (Timed.goes s h' t (Timed.entering (record { kind = k; flag = f })))
begin-Inv s h h' t f k at fresh begun same v =
    let b = begin_list k t f s.shared h begun in
    record {
      entries =
          λ u g e. ground (arith, same.flags, same.waiting, b.0, b.1 g, fresh u, v.entries u g);
      distinct = λ u w g e e'. ground (arith, v.distinct u w g, fresh u, fresh w);
    }

-- A call that enters the list puts its flag behind the others, and clears no other flag.
enter_list_lem :
    (k : Kind) (t f : ℕ) (s h : Shared)
    → enter_list k t f s ≡ (h, ok tt)
    → (h.waiting_tasks ≡ s.waiting_tasks ++ f ∷ [])
      × ((g : ℕ) → (f == g ≡ false) → h.flag g ≡ s.flag g)
unfolding enter_list
enter_list_lem wait t f s h e =
    let k = register_list t f s h e in (k.0, λ g other. ground (arith, k.1 g))
enter_list_lem wait_condition t f s h e =
    let k = register_list t f s h e in (k.0, λ g other. ground (arith, k.1 g))
enter_list_lem (wait_for_condition timeout start) t f s h e =
    let k = register_list t f s h e in (k.0, λ g other. ground (arith, k.1 g))
enter_list_lem (wait_for timeout start) t f s h e =
    let k = enlist_list t f s h e in (k.0, λ g other. ground (arith, k.1))

pub register-Inv :
    (s : Timed.System) (h : Shared) (t : ℕ) (c : Call)
    → s.place t ≡ Timed.entering c
    → enter_list c.kind t c.flag s.shared ≡ (h, ok tt)
    → Inv s
    → Inv (Timed.goes s h t (Timed.registered c))
register-Inv s h t c at done v =
    let k = enter_list_lem c.kind t c.flag s.shared h done in
    record {
      entries = λ u f e. ground (
        arith,
        k.0,
        k.1 f,
        count-append f s.shared.waiting_tasks (c.flag ∷ []),
        v.entries u f,
        v.distinct u t f,
      );
      distinct = λ u w f e g. ground (arith, v.distinct u w f, v.distinct u t f, v.distinct t w f);
    }
