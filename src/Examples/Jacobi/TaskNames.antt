-- ===== src/Examples/Jacobi/TaskNames.antt =====
-- examples/jacobi3d/source/task.hpp: the identifiers of the tasks. `taskid_hashmap` gives each hash of a
-- printed name the next number; what `std::hash` makes of a printed name is a parameter.
use task_r.Base.{
  ℕ, ◌<◌, ◌≡◌, ◌↔◌, ◌==◌, if◌then◌else◌, List, [], ◌∷◌, Option, none, some, length, arith, refl,
  sym, ap, ◌∙◌,
}

-- "Compute", "Pack" and so on, the position of the subgrid, and the iteration.
pub data TaskType : Type 0 where
  reset_task : TaskType
  compute_task : TaskType
  pack_task : TaskType
  send_task : TaskType
  receive_task : TaskType
  unpack_task : TaskType
  residual_task : TaskType

pub record TaskName : Type 0 where
  pub kind : TaskType
  pub lx : ℕ
  pub ly : ℕ
  pub lz : ℕ
  pub iter : ℕ

-- `taskid_hashmap`: the hashes with their identifiers, the newest first.
abbrev pub TaskIds : Type 0
TaskIds = List (ℕ × ℕ)

abbrev pub find : ℕ → TaskIds → Option ℕ
find h [] = none
find h ((g, i) ∷ ids) = if g == h then some i else find h ids

abbrev known : ℕ → TaskIds → Option ℕ → TaskIds × ℕ
known h ids (some i) = (ids, i)
known h ids none = ((h, length ids) ∷ ids, length ids)

module _ (hash : TaskName → ℕ) where
  -- `encodeTaskName(taskName, lx, ly, lz, iter)`.
  unfoldable pub encode_task_name : TaskName → TaskIds → TaskIds × ℕ
  encode_task_name name ids = known (hash name) ids (find (hash name) ids)

  -- The names of many tasks, one after the other.
  unfoldable pub encode_all : List TaskName → TaskIds → TaskIds
  encode_all [] ids = ids
  encode_all (name ∷ names) ids = encode_all names (encode_task_name name ids).0

  -- Identifiers are below their count, and tell the hashes apart.
  record AreNumbered (ids : TaskIds) : Type 0 where
    small : (h i : ℕ) → find h ids ≡ some i → i < length ids
    apart : (h g i : ℕ) → find h ids ≡ some i → find g ids ≡ some i → h ≡ g

  encode-AreNumbered :
      (name : TaskName) (ids : TaskIds)
      → AreNumbered ids
      → AreNumbered (encode_task_name name ids).0
  unfolding encode_task_name
  encode-AreNumbered name ids v = go (find (hash name) ids) refl
    where
      go : (o : Option ℕ) → find (hash name) ids ≡ o → AreNumbered (known (hash name) ids o).0
      go (some i) e = v
      go none e = record {
        small = λ h i f. ground (arith, v.small h i);
        apart = λ h g i f f'. ground (arith, v.small h i, v.small g i, v.apart h g i);
      }

  encode_all-AreNumbered :
      (names : List TaskName) (ids : TaskIds) → AreNumbered ids → AreNumbered (encode_all names ids)
  unfolding encode_all
  encode_all-AreNumbered [] ids v = v
  encode_all-AreNumbered (name ∷ names) ids v =
      encode_all-AreNumbered names (encode_task_name name ids).0 (encode-AreNumbered name ids v)

  -- A name is found afterwards, and what was found stays.
  encode-find :
      (name : TaskName) (ids : TaskIds)
      → find (hash name) (encode_task_name name ids).0 ≡ some (encode_task_name name ids).1
  unfolding encode_task_name
  encode-find name ids = go (find (hash name) ids) refl
    where
      go :
          (o : Option ℕ)
          → find (hash name) ids ≡ o
          → find (hash name) (known (hash name) ids o).0 ≡ some (known (hash name) ids o).1
      go (some i) e = e
      go none e = ground arith

  find-stays :
      (name : TaskName) (ids : TaskIds) (h i : ℕ)
      → find h ids ≡ some i
      → find h (encode_task_name name ids).0 ≡ some i
  unfolding encode_task_name
  find-stays name ids h i f = go (find (hash name) ids) refl
    where
      go : (o : Option ℕ) → find (hash name) ids ≡ o → find h (known (hash name) ids o).0 ≡ some i
      go (some j) e = f
      go none e = ground arith

  find-stays_all :
      (names : List TaskName) (ids : TaskIds) (h i : ℕ)
      → find h ids ≡ some i
      → find h (encode_all names ids) ≡ some i
  unfolding encode_all
  find-stays_all [] ids h i f = f
  find-stays_all (name ∷ names) ids h i f =
      find-stays_all names (encode_task_name name ids).0 h i (find-stays name ids h i f)

  encode-known :
      (name : TaskName) (ids : TaskIds) (i : ℕ)
      → find (hash name) ids ≡ some i
      → encode_task_name name ids ≡ (ids, i)
  unfolding encode_task_name
  encode-known name ids i f = ap (known (hash name) ids) f

  -- After any names were encoded, from an empty map, take the identifiers of two names, one after the other.
  -- They are the same exactly when the hashes of the names are, and a name gets its identifier again
  -- whatever other names are encoded in between.
  pub encode_task_name_lem :
      (before later : List TaskName) (a b : TaskName)
      → (let ids = encode_all before [] in
          let first = encode_task_name a ids in
          let second = encode_task_name b first.0 in
          ((first.1 ≡ second.1) ↔ (hash a ≡ hash b))
          × (encode_task_name a (encode_all later first.0) ≡ (encode_all later first.0, first.1)))
  encode_task_name_lem before later a b =
      let ids = encode_all before [] in
      let v =
        encode_all-AreNumbered before []
          (record { small = λ h i f. cc; apart = λ h g i f f'. cc }) in
      let first = encode_task_name a ids in
      let second = encode_task_name b first.0 in
      let w = encode-AreNumbered b first.0 (encode-AreNumbered a ids v) in
      let found = encode-find a ids in
      let stays = find-stays b first.0 (hash a) first.1 found in
      let found' = encode-find b first.0 in
      (
        (
          λ same. w.apart (hash a) (hash b) first.1 stays (found' ∙ ap some (sym same)),
          λ same.
              ap (λ q. q.1)
                (sym
                  (encode-known b first.0 first.1 (ap (λ h. find h first.0) (sym same) ∙ found))),
        ),
        encode-known a (encode_all later first.0) first.1
            (find-stays_all later first.0 (hash a) first.1 found),
      )
