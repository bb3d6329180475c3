-- ===== src/Examples/Jacobi/Halo/Unpack.antt =====
-- `unpack`: the cells beside each face get what is in its unpack buffer, and all others stay.
use task_r.Base.{
  ℕ, suc, ◌<◌, ◌≡◌, inl, inr, arith, refl, sym, ap, subst, ◌∙◌, true, ok, when, Bool-cases,
  ℕ_discrete, Keeps, HasDue, Keeps-reflexive, Writes, each_of-Writes, All,
}
use task_r.Examples.Blocks.{Slot, put}
use task_r.Examples.Jacobi.{D3, CommType}
use task_r.Examples.Jacobi.Numbers.{IsInside, place, place-lt}
use task_r.Examples.Jacobi.Grid.{bounds, written_by, read_by, buffer, with_buffer}
use task_r.Examples.Jacobi.Grid.Cells.{IsPlaced, volume, cell-lt}
use task_r.Examples.Jacobi.Grid.Memory.{written, other}
use task_r.Examples.Jacobi.Halo.{
  Face, faces, is_remote, extent, ghost, index, Packing, unpack_cell, unpack_face, unpack, pop,
}
use task_r.Examples.Jacobi.Halo.Places.{at_position, ghost-IsInside, ghost-same, at_face, room}
use task_r.Examples.Jacobi.Halo.Positions.{Round, for_positions-Writes}

module _ {A : Type 0} (fs : D3) (depth : ℕ) (ls l : D3) (kind : Face → CommType) (it : ℕ)
    (placed : IsPlaced fs depth (bounds depth ls l)) (s : Packing A)
    (size : (buffer (written_by it) s.fields).size ≡ volume fs)
    (rooms : (f : Face)
      → is_remote (kind f) ≡ true
      → (s.slot f).size ≡ room (extent depth ls f)) where
  abbrev beside : (f : Face) (d r c : ℕ) → ℕ
  beside f d r c = index fs (ghost (bounds depth ls l) f d r c)

  abbrev at : Packing A → ℕ → A
  at x n = (buffer (written_by it) x.fields).at n

  -- A value that was received for the cell at an index.
  abbrev IsDue : ℕ → A → Type 0
  IsDue n v =
      (f : Face) × (is_remote (kind f) ≡ true)
      × (d : ℕ) × (r : ℕ) × (c : ℕ) × IsInside (extent depth ls f) (at_position d r c)
      × (n ≡ beside f d r c)
      × (v ≡ (s.slot f).at (place (extent depth ls f) d r c))

  record Unpacks (x : Packing A) : Type 0 where
    slot : x.slot ≡ s.slot
    read : buffer (read_by it) x.fields ≡ buffer (read_by it) s.fields
    sized : (buffer (written_by it) x.fields).size ≡ volume fs

  unpack_cell-Round :
      (f : Face)
      → is_remote (kind f) ≡ true
      → Round at IsDue Unpacks
          (λ x. x.buffer_idx)
          (beside f)
          (extent depth ls f)
          (λ d r c. unpack_cell (written_by it) f (beside f d r c))
  unfolding unpack_cell
  unpack_cell-Round f far d r c x inside v count =
      let m = place (extent depth ls f) d r c in
      let p = ghost (bounds depth ls l) f d r c in
      let write = ghost-IsInside fs depth ls l placed f d r c inside in
      let n = beside f d r c in
      let value : A = (x.slot f).at x.buffer_idx in
      let w : Slot A = put n value (buffer (written_by it) x.fields) in
      let x' : Packing A = record x {
        fields = with_buffer (written_by it) w x.fields;
        buffer_idx = suc x.buffer_idx;
      } in
      let readable : x.buffer_idx < (x.slot f).size = omega (
        arith,
        place-lt (extent depth ls f) (at_position d r c) inside,
        rooms f far,
        ap (λ g. (g f).size) v.slot,
      ) in
      let writable : n < (buffer (written_by it) x.fields).size =
        omega (arith, cell-lt fs p.z p.y p.x write.0 write.1 write.2, v.sized) in
      let is : buffer (written_by it) x'.fields ≡ w = written it w x.fields in
      let right : value ≡ (s.slot f).at m =
        ap (λ g. (g f).at x.buffer_idx) v.slot ∙ ap (s.slot f).at count in
      let here : IsDue n (at x' n) =
        (f, far, d, r, c, inside, refl, ap (λ q. q.at n) is ∙ ground (arith, right)) in
      (
        x',
        ground arith,
        record {
          slot = v.slot;
          read = other it w x.fields ∙ v.read;
          sized = ap (λ q. q.size) is ∙ v.sized;
        },
        ap suc count,
        λ k. elim (ℕ_discrete n k) [
          | yes e ↦ inr (subst (λ k. IsDue k (at x' k)) e here)
          | no e ↦ inl (ap (λ q. q.at k) is ∙ ground arith)
        ],
        here,
      )

  -- The cells beside a face.
  abbrev AtFace : Face → ℕ → Type 0
  AtFace f n =
      (d : ℕ) × (r : ℕ) × (c : ℕ) × IsInside (extent depth ls f) (at_position d r c)
      × (n ≡ beside f d r c)

  unpack_face-Writes :
      (f : Face) (x : Packing A)
      → is_remote (kind f) ≡ true
      → Unpacks x
      → Writes at IsDue Unpacks (unpack_face fs depth ls (bounds depth ls l) it f) (AtFace f) x
  unfolding unpack_face
  unpack_face-Writes f x far v =
      let (x', e, v', keeps, due) =
        for_positions-Writes at IsDue Unpacks (λ y. y.buffer_idx) (beside f) (extent depth ls f) _
          (unpack_cell-Round f far) (record x { buffer_idx = 0 })
          (record { slot = v.slot; read = v.read; sized = v.sized }) refl in
      (
        (pop f x').0,
        rw e refl,
        record { slot = v'.slot; read = v'.read; sized = v'.sized },
        keeps,
        λ n (d, r, c, inside, e). subst (λ m. HasDue at IsDue m x') (sym e) (due d r c inside),
      )

  abbrev AtRemote : Face → ℕ → Type 0
  AtRemote f n = (is_remote (kind f) ≡ true) × AtFace f n

  face-Writes :
      (f : Face) (x : Packing A)
      → Unpacks x
      → Writes at IsDue Unpacks
          (when (is_remote (kind f)) (unpack_face fs depth ls (bounds depth ls l) it f))
          (AtRemote f)
          x
  face-Writes f x v = elim (Bool-cases (is_remote (kind f))) [
    | inr near ↦ rw near (x, refl, v, Keeps-reflexive at IsDue x, λ n h. cc)
    | inl far ↦
        let (x', e, v', keeps, due) = unpack_face-Writes f x far v in
        (x', rw far e, v', keeps, λ n h. due n h.1)
  ]

  unpack-Writes :
      (s' : Packing A) × (unpack fs depth ls (bounds depth ls l) it kind s ≡ (s', ok tt))
      × Unpacks s'
      × Keeps at IsDue s s'
      × All (λ f. (n : ℕ) → AtRemote f n → HasDue at IsDue n s') faces
  unfolding unpack
  unpack-Writes =
      each_of-Writes at IsDue Unpacks faces
        (λ f. when (is_remote (kind f)) (unpack_face fs depth ls (bounds depth ls l) it f)) AtRemote
        face-Writes s (record { slot = refl; read = refl; sized = size })

  -- `unpack` of a subgrid inside the grid, where the buffers of its faces to other processes have the
  -- size of the cells, returns, leaves the buffers and the grid of the other iterations alone, puts the
  -- elements of each of these buffers into the cells beside its face, and leaves all other cells alone.
  pub unpack_lem :
      (s' : Packing A) × (unpack fs depth ls (bounds depth ls l) it kind s ≡ (s', ok tt))
      × (s'.slot ≡ s.slot)
      × (buffer (read_by it) s'.fields ≡ buffer (read_by it) s.fields)
      × ((n : ℕ)
          → ((f : Face) → ¬ AtRemote f n)
          → (buffer (written_by it) s'.fields).at n ≡ (buffer (written_by it) s.fields).at n)
      × ((f : Face) (d r c : ℕ)
          → is_remote (kind f) ≡ true
          → IsInside (extent depth ls f) (at_position d r c)
          → (buffer (written_by it) s'.fields).at (beside f d r c)
            ≡ (s.slot f).at (place (extent depth ls f) d r c))
  unpack_lem =
      let (s', e, v, keeps, due) = unpack-Writes in
      (
        s',
        e,
        v.slot,
        v.read,
        λ n out. elim (keeps n) [
          | inl same ↦ same
          | inr (f, far, d, r, c, inside, e, _) ↦ absurd (out f (far, (d, r, c, inside, e)))
        ],
        λ f d r c far inside.
            let (g, _, d', r', c', inside', same, is) =
              at_face (λ f. (n : ℕ) → AtRemote f n → HasDue at IsDue n s') due f (beside f d r c)
                (far, (d, r, c, inside, refl)) in
            is
            ∙ sym (ghost-same fs depth ls l placed s.slot f g d r c d' r' c' inside inside' same),
      )
