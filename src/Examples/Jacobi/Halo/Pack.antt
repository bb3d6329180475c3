-- ===== src/Examples/Jacobi/Halo/Pack.antt =====
-- `pack`: the pack buffer of each face gets the cells at that face, and the grids stay.
use task_r.Base.{
  ℕ, suc, ◌<◌, ◌≡◌, ◌⊎◌, ◌==◌, inl, inr, arith, refl, sym, ap, subst, ◌∙◌, true, false, ok, when,
  Bool-cases, ℕ_discrete, Keeps, HasDue, Keeps-reflexive, Writes, each_of-Writes, All,
}
use task_r.Examples.Jacobi.{D3, CommType}
use task_r.Examples.Jacobi.Numbers.{IsInside, place, place-lt, place-injective}
use task_r.Examples.Jacobi.Grid.{bounds, written_by, buffer}
use task_r.Examples.Jacobi.Grid.Cells.{IsPlaced, volume, cell-lt}
use task_r.Examples.Jacobi.Halo.{
  Face, face_x0, face_x1, face_y0, face_y1, face_z0, face_z1, faces, code, is_remote, extent, edge,
  index, Packing, put_slot, pack_cell, pack_face, pack,
}
use task_r.Examples.Jacobi.Halo.Places.{at_position, edge-IsInside, at_face, room}
use task_r.Examples.Jacobi.Halo.Positions.{Round, for_positions-Writes}

code-injective : (f g : Face) → code f ≡ code g → f ≡ g
code-injective face_x0 face_x0 e = refl
code-injective face_x1 face_x1 e = refl
code-injective face_y0 face_y0 e = refl
code-injective face_y1 face_y1 e = refl
code-injective face_z0 face_z0 e = refl
code-injective face_z1 face_z1 e = refl
code-injective _ _ e = absurd (omega arith)

module _ {A : Type 0} (fs : D3) (depth : ℕ) (ls l : D3) (kind : Face → CommType) (it : ℕ)
    (placed : IsPlaced fs depth (bounds depth ls l)) (s : Packing A)
    (size : (buffer (written_by it) s.fields).size ≡ volume fs)
    (rooms : (f : Face)
      → is_remote (kind f) ≡ true
      → (s.slot f).size ≡ room (extent depth ls f)) where
  -- The value of the cell that a round reads.
  abbrev sent : (f : Face) (d r c : ℕ) → A
  sent f d r c =
      (buffer (written_by it) s.fields).at (index fs (edge depth (bounds depth ls l) f d r c))

  abbrev at : Packing A → Face × ℕ → A
  at x (f, n) = (x.slot f).at n

  -- What belongs at a place of a buffer.
  abbrev IsDue : Face × ℕ → A → Type 0
  IsDue (f, n) v =
      (is_remote (kind f) ≡ true)
      × (d : ℕ) × (r : ℕ) × (c : ℕ) × IsInside (extent depth ls f) (at_position d r c)
      × (n ≡ place (extent depth ls f) d r c)
      × (v ≡ sent f d r c)

  record Packs (x : Packing A) : Type 0 where
    fields : x.fields ≡ s.fields
    sizes : (f : Face) → (x.slot f).size ≡ (s.slot f).size
    popped : x.popped ≡ s.popped

  put-Keeps :
      (f g : Face) (m n : ℕ) (v : A) (x : Packing A)
      → IsDue (f, m) v
      → ((put_slot f m v x.slot g).at n ≡ (x.slot g).at n)
        ⊎ IsDue (g, n) ((put_slot f m v x.slot g).at n)
  put-Keeps f g m n v x due = elim (Bool-cases (code f == code g)) [
    | inr e ↦ inl (rw e refl)
    | inl e ↦
        let same : f ≡ g = code-injective f g (ground arith) in
        elim (ℕ_discrete m n) [
          | no e' ↦ inl (rw e (ground arith))
          | yes e' ↦
              let is : (put_slot f m v x.slot g).at n ≡ v = rw e (ground arith) in
              inr (
                subst (λ w. IsDue (g, n) w) (sym is)
                  (subst (λ k. IsDue (g, k) v) e' (subst (λ h. IsDue (h, m) v) same due)))
        ]
  ]

  pack_cell-Round :
      (f : Face)
      → is_remote (kind f) ≡ true
      → Round at IsDue Packs
          (λ x. x.buffer_idx)
          (λ d r c. (f, place (extent depth ls f) d r c))
          (extent depth ls f)
          (λ d r c. pack_cell (written_by it) f (index fs (edge depth (bounds depth ls l) f d r c)))
  unfolding pack_cell
  pack_cell-Round f far d r c x inside v count =
      let t = extent depth ls f in
      let p = edge depth (bounds depth ls l) f d r c in
      let m = place t d r c in
      let read = edge-IsInside fs depth ls l placed f d r c inside in
      let x' : Packing A = record x {
        slot = put_slot f x.buffer_idx ((buffer (written_by it) x.fields).at (index fs p)) x.slot;
        buffer_idx = suc x.buffer_idx;
      } in
      let readable : index fs p < (buffer (written_by it) x.fields).size = omega (
        arith,
        cell-lt fs p.z p.y p.x read.0 read.1 read.2,
        size,
        ap (λ w. (buffer (written_by it) w).size) v.fields,
      ) in
      let writable : x.buffer_idx < (x.slot f).size =
        omega (arith, place-lt t (at_position d r c) inside, rooms f far, v.sizes f) in
      let due : IsDue (f, x.buffer_idx) ((buffer (written_by it) x.fields).at (index fs p)) = (
        far,
        d,
        r,
        c,
        inside,
        count,
        ap (λ w. (buffer (written_by it) w).at (index fs p)) v.fields,
      ) in
      let stored : (x'.slot f).at m ≡ (buffer (written_by it) x.fields).at (index fs p) =
        ground (arith, count) in
      (
        x',
        ground arith,
        record {
          fields = v.fields;
          sizes = λ g. elim (Bool-cases (code f == code g)) [
            | inl e ↦ rw e (v.sizes g)
            | inr e ↦ rw e (v.sizes g)
          ];
          popped = v.popped;
        },
        ap suc count,
        λ (g, n). put-Keeps f g x.buffer_idx n _ x due,
        (far, d, r, c, inside, refl, stored ∙ due.6),
      )

  -- The places of the buffer of a face.
  abbrev AtFace : Face → Face × ℕ → Type 0
  AtFace f n =
      (d : ℕ) × (r : ℕ) × (c : ℕ) × IsInside (extent depth ls f) (at_position d r c)
      × (n ≡ (f, place (extent depth ls f) d r c))

  pack_face-Writes :
      (f : Face) (x : Packing A)
      → is_remote (kind f) ≡ true
      → Packs x
      → Writes at IsDue Packs (pack_face fs depth ls (bounds depth ls l) it f) (AtFace f) x
  unfolding pack_face
  pack_face-Writes f x far v =
      let (x', e, v', keeps, due) =
        for_positions-Writes at IsDue Packs (λ y. y.buffer_idx)
          (λ d r c. (f, place (extent depth ls f) d r c)) (extent depth ls f) _
          (pack_cell-Round f far) (record x { buffer_idx = 0 })
          (record { fields = v.fields; sizes = v.sizes; popped = v.popped }) refl in
      (
        x',
        e,
        v',
        keeps,
        λ n (d, r, c, inside, e). subst (λ m. HasDue at IsDue m x') (sym e) (due d r c inside),
      )

  -- Where the face is that of a neighbour in another process.
  abbrev AtRemote : Face → Face × ℕ → Type 0
  AtRemote f n = (is_remote (kind f) ≡ true) × AtFace f n

  face-Writes :
      (f : Face) (x : Packing A)
      → Packs x
      → Writes at IsDue Packs
          (when (is_remote (kind f)) (pack_face fs depth ls (bounds depth ls l) it f))
          (AtRemote f)
          x
  face-Writes f x v = elim (Bool-cases (is_remote (kind f))) [
    | inr near ↦ rw near (x, refl, v, Keeps-reflexive at IsDue x, λ n h. cc)
    | inl far ↦
        let (x', e, v', keeps, due) = pack_face-Writes f x far v in
        (x', rw far e, v', keeps, λ n h. due n h.1)
  ]

  pack-Writes :
      (s' : Packing A) × (pack fs depth ls (bounds depth ls l) it kind s ≡ (s', ok tt))
      × Packs s'
      × Keeps at IsDue s s'
      × All (λ f. (n : Face × ℕ) → AtRemote f n → HasDue at IsDue n s') faces
  unfolding pack
  pack-Writes =
      each_of-Writes at IsDue Packs faces
        (λ f. when (is_remote (kind f)) (pack_face fs depth ls (bounds depth ls l) it f)) AtRemote
        face-Writes s (record { fields = refl; sizes = λ f. refl; popped = refl })

  due-sent :
      (f : Face) (d r c : ℕ) (v : A)
      → IsInside (extent depth ls f) (at_position d r c)
      → IsDue (f, place (extent depth ls f) d r c) v
      → v ≡ sent f d r c
  due-sent f d r c v inside (far, d', r', c', inside', e, is) =
      let (ed, er, ec) =
        place-injective (extent depth ls f) d r c d' r' c' inside.1 inside.2 inside'.1 inside'.2
          e in
      is ∙ sym (λ i. sent f (ed i) (er i) (ec i))

  -- `pack` of a subgrid inside the grid, where the buffers of its faces to other processes have room for
  -- the cells, returns, leaves the grids, the other buffers and the channels alone, and puts the cells
  -- at each of these faces into its buffer.
  pub pack_lem :
      (s' : Packing A) × (pack fs depth ls (bounds depth ls l) it kind s ≡ (s', ok tt))
      × (s'.fields ≡ s.fields)
      × (s'.popped ≡ s.popped)
      × ((f : Face) → (s'.slot f).size ≡ (s.slot f).size)
      × ((f : Face) (n : ℕ) → is_remote (kind f) ≡ false → (s'.slot f).at n ≡ (s.slot f).at n)
      × ((f : Face) (d r c : ℕ)
          → is_remote (kind f) ≡ true
          → IsInside (extent depth ls f) (at_position d r c)
          → (s'.slot f).at (place (extent depth ls f) d r c) ≡ sent f d r c)
  pack_lem =
      let (s', e, v, keeps, due) = pack-Writes in
      (
        s',
        e,
        v.fields,
        v.popped,
        v.sizes,
        λ f n near. elim (keeps (f, n)) [ inl same ↦ same | inr new ↦ let far = new.0 in cc ],
        λ f d r c far inside. due-sent f d r c _ inside (
            at_face (λ f. (n : Face × ℕ) → AtRemote f n → HasDue at IsDue n s') due f
              (f, place (extent depth ls f) d r c) (far, (d, r, c, inside, refl))),
      )
