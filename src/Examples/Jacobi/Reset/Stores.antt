-- ===== src/Examples/Jacobi/Reset/Stores.antt =====
-- One assignment to a cell of one of the grids, and what it leaves alone.
use task_r.Base.{ℕ, ◌<◌, ◌≡◌, ◌⊎◌, inl, inr, arith, refl, sym, subst, ℕ_discrete, HasDue, Writes}
use task_r.Examples.Blocks.{put}
use task_r.Examples.Jacobi.{D3}
use task_r.Examples.Jacobi.Grid.{Buffer, grid_u, grid_un, Fields, buffer, with_buffer, store}
use task_r.Examples.Jacobi.Grid.Cells.{volume}
use task_r.Examples.Jacobi.Grid.Memory.{store_inside}

module _ {A : Type 0} where
  -- The cells of both grids.
  abbrev pub at : Fields A → Buffer × ℕ → A
  at x (g, n) = (buffer g x).at n

  pub record Sized (fs : D3) (x : Fields A) : Type 0 where
    pub u : x.u.size ≡ volume fs
    pub un : x.un.size ≡ volume fs

  Sized-buffer : (fs : D3) (x : Fields A) (g : Buffer) → Sized fs x → (buffer g x).size ≡ volume fs
  Sized-buffer fs x grid_u v = v.u
  Sized-buffer fs x grid_un v = v.un

  module _ (fs : D3) (IsDue : Buffer × ℕ → A → Type 0) where
    put-Keeps :
        (g h : Buffer) (n m : ℕ) (v : A) (x : Fields A)
        → IsDue (g, n) v
        → (at (with_buffer g (put n v (buffer g x)) x) (h, m) ≡ at x (h, m))
          ⊎ IsDue (h, m) (at (with_buffer g (put n v (buffer g x)) x) (h, m))
    put-Keeps grid_u grid_un n m v x due = inl refl
    put-Keeps grid_un grid_u n m v x due = inl refl
    put-Keeps grid_u grid_u n m v x due = elim (ℕ_discrete n m) [
      | no e ↦ inl (ground arith)
      | yes e ↦ inr (
          subst (λ k. IsDue (grid_u, k) ((put n v x.u).at k)) e
            (subst (IsDue (grid_u, n)) (ground arith) due))
    ]
    put-Keeps grid_un grid_un n m v x due = elim (ℕ_discrete n m) [
      | no e ↦ inl (ground arith)
      | yes e ↦ inr (
          subst (λ k. IsDue (grid_un, k) ((put n v x.un).at k)) e
            (subst (IsDue (grid_un, n)) (ground arith) due))
    ]

    put-due :
        (g : Buffer) (n : ℕ) (v : A) (x : Fields A)
        → v ≡ at (with_buffer g (put n v (buffer g x)) x) (g, n)
    put-due grid_u n v x = ground arith
    put-due grid_un n v x = ground arith

    put-Sized :
        (g : Buffer) (n : ℕ) (v : A) (x : Fields A)
        → Sized fs x
        → Sized fs (with_buffer g (put n v (buffer g x)) x)
    put-Sized grid_u n v x w = record { u = w.u; un = w.un }
    put-Sized grid_un n v x w = record { u = w.u; un = w.un }

    pub store-Writes :
        (g : Buffer) (n : ℕ) (v : A) (x : Fields A)
        → n < volume fs
        → IsDue (g, n) v
        → Sized fs x
        → Writes at IsDue (Sized fs) (store g n v) (λ m. m ≡ (g, n)) x
    store-Writes g n v x lt due w = (
      with_buffer g (put n v (buffer g x)) x,
      store_inside g n v x (omega (arith, Sized-buffer fs x g w)),
      put-Sized g n v x w,
      λ (h, m). put-Keeps g h n m v x due,
      λ m e.
          subst (λ k. HasDue at IsDue k (with_buffer g (put n v (buffer g x)) x)) (sym e)
            (subst (IsDue (g, n)) (put-due g n v x) due),
    )
