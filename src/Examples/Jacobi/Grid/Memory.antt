-- ===== src/Examples/Jacobi/Grid/Memory.antt =====
-- Accesses inside a grid, and the two grids of an iteration.
use task_r.Base.{ℕ, ◌+◌, ◌-◌, ◌%◌, ◌<◌, ◌≡◌, ◌==◌, arith, refl, ok, Bool-cases, inl, inr}
use task_r.Examples.Blocks.{Slot, put}
use task_r.Examples.Jacobi.Grid.{
  Buffer, Fields, read_by, written_by, buffer, with_buffer, load, load_before, store,
}

module _ {A : Type 0} where
  pub load_inside :
      (b : Buffer) (p : ℕ) (s : Fields A)
      → p < (buffer b s).size
      → load b p s ≡ (s, ok ((buffer b s).at p))
  unfolding load
  load_inside b p s lt = ground arith

  pub load_before_inside :
      (b : Buffer) (p offset q : ℕ) (s : Fields A)
      → p < (buffer b s).size
      → p ≡ q + offset
      → load_before b p offset s ≡ (s, ok ((buffer b s).at q))
  unfolding load_before load
  load_before_inside b p offset q s lt e =
      let back : p - offset ≡ q = omega arith in rw back (ground arith)

  pub store_inside :
      (b : Buffer) (p : ℕ) (v : A) (s : Fields A)
      → p < (buffer b s).size
      → store b p v s ≡ (with_buffer b (put p v (buffer b s)) s, ok tt)
  unfolding store
  store_inside b p v s lt = ground arith

  pub written :
      (it : ℕ) (w : Slot A) (x : Fields A)
      → buffer (written_by it) (with_buffer (written_by it) w x) ≡ w
  written it w x = elim (Bool-cases (it % 2 == 0)) [ inl e ↦ rw e refl | inr e ↦ rw e refl ]

  pub other :
      (it : ℕ) (w : Slot A) (x : Fields A)
      → buffer (read_by it) (with_buffer (written_by it) w x) ≡ buffer (read_by it) x
  other it w x = elim (Bool-cases (it % 2 == 0)) [ inl e ↦ rw e refl | inr e ↦ rw e refl ]
