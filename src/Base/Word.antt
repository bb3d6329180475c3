-- ===== src/Base/Word.antt =====
-- `size_t` counters: 64-bit words that wrap around.
use Prim.Native.Nat.{ℕ, ◌+◌, ◌-◌, ◌%◌, ◌^◌, ◌<◌}
use mathlib.Core.Path.{◌≡◌}
use native.Mathlib.Omega.{arith}

-- `++counter` on a `size_t`, and `fetch_add(1) + 1`.
unfoldable pub inc64 : ℕ → ℕ
inc64 n = (n + 1) % 2 ^ 64

-- `--counter` on a `size_t`, and `fetch_sub(1) - 1`: at 0 the counter wraps to the largest word.
unfoldable pub dec64 : ℕ → ℕ
dec64 n = (n + (2 ^ 64 - 1)) % 2 ^ 64

pub inc64-add : (n : ℕ) → n + 1 < 2 ^ 64 → inc64 n ≡ n + 1
unfolding inc64
inc64-add n h = omega arith

pub dec64-sub : (n : ℕ) → 0 < n → n < 2 ^ 64 → dec64 n + 1 ≡ n
unfolding dec64
dec64-sub n p h = omega arith

pub dec64-inc64 : (n : ℕ) → n < 2 ^ 64 → dec64 (inc64 n) ≡ n
unfolding inc64 dec64
dec64-inc64 n h = omega arith

pub inc64-lt : (n : ℕ) → inc64 n < 2 ^ 64
unfolding inc64
inc64-lt n = omega arith

pub dec64-lt : (n : ℕ) → dec64 n < 2 ^ 64
unfolding dec64
dec64-lt n = omega arith
