-- ===== src/Clock.antt =====
-- Durations between two readings of `std::chrono::high_resolution_clock`, which counts nanoseconds
-- and may be set back between two readings. `duration_cast` rounds towards zero.
use task_r.Base.{ℕ, ◌-◌, ◌/◌, ◌^◌, ◌≤◌, ◌≡◌, ℤ, pos, negsuc, suc, leb, if◌then◌else◌, zero, arith}

abbrev pub nanoseconds_per_ms : ℕ
nanoseconds_per_ms = 1_000_000

abbrev pub nanoseconds_per_us : ℕ
nanoseconds_per_us = 1_000

-- The negative of a number.
abbrev pub negated : ℕ → ℤ
negated zero = pos 0
negated (suc n) = negsuc n

-- `duration_cast<…>(now - since).count()` for a unit of that many nanoseconds.
unfoldable pub elapsed : (unit now since : ℕ) → ℤ
elapsed unit now since =
    if leb since now then pos ((now - since) / unit) else negated ((since - now) / unit)

-- The conversion of a signed 64-bit count to `size_t`.
abbrev pub to_size_t : ℤ → ℕ
to_size_t (pos n) = n
to_size_t (negsuc n) = 2 ^ 64 - 1 - n

pub elapsed_forward :
    (unit now since : ℕ) → since ≤ now → elapsed unit now since ≡ pos ((now - since) / unit)
unfolding elapsed
elapsed_forward unit now since h = ground arith
