-- ===== src/ConditionVariable/Timeout.antt =====
-- The two calls of `waitFor`: when they time out, and what a timeout leaves behind.
use task_r.Base.{
  ℕ, ◌-◌, ◌/◌, ◌^◌, ◌<◌, ◌≤◌, ◌≡◌, ◌≢◌, ◌↔◌, ◌⊎◌, true, false, List, ◌∷◌, arith, ok, some,
}
use task_r.Clock.{elapsed, elapsed_forward, nanoseconds_per_us}
use task_r.ConditionVariable.{Shared, notify_one, wait_for_check, timed_out}

-- On a clock and with a timeout of 63 bits, the limit is exceeded exactly when more whole
-- microseconds have passed than the timeout, or when the clock was set back by a microsecond or more:
-- the time that has passed is compared as a number without a sign.
pub timed_out_iff :
    (timeout start now : ℕ)
    → timeout < 2 ^ 63
    → start < 2 ^ 63
    → now < 2 ^ 63
    → (timed_out timeout start now ≡ true)
      ↔ ((timeout < (now - start) / nanoseconds_per_us) ⊎ (nanoseconds_per_us ≤ start - now))
unfolding elapsed
timed_out_iff timeout start now small early late = ground arith

timed_out_forward :
    (timeout start now : ℕ)
    → start ≤ now
    → timeout < (now - start) / nanoseconds_per_us
    → timed_out timeout start now ≡ true
timed_out_forward timeout start now forward late =
    ground (arith, elapsed_forward nanoseconds_per_us now start forward)

-- A `waitFor` without a predicate that times out before it is notified runs on, and leaves the
-- address of its flag at the head of the list of waiting tasks. The next `notifyOne` then takes that
-- address and writes through it, and the task that waits behind it is not notified.
pub timeout_loses_notification :
    (t f g timeout start now : ℕ) (rest : List ℕ) (s : Shared)
    → s.mutex.owner_task ≡ some t
    → s.waiting_tasks ≡ f ∷ g ∷ rest
    → f ≢ g
    → s.flag f ≡ false
    → s.flag g ≡ false
    → start ≤ now
    → timeout < (now - start) / nanoseconds_per_us
    → ((wait_for_check f timeout start now s).1 ≡ true)
      × ((wait_for_check f timeout start now s).0.waiting_tasks ≡ f ∷ g ∷ rest)
      × ((notify_one t (wait_for_check f timeout start now s).0).1 ≡ ok tt)
      × ((notify_one t (wait_for_check f timeout start now s).0).0.waiting_tasks ≡ g ∷ rest)
      × ((notify_one t (wait_for_check f timeout start now s).0).0.flag g ≡ false)
unfolding notify_one wait_for_check
timeout_loses_notification t f g timeout start now rest s own waiting differ quiet quiet' forward
      late =
    let e = timed_out_forward timeout start now forward late in
    (ground arith, ground arith, ground arith, ground arith, ground arith)
