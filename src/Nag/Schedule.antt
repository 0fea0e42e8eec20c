-- ===== src/Nag/Schedule.antt =====
-- What the constants of the nag schedule guarantee: every delay fits SQS, and the schedule lasts
-- longer than a page.
use alertme.Prelude.{ℕ, zero, suc, ◌+◌, ◌*◌, ◌≤◌, ◌≡◌, refl, false, arith, get_elem?}
use alertme.Int.{ℤ, pos, negsuc}
use alertme.Nag.{second, minute, delays, expiry, delay_at, next_delay}

delay_at_le : (i : ℕ) → delay_at (get_elem? delays i) ≤ 5 * minute
delay_at_le zero = omega arith
delay_at_le (suc zero) = omega arith
delay_at_le (suc (suc zero)) = omega arith
delay_at_le (suc (suc (suc zero))) = omega arith
delay_at_le (suc (suc (suc (suc zero)))) = omega arith
delay_at_le (suc (suc (suc (suc (suc zero))))) = omega arith
delay_at_le (suc (suc (suc (suc (suc (suc zero)))))) = omega arith
delay_at_le (suc (suc (suc (suc (suc (suc (suc zero))))))) = omega arith
delay_at_le (suc (suc (suc (suc (suc (suc (suc (suc zero)))))))) = omega arith
delay_at_le (suc (suc (suc (suc (suc (suc (suc (suc (suc zero))))))))) = omega arith
delay_at_le (suc (suc (suc (suc (suc (suc (suc (suc (suc (suc i)))))))))) = omega arith

-- For every attempt number, negative ones included, the delay is at most five minutes, and so
-- within the 900 seconds that SQS takes.
pub next_delay_bounds :
    (n : ℤ) → ((next_delay n).0 ≤ 5 * minute) × ((next_delay n).0 ≤ 900 * second)
unfolding next_delay
next_delay_bounds (negsuc n) = (omega arith, omega arith)
next_delay_bounds (pos zero) = (omega arith, omega arith)
next_delay_bounds (pos (suc i)) = ground (arith, delay_at_le i)

-- The least time from a page's creation to its attempt `n`.
unfoldable pub fires_at : ℕ → ℕ
fires_at zero = (next_delay (pos zero)).0
fires_at (suc n) = fires_at n + (next_delay (pos (suc n))).0

fires_at_ten : fires_at 10 ≡ 34 * minute
unfolding fires_at next_delay
fires_at_ten = refl

fires_at_late :
    (k : ℕ) → 34 * minute ≤ fires_at (suc (suc (suc (suc (suc (suc (suc (suc (suc (suc k))))))))))
unfolding fires_at
fires_at_late zero = omega (arith, fires_at_ten)
fires_at_late (suc k) = omega (arith, fires_at_late k)

fires_at_exhausted : (n : ℕ) → (next_delay (pos (suc n))).1 ≡ false → 34 * minute ≤ fires_at n
unfolding next_delay
fires_at_exhausted zero h = cc
fires_at_exhausted (suc zero) h = cc
fires_at_exhausted (suc (suc zero)) h = cc
fires_at_exhausted (suc (suc (suc zero))) h = cc
fires_at_exhausted (suc (suc (suc (suc zero)))) h = cc
fires_at_exhausted (suc (suc (suc (suc (suc zero))))) h = cc
fires_at_exhausted (suc (suc (suc (suc (suc (suc zero)))))) h = cc
fires_at_exhausted (suc (suc (suc (suc (suc (suc (suc zero))))))) h = cc
fires_at_exhausted (suc (suc (suc (suc (suc (suc (suc (suc zero)))))))) h = cc
fires_at_exhausted (suc (suc (suc (suc (suc (suc (suc (suc (suc zero))))))))) h = cc
fires_at_exhausted (suc (suc (suc (suc (suc (suc (suc (suc (suc (suc k)))))))))) h = fires_at_late k

-- `t n` is when attempt `n` fires.
module _ (made : ℕ) (t : ℕ → ℕ) (begins : made ≤ t 0)
    (waits : (n : ℕ) → t n + (next_delay (pos (suc n))).0 ≤ t (suc n)) where
  fires_at-le : (n : ℕ) → made + fires_at n ≤ t n
  unfolding fires_at next_delay
  fires_at-le zero = omega arith
  fires_at-le (suc n) = omega (arith, fires_at-le n, waits n)

  -- If attempt 0 of a page made at `made` fires no earlier than that, and each later attempt no
  -- earlier than the scheduled delay after the one before it, then an attempt after which the
  -- schedule is exhausted fires at least four minutes after the page's expiry.
  pub schedule_outlasts_page :
      (n : ℕ) → (next_delay (pos (suc n))).1 ≡ false → made + expiry + 4 * minute ≤ t n
  schedule_outlasts_page n h = omega (arith, fires_at-le n, fires_at_exhausted n h)
