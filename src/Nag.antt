-- ===== src/Nag.antt =====
-- backend/internal/nag/schedule.go: the retry schedule. A duration is a number of nanoseconds.
pub mod Schedule
use alertme.Prelude.{
  ℕ, zero, suc, ◌*◌, ◌^◌, Bool, true, false, Option, none, some, List, [], ◌∷◌, length, get_elem?,
  leb, if◌then◌else◌,
}
use alertme.Int.{ℤ, pos, negsuc}

abbrev pub second : ℕ
second = 10 ^ 9

abbrev pub minute : ℕ
minute = 60 * second

abbrev pub delays : List ℕ
delays =
    (30 * second)
    ∷ (30 * second)
    ∷ (60 * second)
    ∷ (2 * minute)
    ∷ (5 * minute)
    ∷ (5 * minute)
    ∷ (5 * minute)
    ∷ (5 * minute)
    ∷ (5 * minute)
    ∷ (5 * minute)
    ∷ []

abbrev pub expiry : ℕ
expiry = 30 * minute

-- `Delays[i]`, which the guard of `NextDelay` keeps in range.
abbrev pub delay_at : Option ℕ → ℕ
delay_at none = 0
delay_at (some d) = d

unfoldable pub next_delay : ℤ → ℕ × Bool
next_delay (negsuc n) = (0, true)
next_delay (pos zero) = (0, true)
next_delay (pos (suc i)) =
    if leb (length delays) i then (0, false) else (delay_at (get_elem? delays i), true)
