-- ===== src/Model/Lifecycle.antt =====
-- The page lifecycle that model.go's comment on `PageState` states: states only move forward.
use alertme.Prelude.{
  ℕ, ◌≤◌, String, ◌≡◌, refl, sym, ap, ◌∙◌, ◌↔◌, ◌⊎◌, inl, true, arith, str_eq, eq_iff,
  if◌then◌else◌,
}
use alertme.Model.{
  PageState, created, pushed, delivered, seen, acked, expired, cancelled, state_name, state_eq,
  is_active,
}

-- The place of an active state in created → pushed → delivered → seen; all others are final.
abbrev pub rank : PageState → ℕ
rank created = 0
rank pushed = 1
rank delivered = 2
rank seen = 3
rank acked = 4
rank expired = 4
rank cancelled = 4

-- `b` is `a`, or lies further on; a final state has no successor.
abbrev pub Forward : PageState → PageState → Type 0
Forward a b = (a ≡ b) ⊎ ((is_active a ≡ true) × (rank a ≤ rank b))

pub Forward-refl : (a : PageState) → Forward a a
Forward-refl a = inl refl

pub Forward-trans : (a b c : PageState) → Forward a b → Forward b c → Forward a c
unfolding is_active
Forward-trans a b c p q = ground arith

of_name : String → PageState
of_name s =
    if str_eq s "created"
    then created
    else if str_eq s "pushed"
    then pushed
    else if str_eq s "delivered"
    then delivered
    else if str_eq s "seen"
    then seen
    else if str_eq s "acked"
    then acked
    else if str_eq s "expired"
    then expired
    else cancelled

of_name-state_name : (a : PageState) → of_name (state_name a) ≡ a
unfolding of_name state_name
of_name-state_name created = refl
of_name-state_name pushed = refl
of_name-state_name delivered = refl
of_name-state_name seen = refl
of_name-state_name acked = refl
of_name-state_name expired = refl
of_name-state_name cancelled = refl

-- No two states share a name, so comparing the strings compares the states.
pub state_eq_iff : (a b : PageState) → (state_eq a b ≡ true) ↔ (a ≡ b)
unfolding state_eq
state_eq_iff a b = (
  λ h.
      sym (of_name-state_name a)
      ∙ ap of_name ((eq_iff (state_name a) (state_name b)).0 h)
      ∙ of_name-state_name b,
  λ e. (eq_iff (state_name a) (state_name b)).1 (ap state_name e),
)
