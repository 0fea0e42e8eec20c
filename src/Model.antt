-- ===== src/Model.antt =====
-- backend/internal/model/model.go: the domain types. A `time.Time` is the number of nanoseconds
-- since Go's zero time, so that `IsZero` is equality with 0; a `*time.Time` is an `Option`.
pub mod Lifecycle
use alertme.Prelude.{ℕ, String, Bool, true, false, Option, ◌==◌, str_eq}
use alertme.Int.{ℤ}

abbrev pub Time : Type 0
Time = ℕ

pub data PageState : Type 0 where
  created pushed delivered seen acked expired cancelled : PageState

-- The constants' string values, which `==` on a `PageState` compares.
unfoldable pub state_name : PageState → String
state_name created = "created"
state_name pushed = "pushed"
state_name delivered = "delivered"
state_name seen = "seen"
state_name acked = "acked"
state_name expired = "expired"
state_name cancelled = "cancelled"

unfoldable pub state_eq : PageState → PageState → Bool
unfolding state_name
state_eq a b = str_eq (state_name a) (state_name b)

-- `PageState.Active`
unfoldable pub is_active : PageState → Bool
is_active created = true
is_active pushed = true
is_active delivered = true
is_active seen = true
is_active _ = false

pub data PairingStatus : Type 0 where
  active blocked : PairingStatus

pub record User : Type 0 where
  pub id : String
  pub display_name : String
  pub created_at : Time

pub record Device : Type 0 where
  pub user_id : String
  pub token : String
  pub platform : String
  pub updated_at : Time

pub record Pairing : Type 0 where
  pub user_id : String
  pub peer_id : String
  pub peer_name : String
  pub status : PairingStatus
  pub created_at : Time

pub record Invite : Type 0 where
  pub code : String
  pub creator_id : String
  pub expires_at : Time

pub record Page : Type 0 where
  pub id : String
  pub sender_id : String
  pub recipient_id : String
  pub message : String
  pub state : PageState
  pub attempt : ℤ
  pub idempotency_key : String
  pub created_at : Time
  pub expires_at : Time
  pub acked_at : Option Time
  pub ack_note : String

pub record PageEvent : Type 0 where
  pub page_id : String
  pub kind : String  -- the field `Type`
  pub detail : String
  pub at : Time
