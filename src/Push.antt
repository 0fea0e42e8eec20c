-- ===== src/Push.antt =====
-- backend/internal/push/push.go: a notification, and how sending one ends.
pub mod Fcm
use alertme.Prelude.{String}
use alertme.Int.{ℤ}

pub record Notification : Type 0 where
  pub page_id : String
  pub attempt : ℤ
  pub sender_name : String

-- `Send` returns nil, `ErrTokenGone`, or any other error.
pub data SendResult : Type 0 where
  sent token_gone failed : SendResult
