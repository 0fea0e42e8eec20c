-- ===== src/Queue.antt =====
-- backend/internal/queue/queue.go: the message of the nag queue, and what SQS is asked for.
pub mod Sqs
use alertme.Prelude.{ℕ, ◌/◌, String}
use alertme.Int.{ℤ}
use alertme.Nag.{second}

pub record PageTask : Type 0 where
  pub page_id : String
  pub attempt : ℤ

-- `int32(delay / time.Second)`; the callers' delays are at most 900 seconds, far below 2^31.
unfoldable pub delay_seconds : ℕ → ℕ
delay_seconds delay = delay / second
