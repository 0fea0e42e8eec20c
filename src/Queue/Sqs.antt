-- ===== src/Queue/Sqs.antt =====
-- backend/internal/queue/queue.go: `SQS.Enqueue`. The client of SQS and the JSON package are
-- parameters.
use alertme.Prelude.{ℕ, String, Bool, ⊤, Option, none, some, if◌then◌else◌}
use alertme.Store.{Result, ok, err, other}
use alertme.Queue.{PageTask, delay_seconds}

pub record SqsClient : Type 1 where
  pub State : Type 0
  pub marshal : PageTask → Option String
  -- the queue's URL, the body and the delay in seconds: whether the message is sent
  pub send_message : String → String → ℕ → State → Bool × State

abbrev sent : {S : Type 0} → Bool × S → Result ⊤ × S
sent (done, s) = (if done then ok tt else err other, s)

unfoldable pub enqueue : (c : SqsClient) → String → PageTask → ℕ → c.State → Result ⊤ × c.State
unfolding delay_seconds
enqueue c queue_url task delay s = elim (c.marshal task) [
  | none ↦ (err other, s)
  | some body ↦ sent (c.send_message queue_url body (delay_seconds delay) s)
]
