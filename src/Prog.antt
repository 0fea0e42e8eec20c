-- ===== src/Prog.antt =====
-- What the handlers are written in: a program that calls the interfaces it is given (the store, the
-- queue, the push sender, the clock, randomness) and goes on with the answers. A handler is its
-- tree of calls, so one text serves a run on a store and an interleaving with other handlers.
pub mod Calls
use alertme.Prelude.{ℕ, String, ⊤, Bool}
use alertme.Model.{Time, Device}
use alertme.Store.{StoreCmd, Payload, Result}
use alertme.Queue.{PageTask}
use alertme.Push.{Notification, SendResult}

-- The optional interfaces that callers type-assert the store for.
pub data Capability : Type 0 where
  idempotent_page_lookup device_deleter : Capability

pub data Call : Type 0 where
  on_store : StoreCmd → Call
  has_capability : Capability → Call
  enqueue : PageTask → ℕ → Call
  get_sender : Call
  send : Device → Notification → Call
  now : Call
  random_id : Call
  random_invite_code : ℕ → Call

abbrev pub Answer : Call → Type 0
Answer (on_store c) = Result (Payload c)
Answer (has_capability c) = Bool
Answer (enqueue task delay) = Result ⊤
Answer get_sender = Result ⊤
Answer (send device n) = SendResult
Answer now = Time
Answer random_id = String
Answer (random_invite_code n) = String

pub data Prog (A : Type 0) : Type 0 where
  ret : A → Prog A
  call : (c : Call) → (Answer c → Prog A) → Prog A

abbrev pub perform : (c : Call) → Prog (Answer c)
perform c = call c ret

abbrev pub ask : (c : StoreCmd) → Prog (Result (Payload c))
ask c = call (on_store c) ret

infixl 5 ◌>>=◌ ◌>>◌
unfoldable pub ◌>>=◌ : {A B : Type 0} → Prog A → (A → Prog B) → Prog B
ret a >>= f = f a
call c k >>= f = call c (λ r. k r >>= f)

abbrev pub ◌>>◌ : {A B : Type 0} → Prog A → Prog B → Prog B
m >> n = m >>= λ _. n
