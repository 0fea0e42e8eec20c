-- ===== src/World.antt =====
-- What a program runs against: the in-memory store, the queue and the devices that were sent to,
-- with an environment that chooses what the code cannot: the clock's readings, the random
-- identifiers, how each push ends, and which calls of the store or the queue fail.
pub mod Run
pub mod Quiet
pub mod Silent
pub mod Ends
use alertme.Prelude.{
  ◌≡◌, refl, ℕ, suc, ◌+◌, String, ⊤, Bool, true, false, Option, none, some, List, [], ◌∷◌, ◌++◌,
  if◌then◌else◌,
}
use alertme.Model.{Time, Device}
use alertme.Store.{StoreCmd, Payload, Result, ok, err, other}
use alertme.Store.Fake.{Store}
use alertme.Store.Exec.{exec}
use alertme.Queue.{PageTask}
use alertme.Push.{Notification, SendResult}
use alertme.Prog.{
  Capability, Call, Answer, Prog, ret, call, on_store, has_capability, enqueue, get_sender, send,
  now, random_id, random_invite_code,
}

-- A call over the network that is answered, or whose request or answer is lost: in the last case
-- the write has happened, and the caller sees an error all the same.
pub data Fault : Type 0 where
  up request_lost answer_lost : Fault

-- Each choice is made for the number of the call.
pub record Env : Type 0 where
  pub reading : ℕ → Time
  pub reading_after : ℕ → Time  -- a later reading during the same call
  pub store_fault : ℕ → Fault
  pub queue_fault : ℕ → Fault
  pub sender_loads : ℕ → Bool  -- whether SSM and FCM hand out a client
  pub push_result : ℕ → SendResult
  pub id : ℕ → String
  pub invite_code : ℕ → ℕ → String
  pub capable : Capability → Bool

-- backend/internal/store/fake/enqueuer.go: what was enqueued, with its delay.
pub record EnqueuedTask : Type 0 where
  pub task : PageTask
  pub delay : ℕ

-- The fields `sender`, `senderOnce` and `senderErr` of the pager's `handler`.
pub data SenderCell : Type 0 where
  unset ready broken : SenderCell

pub record World : Type 0 where
  pub store : Store
  pub tasks : List EnqueuedTask
  pub pushes : List (Device × Notification)
  pub sender : SenderCell
  pub calls : ℕ  -- how many calls have been answered

-- `getSender`: the first call loads the client, and `sync.Once` lets no later call try again.
unfoldable pub sender_cell : Bool → SenderCell → Result ⊤ × SenderCell
sender_cell loads unset = if loads then (ok tt, ready) else (err other, broken)
sender_cell loads ready = (ok tt, ready)
sender_cell loads broken = (err other, broken)

-- The fake `Enqueue`: append to `Tasks`.
unfoldable pub push_task : PageTask → ℕ → List EnqueuedTask → List EnqueuedTask
push_task t d tasks = tasks ++ record { task = t; delay = d } ∷ []

-- The fake `Last`, with `none` for false.
unfoldable last_task : List EnqueuedTask → Option EnqueuedTask
last_task [] = none
last_task (t ∷ []) = some t
last_task (t ∷ u ∷ ts) = last_task (u ∷ ts)

-- What was enqueued last is what `Last` gives.
last_task-push_task :
    (t : PageTask) (d : ℕ) (tasks : List EnqueuedTask)
    → last_task (push_task t d tasks) ≡ some (record { task = t; delay = d })
unfolding last_task push_task
last_task-push_task t d [] = refl
last_task-push_task t d (u ∷ []) = refl
last_task-push_task t d (u ∷ v ∷ ts) = last_task-push_task t d (v ∷ ts)

-- An operation on a part of the world, under a fault.
abbrev pub under {ℓ} : {A : Type ℓ} {S : Type ℓ} → Fault → Result A × S → S → Result A × S
under up (r, s') s = (r, s')
under request_lost (r, s') s = (err other, s)
under answer_lost (r, s') s = (err other, s')

unfoldable pub answer : Env → (c : Call) → World → Answer c × World
unfolding sender_cell push_task
answer env (on_store c) w =
    let n = w.calls in
    let (r, s) =
      under (env.store_fault n) (exec (env.reading n) (env.reading_after n) c w.store) w.store in
    (r, record w { store = s; calls = suc n })
answer env (has_capability c) w = (env.capable c, record w { calls = suc w.calls })
answer env (enqueue t d) w =
    let n = w.calls in
    let (r, ts) = under (env.queue_fault n) (ok tt, push_task t d w.tasks) w.tasks in
    (r, record w { tasks = ts; calls = suc n })
answer env get_sender w =
    let n = w.calls in
    let (r, cell) = sender_cell (env.sender_loads n) w.sender in
    (r, record w { sender = cell; calls = suc n })
answer env (send d m) w =
    let n = w.calls in
    (env.push_result n, record w { pushes = w.pushes ++ (d, m) ∷ []; calls = suc n })
answer env now w = (env.reading w.calls, record w { calls = suc w.calls })
answer env random_id w = (env.id w.calls, record w { calls = suc w.calls })
answer env (random_invite_code k) w = (env.invite_code w.calls k, record w { calls = suc w.calls })

-- A program run to its end, with nothing else running.
unfoldable pub run : {A : Type 0} → Env → Prog A → World → A × World
run env (ret a) w = (a, w)
run env (call c k) w = let (r, w') = answer env c w in run env (k r) w'

-- Nothing is stored, enqueued or pushed between two moments.
pub record IsUntouched (v w : World) : Type 0 where
  pub store : w.store ≡ v.store
  pub tasks : w.tasks ≡ v.tasks
  pub pushes : w.pushes ≡ v.pushes
  pub sender : w.sender ≡ v.sender
