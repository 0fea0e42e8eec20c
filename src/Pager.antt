-- ===== src/Pager.antt =====
-- backend/cmd/pager/main.go: the worker that drives the page state machine. Log lines are left out;
-- an error is known by its class under `errors.Is`, which `fmt.Errorf` with `%w` keeps.
pub mod Contract
pub mod Pushing
pub mod Attempts
pub mod Due
pub mod Drops
pub mod Lost
pub mod Poison
pub mod Chain
use alertme.Prelude.{
  ℕ, ◌*◌, ◌-◌, ◌^◌, String, ⊤, Bool, true, false, not, Option, none, some, List, [], ◌∷◌, ltb, min,
  if◌then◌else◌,
}
use alertme.Int.{ℤ, leb_ℤ, add_one}
use alertme.Model.{
  Time, PageState, created, pushed, delivered, seen, expired, User, Device, Page, PageEvent,
  is_active,
}
use alertme.Nag.{minute, next_delay}
use alertme.Store.{
  Err, Result, ok, err, not_found, conflict, other, get_page, get_user, list_devices, delete_device,
  set_page_state, append_event,
}
use alertme.Queue.{PageTask}
use alertme.Push.{Notification, SendResult, sent, token_gone, failed}
use alertme.Prog.{
  Prog, ret, call, perform, ask, has_capability, device_deleter, enqueue, get_sender, send, now,
  ◌>>=◌, ◌>>◌,
}

abbrev pub max_final_delay : ℕ
max_final_delay = 15 * minute

-- The largest `time.Duration`, at which `Time.Sub` saturates.
abbrev pub max_duration : ℕ
max_duration = 2 ^ 63 - 1

abbrev pub active_states : List PageState
active_states = created ∷ pushed ∷ delivered ∷ seen ∷ []

-- An error that is neither nil nor `ErrConflict`.
abbrev pub failure : Result ⊤ → Option Err
failure (ok _) = none
failure (err conflict) = none
failure (err not_found) = some not_found
failure (err other) = some other

abbrev pub event : String → String → Time → PageEvent
event page_id kind at = record { page_id = page_id; kind = kind; detail = ""; at = at }

-- The transitions of `recordAttempt`, in order.
abbrev pub transitions : List (List PageState × PageState)
transitions = (created ∷ pushed ∷ [], pushed) ∷ (delivered ∷ [], delivered) ∷ (seen ∷ [], seen) ∷ []

abbrev pub unless_settled : Result ⊤ → Prog (Result ⊤) → Prog (Result ⊤)
unless_settled (ok _) rest = ret (ok tt)
unless_settled (err conflict) rest = rest
unless_settled (err not_found) rest = ret (err not_found)
unless_settled (err other) rest = ret (err other)

unfoldable pub try_each : String → ℤ → List (List PageState × PageState) → Prog (Result ⊤)
unfolding ◌>>=◌
try_each page_id attempt [] = ret (ok tt)
try_each page_id attempt ((from, to) ∷ ts) = do
  r ← ask (set_page_state page_id from to attempt)
  unless_settled r (try_each page_id attempt ts)

unfoldable pub record_attempt : String → ℤ → Prog (Result ⊤)
unfolding try_each
record_attempt page_id attempt = try_each page_id attempt transitions

-- A dead token is pruned where the store can; a failure to do so is only logged.
unfoldable pub prune : SendResult → Device → Prog ⊤
unfolding ◌>>=◌
prune sent d = ret tt
prune failed d = ret tt
prune token_gone d = do
  can ← perform (has_capability device_deleter)
  if can then (do ask (delete_device d.user_id d.token) >>= λ _. ret tt) else ret tt

unfoldable pub push_to : List Device → Notification → Prog ⊤
unfolding ◌>>=◌ prune
push_to [] n = ret tt
push_to (d ∷ ds) n = do outcome ← perform (send d n); prune outcome d; push_to ds n

abbrev pub sender_name : Page → Result User → String
sender_name page (ok u) = u.display_name
sender_name page (err e) = page.sender_id

-- Step 5: every device is sent the notification.
abbrev pub with_sender : List Device → Notification → Result ⊤ → Prog (Result ⊤)
with_sender devices n (ok _) = do push_to devices n; ret (ok tt)
with_sender devices n (err e) = ret (err e)

unfoldable pub notify : PageTask → Page → Time → List Device → Prog (Result ⊤)
unfolding ◌>>=◌ push_to
notify task page at [] = do ask (append_event (event page.id "no_devices" at)) >>= λ _. ret (ok tt)
notify task page at (d ∷ ds) = do
  u ← ask (get_user page.sender_id)
  sender ← perform get_sender
  with_sender (d ∷ ds)
      (record { page_id = page.id; attempt = task.attempt; sender_name = sender_name page u })
      sender

-- Step 7.
unfoldable pub enqueue_next : PageTask → Page → Time → Prog (Result ⊤)
enqueue_next task page at =
    let next : PageTask = record { page_id = page.id; attempt = add_one task.attempt } in
    let (delay, more) = next_delay (add_one task.attempt) in
    if more
    then perform (enqueue next delay)
    else if ltb at page.expires_at
    then perform (enqueue next (min (min (page.expires_at - at) max_duration) max_final_delay))
    else ret (ok tt)

-- Step 6, and on to step 7.
abbrev pub after_record : PageTask → Page → Time → Result ⊤ → Prog (Result ⊤)
after_record task page at (err e) = ret (err e)
after_record task page at (ok _) = do
  ask (append_event (event page.id "push_attempt" at)) >>= λ _. enqueue_next task page at

abbrev pub after_notify : PageTask → Page → Time → Result ⊤ → Prog (Result ⊤)
after_notify task page at (err e) = ret (err e)
after_notify task page at (ok _) = do
  r ← record_attempt page.id task.attempt
  after_record task page at r

-- Steps 4 to 7, for a page that is due.
abbrev pub with_devices : PageTask → Page → Time → Result (List Device) → Prog (Result ⊤)
with_devices task page at (err e) = ret (err e)
with_devices task page at (ok devices) = do
  r ← notify task page at devices
  after_notify task page at r

-- Step 2.
abbrev pub after_expire : Page → Time → Option Err → Prog (Result ⊤)
after_expire page at (some e) = ret (err e)
after_expire page at none = do ask (append_event (event page.id "expired" at)) >>= λ _. ret (ok tt)

unfoldable pub expire : Page → Time → Prog (Result ⊤)
unfolding ◌>>=◌
expire page at = do
  r ← ask (set_page_state page.id active_states expired page.attempt)
  after_expire page at (failure r)

unfoldable pub nag : PageTask → Page → Time → Prog (Result ⊤)
unfolding ◌>>=◌
nag task page at = do
  devices ← ask (list_devices page.recipient_id)
  with_devices task page at devices

-- The tests of steps 2 and 3, at the time read after step 1.
unfoldable pub on_active : PageTask → Page → Time → Prog (Result ⊤)
on_active task page at =
    if ltb page.expires_at at
    then expire page at
    else if leb_ℤ task.attempt page.attempt
    then ret (ok tt)
    else nag task page at

unfoldable pub handle_page : PageTask → Page → Prog (Result ⊤)
unfolding ◌>>=◌
handle_page task page =
    if not (is_active page.state)
    then ret (ok tt)
    else (do at ← perform now; on_active task page at)

abbrev pub loaded : PageTask → Result Page → Prog (Result ⊤)
loaded task (err not_found) = ret (ok tt)
loaded task (err conflict) = ret (err conflict)
loaded task (err other) = ret (err other)
loaded task (ok page) = handle_page task page

-- `handleRecord`; the body has been decoded by encoding/json, `none` if that failed.
unfoldable pub handle_record : Option PageTask → Prog (Result ⊤)
unfolding ◌>>=◌
handle_record none = ret (ok tt)
handle_record (some task) = do r ← ask (get_page task.page_id); loaded task r

abbrev pub report : String → Result ⊤ → List String → List String
report message_id (ok _) failures = failures
report message_id (err e) failures = message_id ∷ failures

-- `handleBatch`: the identifiers of the messages that SQS is to deliver again, in order.
unfoldable pub handle_batch : List (String × Option PageTask) → Prog (List String)
unfolding ◌>>=◌
handle_batch [] = ret []
handle_batch ((message_id, task) ∷ records) = do
  r ← handle_record task
  rest ← handle_batch records
  ret (report message_id r rest)
