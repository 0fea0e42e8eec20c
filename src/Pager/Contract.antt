-- ===== src/Pager/Contract.antt =====
-- The pager keeps the contract of the store.
use alertme.Prelude.{String, ⊤, List, [], ◌∷◌, Option, none, some, arith, All}
use alertme.Int.{ℤ}
use alertme.Model.{
  Time, PageState, created, pushed, delivered, seen, expired, Device, Page, is_active,
}
use alertme.Model.Lifecycle.{state_eq_iff}
use alertme.Store.{Err, Result, ok, err, not_found, conflict, other}
use alertme.Store.Fake.{allowed}
use alertme.Store.Contract.{IsTransition}
use alertme.Queue.{PageTask}
use alertme.Push.{Notification, SendResult, sent, token_gone, failed}
use alertme.Prog.{Prog, ◌>>=◌}
use alertme.Prog.Calls.{Calls, stops, calls, Calls-bind, Calls-if, calls_rules, ObeysCall}
use alertme.Pager.{
  active_states, transitions, try_each, record_attempt, unless_settled, prune, push_to, with_sender,
  notify, enqueue_next, after_record, after_notify, with_devices, after_expire, failure, expire,
  nag, on_active, handle_page, loaded, handle_record, handle_batch,
}

expire-IsTransition : IsTransition active_states expired
unfolding allowed is_active
expire-IsTransition = record {
  leaves = λ st h. ground (
    arith,
    state_eq_iff st created,
    state_eq_iff st pushed,
    state_eq_iff st delivered,
    state_eq_iff st seen,
  );
  not_ack = λ e. cc;
}

pushed-IsTransition : IsTransition (created ∷ pushed ∷ []) pushed
unfolding allowed is_active
pushed-IsTransition = record {
  leaves = λ st h. ground (arith, state_eq_iff st created, state_eq_iff st pushed);
  not_ack = λ e. cc;
}

delivered-IsTransition : IsTransition (delivered ∷ []) delivered
unfolding allowed is_active
delivered-IsTransition = record {
  leaves = λ st h. ground (arith, state_eq_iff st delivered);
  not_ack = λ e. cc;
}

seen-IsTransition : IsTransition (seen ∷ []) seen
unfolding allowed is_active
seen-IsTransition = record {
  leaves = λ st h. ground (arith, state_eq_iff st seen);
  not_ack = λ e. cc;
}

abbrev AllTransitions : List (List PageState × PageState) → Type 0
AllTransitions = All (λ t. IsTransition t.0 t.1)

unless_settled-Calls :
    (r : Result ⊤) (m : Prog (Result ⊤)) → Calls ObeysCall m → Calls ObeysCall (unless_settled r m)
unless_settled-Calls (ok _) m h = stops _
unless_settled-Calls (err conflict) m h = h
unless_settled-Calls (err not_found) m h = stops _
unless_settled-Calls (err other) m h = stops _

try_each-Calls :
    (id : String) (attempt : ℤ) (ts : List (List PageState × PageState))
    → AllTransitions ts
    → Calls ObeysCall (try_each id attempt ts)
unfolding try_each
try_each-Calls id attempt [] h = stops _
try_each-Calls id attempt ((from, to) ∷ ts) (h, hs) =
    calls _ _ h (λ r. unless_settled-Calls r _ (try_each-Calls id attempt ts hs))

record_attempt-Calls : (id : String) (attempt : ℤ) → Calls ObeysCall (record_attempt id attempt)
unfolding record_attempt
record_attempt-Calls id attempt =
    try_each-Calls id attempt transitions
      (pushed-IsTransition, (delivered-IsTransition, (seen-IsTransition, tt)))

prune-Calls : (o : SendResult) (d : Device) → Calls ObeysCall (prune o d)
unfolding prune
prune-Calls sent d = stops _
prune-Calls failed d = stops _
prune-Calls token_gone d =
    calls _ _ tt (λ can. Calls-if can (calls _ _ tt (λ r. stops _)) (stops _))

push_to-Calls : (ds : List Device) (n : Notification) → Calls ObeysCall (push_to ds n)
unfolding push_to
push_to-Calls [] n = stops _
push_to-Calls (d ∷ ds) n =
    calls _ _ tt (λ o. Calls-bind _ (prune-Calls o d) (λ _. push_to-Calls ds n))

with_sender-Calls :
    (ds : List Device) (n : Notification) (r : Result ⊤) → Calls ObeysCall (with_sender ds n r)
with_sender-Calls ds n (ok _) = Calls-bind _ (push_to-Calls ds n) (λ _. stops _)
with_sender-Calls ds n (err e) = stops _

notify-Calls :
    (task : PageTask) (page : Page) (at : Time) (ds : List Device)
    → Calls ObeysCall (notify task page at ds)
unfolding notify
notify-Calls task page at [] = calls _ _ tt (λ r. stops _)
notify-Calls task page at (d ∷ ds) =
    calls _ _ tt (λ u. calls _ _ tt (λ sender. with_sender-Calls (d ∷ ds) _ sender))

enqueue_next-Calls :
    (task : PageTask) (page : Page) (at : Time) → Calls ObeysCall (enqueue_next task page at)
unfolding enqueue_next
enqueue_next-Calls task page at = search calls_rules

module _ (task : PageTask) (page : Page) (at : Time) where
  after_record-Calls : (r : Result ⊤) → Calls ObeysCall (after_record task page at r)
  unfolding ◌>>=◌
  after_record-Calls (err e) = stops _
  after_record-Calls (ok _) = calls _ _ tt (λ r. enqueue_next-Calls task page at)

  after_notify-Calls : (r : Result ⊤) → Calls ObeysCall (after_notify task page at r)
  after_notify-Calls (err e) = stops _
  after_notify-Calls (ok _) =
      Calls-bind _ (record_attempt-Calls page.id task.attempt) after_record-Calls

  with_devices-Calls : (r : Result (List Device)) → Calls ObeysCall (with_devices task page at r)
  with_devices-Calls (err e) = stops _
  with_devices-Calls (ok ds) = Calls-bind _ (notify-Calls task page at ds) after_notify-Calls

  nag-Calls : Calls ObeysCall (nag task page at)
  unfolding nag ◌>>=◌
  nag-Calls = calls _ _ tt with_devices-Calls

  after_expire-Calls : (o : Option Err) → Calls ObeysCall (after_expire page at o)
  unfolding ◌>>=◌
  after_expire-Calls (some e) = stops _
  after_expire-Calls none = calls _ _ tt (λ r. stops _)

  expire-Calls : Calls ObeysCall (expire page at)
  unfolding expire ◌>>=◌
  expire-Calls = calls _ _ expire-IsTransition (λ r. after_expire-Calls (failure r))

  on_active-Calls : Calls ObeysCall (on_active task page at)
  unfolding on_active
  on_active-Calls = Calls-if _ expire-Calls (Calls-if _ (stops _) nag-Calls)

handle_page-Calls : (task : PageTask) (page : Page) → Calls ObeysCall (handle_page task page)
unfolding handle_page ◌>>=◌
handle_page-Calls task page = Calls-if _ (stops _) (calls _ _ tt (on_active-Calls task page))

loaded-Calls : (task : PageTask) (r : Result Page) → Calls ObeysCall (loaded task r)
loaded-Calls task (err not_found) = stops _
loaded-Calls task (err conflict) = stops _
loaded-Calls task (err other) = stops _
loaded-Calls task (ok page) = handle_page-Calls task page

pub handle_record-Calls : (body : Option PageTask) → Calls ObeysCall (handle_record body)
unfolding handle_record ◌>>=◌
handle_record-Calls none = stops _
handle_record-Calls (some task) = calls _ _ tt (loaded-Calls task)

-- Whatever a batch of messages holds and whatever the calls of the pager are answered, each call of
-- the store that the pager makes keeps the store's contract: a change of state is from active states
-- to one not before them, and never to `acked`, and no page is made but as a created one.
pub handle_batch-Calls :
    (records : List (String × Option PageTask)) → Calls ObeysCall (handle_batch records)
unfolding handle_batch
handle_batch-Calls [] = stops _
handle_batch-Calls ((message_id, body) ∷ records) =
    Calls-bind _ (handle_record-Calls body)
      (λ r. Calls-bind _ (handle_batch-Calls records) (λ rest. stops _))
