-- ===== src/Pager/Chain.antt =====
-- One chain of tasks per page: a handling enqueues at most one task, the next attempt's.
use alertme.Prelude.{
  ℕ, ◌≤◌, ◌*◌, ◌-◌, String, ⊤, ◌≡◌, refl, subst, ◌⊎◌, inl, inr, some, none, Option, List, [], ◌∷◌,
  ◌++◌, arith, min,
}
use alertme.Int.{ℤ, add_one}
use alertme.Model.{Time, PageState, Device, Page}
use alertme.Nag.{second, minute}
use alertme.Nag.Schedule.{next_delay_bounds}
use alertme.Store
use alertme.Store.Exec.{exec}
use alertme.Store.Fake.{get_page}
use alertme.Store.Fake.Invariant.{IsWellFormed}
use alertme.Store.{Err, Result, ok, err, not_found, conflict, other, StoreCmd}
use alertme.Queue.{PageTask, delay_seconds}
use alertme.Push.{Notification, SendResult, sent, token_gone, failed}
use alertme.Prog.{Prog, on_store, ◌>>=◌}
use alertme.Prog.Calls.{Calls, stops, calls, Calls-bind, Calls-if}
use alertme.World.Ends.{IsIdle, Ends, ends, goes_on, enqueues, Ends-after, Ends-if, run-OneMore}
use alertme.World.{Env, World, answer, run}
use alertme.Pager.{
  max_final_delay, max_duration, try_each, record_attempt, unless_settled, transitions, prune,
  push_to, with_sender, notify, enqueue_next, after_record, after_notify, with_devices,
  after_expire, failure, expire, nag, on_active, handle_page, loaded, handle_record,
}

-- All that comes before step 7 enqueues nothing.
unless_settled-IsIdle :
    (r : Result ⊤) (m : Prog (Result ⊤)) → Calls IsIdle m → Calls IsIdle (unless_settled r m)
unless_settled-IsIdle (ok _) m h = stops _
unless_settled-IsIdle (err conflict) m h = h
unless_settled-IsIdle (err not_found) m h = stops _
unless_settled-IsIdle (err other) m h = stops _

try_each-IsIdle :
    (id : String) (attempt : ℤ) (ts : List (List PageState × PageState))
    → Calls IsIdle (try_each id attempt ts)
unfolding try_each
try_each-IsIdle id attempt [] = stops _
try_each-IsIdle id attempt ((from, to) ∷ ts) =
    calls _ _ tt (λ r. unless_settled-IsIdle r _ (try_each-IsIdle id attempt ts))

prune-IsIdle : (o : SendResult) (d : Device) → Calls IsIdle (prune o d)
unfolding prune
prune-IsIdle sent d = stops _
prune-IsIdle failed d = stops _
prune-IsIdle token_gone d =
    calls _ _ tt (λ can. Calls-if can (calls _ _ tt (λ r. stops _)) (stops _))

push_to-IsIdle : (ds : List Device) (n : Notification) → Calls IsIdle (push_to ds n)
unfolding push_to
push_to-IsIdle [] n = stops _
push_to-IsIdle (d ∷ ds) n =
    calls _ _ tt (λ o. Calls-bind _ (prune-IsIdle o d) (λ _. push_to-IsIdle ds n))

with_sender-IsIdle :
    (ds : List Device) (n : Notification) (r : Result ⊤) → Calls IsIdle (with_sender ds n r)
with_sender-IsIdle ds n (ok _) = Calls-bind _ (push_to-IsIdle ds n) (λ _. stops _)
with_sender-IsIdle ds n (err e) = stops _

notify-IsIdle :
    (task : PageTask) (page : Page) (at : Time) (ds : List Device)
    → Calls IsIdle (notify task page at ds)
unfolding notify
notify-IsIdle task page at [] = calls _ _ tt (λ r. stops _)
notify-IsIdle task page at (d ∷ ds) =
    calls _ _ tt (λ u. calls _ _ tt (λ sender. with_sender-IsIdle (d ∷ ds) _ sender))

-- The next attempt of a page.
abbrev pub successor : PageTask → String → PageTask
successor task id = record { page_id = id; attempt = add_one task.attempt }

module _ (task : PageTask) (page : Page) (at : Time) where
  enqueue_next-Ends : Ends (successor task page.id) (enqueue_next task page at)
  unfolding enqueue_next
  enqueue_next-Ends = Ends-if _ _ (enqueues _ (next_delay_bounds (add_one task.attempt)).1) (
      Ends-if _ _
        (enqueues (min (min (page.expires_at - at) max_duration) max_final_delay) (omega arith))
        (ends _))

  after_record-Ends : (r : Result ⊤) → Ends (successor task page.id) (after_record task page at r)
  unfolding ◌>>=◌
  after_record-Ends (err e) = ends _
  after_record-Ends (ok _) = goes_on _ _ tt (λ r. enqueue_next-Ends)

  after_notify-Ends : (r : Result ⊤) → Ends (successor task page.id) (after_notify task page at r)
  unfolding record_attempt
  after_notify-Ends (err e) = ends _
  after_notify-Ends (ok _) =
      Ends-after _ _ (try_each-IsIdle page.id task.attempt transitions) after_record-Ends

  with_devices-Ends :
      (r : Result (List Device)) → Ends (successor task page.id) (with_devices task page at r)
  with_devices-Ends (err e) = ends _
  with_devices-Ends (ok ds) = Ends-after _ _ (notify-IsIdle task page at ds) after_notify-Ends

  after_expire-Ends : (o : Option Err) → Ends (successor task page.id) (after_expire page at o)
  unfolding ◌>>=◌
  after_expire-Ends (some e) = ends _
  after_expire-Ends none = goes_on _ _ tt (λ r. ends _)

  on_active-Ends : Ends (successor task page.id) (on_active task page at)
  unfolding on_active expire nag ◌>>=◌
  on_active-Ends =
      Ends-if _ _ (goes_on _ _ tt (λ r. after_expire-Ends (failure r)))
        (Ends-if _ _ (ends _) (goes_on _ _ tt with_devices-Ends))

handle_page-Ends :
    (task : PageTask) (page : Page) → Ends (successor task page.id) (handle_page task page)
unfolding handle_page ◌>>=◌
handle_page-Ends task page = Ends-if _ _ (ends _) (goes_on _ _ tt (on_active-Ends task page))

loaded-Ends :
    (task : PageTask) (r : Result Page)
    → ((p : Page) → r ≡ ok p → p.id ≡ task.page_id)
    → Ends (successor task task.page_id) (loaded task r)
loaded-Ends task (err not_found) h = ends _
loaded-Ends task (err conflict) h = ends _
loaded-Ends task (err other) h = ends _
loaded-Ends task (ok page) h =
    subst (λ id. Ends (successor task id) (handle_page task page)) (h page refl)
      (handle_page-Ends task page)

read-filed :
    (env : Env) (task : PageTask) (w : World)
    → IsWellFormed w.store
    → (p : Page) → (answer env (on_store (Store.get_page task.page_id)) w).0 ≡ ok p
    → p.id ≡ task.page_id
unfolding answer exec get_page
read-filed env task w h p e = h.filed task.page_id p (ground arith)

-- `int32(delay / time.Second)`, rounded down.
delay_seconds_le : (d : ℕ) → d ≤ 900 * second → delay_seconds d ≤ 900
unfolding delay_seconds
delay_seconds_le d h = omega arith

-- In a well-formed store the handling of any task enqueues one task at most, whatever calls fail: the
-- next attempt of the same page, with a delay of at most fifteen minutes, which is at most the 900
-- seconds that SQS takes. Nothing else changes in the queue.
pub one_task_at_most :
    (env : Env) (task : PageTask) (w : World)
    → IsWellFormed w.store
    → let tasks = (run env (handle_record (some task)) w).1.tasks in
      (tasks ≡ w.tasks)
      ⊎ ((d : ℕ) × (d ≤ 15 * minute)
          × (delay_seconds d ≤ 900)
          × (tasks ≡ w.tasks ++ record { task = successor task task.page_id; delay = d } ∷ []))
unfolding handle_record run answer ◌>>=◌
one_task_at_most env task w h =
    let (r, w') = answer env (on_store (Store.get_page task.page_id)) w in
    elim (run-OneMore env (successor task task.page_id)
      (loaded-Ends task r (read-filed env task w h)) w') [
        | inl same ↦ inl same
        | inr (d, short, more) ↦ inr (d, omega arith, delay_seconds_le d short, more)
      ]
