-- ===== src/Tests/Pager.antt =====
-- The pager at work on one page.
use alertme.Prelude.{
  ℕ, suc, ◌≡◌, ◌≢◌, ◌⊎◌, refl, some, [], ◌∷◌, ◌++◌, ◌+◌, ◌*◌, ◌≤◌, none, arith, insert, lookup,
}
use alertme.Prelude.{String, eq_iff}
use alertme.Store.Fake.Invariant.{IsWellFormed}
use alertme.Pager.Poison.{no_message_poisons}
use alertme.Int.{pos, add_one}
use alertme.Model.{Page, pushed, delivered, expired, is_active}
use alertme.Nag.{minute, second, expiry, next_delay}
use alertme.Nag.Schedule.{fires_at, next_delay_bounds, schedule_outlasts_page}
use alertme.Store.{ok, err, other}
use alertme.Store.Fake.{row, moved}
use alertme.Push.{Notification}
use alertme.Prog.Calls.{Calls, ObeysCall}
use alertme.World.{Env, IsUntouched, up, request_lost, run}
use alertme.World.Run.{HasStore, LosesQueue}
use alertme.Pager.{handle_record, handle_batch, push_to}
use alertme.Pager.Contract.{handle_batch-Calls}
use alertme.Pager.Pushing.{HasSender, addressed, push_to-pushes}
use alertme.Pager.Due.{IsDue, IsNagged, due_task_nags}
use alertme.Pager.Drops.{
  IsOverdue, repeated, stale_task_dropped, redelivery_dropped, overdue_page_expires,
}
use alertme.Pager.Lost.{lost_enqueue_ends_chain}
use alertme.World.Run.{IsSteady-HasStore}
use alertme.Tests.{env, env-IsSteady, device, page, world_with, task}

start-HasSender : HasSender env (world_with page)
start-HasSender = record { loads = λ n. refl; not_broken = λ e. cc }

start-IsDue : IsDue env task page (world_with page)
unfolding lookup is_active
start-IsDue = record {
  stored = refl;
  filed = refl;
  live = refl;
  unexpired = refl;
  new_attempt = refl;
}

due_task_nags_example :
    ((run env (handle_record (some task)) (world_with page)).0 ≡ ok tt)
    × IsNagged env task page
        (world_with page)
        (run env (handle_record (some task)) (world_with page)).1
due_task_nags_example =
    due_task_nags env task page (world_with page) env-IsSteady start-HasSender start-IsDue

-- The same task once more.
redelivery_dropped_example :
    IsUntouched
      (run env (handle_record (some task)) (world_with page)).1
      (run env
        (handle_record (some task))
        (run env (handle_record (some task)) (world_with page)).1).1
redelivery_dropped_example =
    redelivery_dropped env task page (world_with page) env-IsSteady start-HasSender start-IsDue refl

-- The queue is away.
abbrev no_queue : Env
no_queue = record env { queue_fault = λ n. request_lost }

no_queue-HasStore : HasStore no_queue
no_queue-HasStore = record { store_up = λ n. refl }

no_queue-LosesQueue : LosesQueue no_queue
no_queue-LosesQueue = record { queue_lost = λ n. refl }

no_queue-HasSender : HasSender no_queue (world_with page)
no_queue-HasSender = record { loads = λ n. refl; not_broken = λ e. cc }

no_queue-IsDue : IsDue no_queue task page (world_with page)
unfolding lookup is_active
no_queue-IsDue = record {
  stored = refl;
  filed = refl;
  live = refl;
  unexpired = refl;
  new_attempt = refl;
}

lost_enqueue_ends_chain_example :
    ((run no_queue (handle_record (some task)) (world_with page)).0 ≡ err other)
    × ((run no_queue (handle_record (some task)) (world_with page)).1.tasks ≡ [])
    × IsUntouched
        (run no_queue (handle_record (some task)) (world_with page)).1
        (run env
          (handle_record (some task))
          (run no_queue (handle_record (some task)) (world_with page)).1).1
unfolding next_delay add_one
lost_enqueue_ends_chain_example =
    lost_enqueue_ends_chain no_queue env task page (world_with page) no_queue-HasStore
      no_queue-LosesQueue no_queue-HasSender no_queue-IsDue refl refl

-- The page after attempt 0, and a task of that attempt.
abbrev attempted_once : Page
attempted_once = moved pushed (pos 0) page

stale_task_dropped_example :
    IsUntouched
      (world_with attempted_once)
      (run env (handle_record (some task)) (world_with attempted_once)).1
    × ((env.store_fault 0 ≢ up)
        ⊎ ((run env (handle_record (some task)) (world_with attempted_once)).0 ≡ ok tt))
unfolding lookup moved
stale_task_dropped_example =
    stale_task_dropped env task (world_with attempted_once) (repeated attempted_once refl refl refl)

-- A page that expired before the clock's first reading.
abbrev late_page : Page
late_page = record page { expires_at = 1; state = delivered; attempt = pos 3 }

late-IsOverdue : IsOverdue env task late_page (world_with late_page)
unfolding lookup is_active
late-IsOverdue = record { stored = refl; filed = refl; live = refl; late = refl }

overdue_page_expires_example :
    ((run env (handle_record (some task)) (world_with late_page)).0 ≡ ok tt)
    × ((run env (handle_record (some task)) (world_with late_page)).1.store.pages
        ≡ insert "p1" (record late_page { state = expired }) (world_with late_page).store.pages)
    × (row "p1" (run env (handle_record (some task)) (world_with late_page)).1.store.events
        ≡ row "p1" [] ++ record { page_id = "p1"; kind = "expired"; detail = ""; at = minute } ∷ [])
    × ((run env (handle_record (some task)) (world_with late_page)).1.pushes ≡ [])
    × ((run env (handle_record (some task)) (world_with late_page)).1.tasks ≡ [])
overdue_page_expires_example =
    overdue_page_expires env task late_page (world_with late_page) (IsSteady-HasStore env-IsSteady)
      late-IsOverdue

abbrev alarm : Notification
alarm = record { page_id = "p1"; attempt = pos 0; sender_name = "Alice" }

push_to-pushes_example :
    (run env
      (push_to (device ∷ record device { token = "token-2" } ∷ []) alarm)
      (world_with page)).1.pushes
    ≡ [] ++ addressed alarm (device ∷ record device { token = "token-2" } ∷ [])
push_to-pushes_example =
    push_to-pushes env (device ∷ record device { token = "token-2" } ∷ []) alarm (world_with page)

handle_batch-Calls_example :
    Calls ObeysCall (handle_batch (("m1", some task) ∷ ("m2", none) ∷ ("m3", some task) ∷ []))
handle_batch-Calls_example =
    handle_batch-Calls (("m1", some task) ∷ ("m2", none) ∷ ("m3", some task) ∷ [])

next_delay_bounds_example :
    ((next_delay (pos 5)).0 ≤ 5 * minute) × ((next_delay (pos 5)).0 ≤ 900 * second)
next_delay_bounds_example = next_delay_bounds (pos 5)

on_time-begins : 7 ≤ 7 + fires_at 0
on_time-begins = omega arith

on_time-waits : (n : ℕ) → 7 + fires_at n + (next_delay (pos (suc n))).0 ≤ 7 + fires_at (suc n)
unfolding fires_at
on_time-waits n = omega arith

-- Attempts that fire exactly when they are scheduled.
schedule_outlasts_page_example : 7 + expiry + 4 * minute ≤ 7 + fires_at 10
unfolding next_delay
schedule_outlasts_page_example =
    schedule_outlasts_page 7 (λ n. 7 + fires_at n) on_time-begins on_time-waits 10 refl

page-filed :
    (id : String) (p : Page)
    → lookup id (world_with page).store.pages ≡ some p
    → (id ≡ "p1") × (p ≡ page)
unfolding lookup
page-filed id p h = ground (arith, eq_iff "p1" id)

key-filed :
    (key id : String)
    → lookup key (world_with page).store.idem ≡ some id
    → (key ≡ "key-1") × (id ≡ "p1")
unfolding lookup
key-filed key id h = ground (arith, eq_iff "key-1" key)

start-IsWellFormed : IsWellFormed (world_with page).store
unfolding lookup
start-IsWellFormed = record {
  filed = λ id p h. let (a, b) = page-filed id p h in rw (a, b) refl;
  keyed = λ id p h. let (a, b) = page-filed id p h in rw (a, b) refl;
  guarded = λ key id h. let (a, b) = key-filed key id h in (page, rw b refl, rw a refl);
  acks = λ id p h. let (a, b) = page-filed id p h in rw b (λ e. cc, λ e. refl);
}

no_message_poisons_example :
    (run env
      (handle_batch (("m1", some task) ∷ ("m2", none) ∷ ("m3", some task) ∷ []))
      (world_with page)).0
    ≡ []
no_message_poisons_example =
    no_message_poisons env (("m1", some task) ∷ ("m2", none) ∷ ("m3", some task) ∷ [])
      (world_with page) env-IsSteady start-HasSender start-IsWellFormed
