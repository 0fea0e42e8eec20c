-- ===== src/Pager/Drops.antt =====
-- Tasks that need nothing more: their page is gone, final, or already has the attempt; and the task
-- that finds its page expired.
use alertme.Prelude.{
  suc, ◌≡◌, ◌≢◌, refl, ◌∙◌, ap, subst, ◌⊎◌, true, false, none, some, [], ◌∷◌, ◌++◌, lookup, insert,
  lookup-insert_self, ltb, arith, eq_refl,
}
use alertme.Int.{ℤ, leb_ℤ}
use alertme.Model.{
  Time, PageState, created, pushed, delivered, seen, acked, expired, cancelled, state_eq, Page,
  is_active,
}
use alertme.Store.{ok}
use alertme.Store.Exec.{exec}
use alertme.Store.Fake.{row, moved, allowed, get_page, set_page_state, append_event}
use alertme.Store.Fake.Timeline.{row-insert}
use alertme.Queue.{PageTask}
use alertme.Prog.{◌>>=◌}
use alertme.World.{Env, World, IsUntouched, up, answer, run}
use alertme.World.Run.{IsSteady, HasStore}
use alertme.Pager.{handle_record, handle_page, on_active, expire, active_states}
use alertme.Pager.Attempts.{attempted}
use alertme.Pager.Pushing.{HasSender}
use alertme.Pager.Due.{IsDue, due_task_nags}

-- The task's page is not stored; or it is in a final state; or it has not expired by the clock's
-- reading and has an attempt number at least as high.
pub data IsStale (env : Env) (task : PageTask) (w : World) : Type 0 where
  gone : lookup task.page_id w.store.pages ≡ none → IsStale env task w
  final :
      (page : Page)
      → lookup task.page_id w.store.pages ≡ some page
      → is_active page.state ≡ false
      → IsStale env task w
  repeated :
      (page : Page)
      → lookup task.page_id w.store.pages ≡ some page
      → ltb page.expires_at (env.reading (suc w.calls)) ≡ false
      → leb_ℤ task.attempt page.attempt ≡ true
      → IsStale env task w

-- A task is stale if its page is not stored, or is in a final state, or is unexpired and has an
-- attempt number at least as high. Its handling stores, enqueues and pushes nothing, whatever
-- fails, and ends without an error, so that SQS does not deliver the task again, unless the page
-- could not be read.
pub stale_task_dropped :
    (env : Env) (task : PageTask) (w : World)
    → IsStale env task w
    → IsUntouched w (run env (handle_record (some task)) w).1
      × ((env.store_fault w.calls ≢ up) ⊎ ((run env (handle_record (some task)) w).0 ≡ ok tt))
unfolding handle_record handle_page on_active run answer exec get_page ◌>>=◌
stale_task_dropped env task w (gone e) = ground arith
stale_task_dropped env task w (final page e f) = ground arith
stale_task_dropped env task w (repeated page e f g) = ground arith

pub leb_ℤ-refl : (a : ℤ) → leb_ℤ a a ≡ true
leb_ℤ-refl a = ground arith

-- SQS delivers at least once: a task that was due and has been handled with no call of the store
-- or the queue failing, is dropped when it is delivered once more before the page's expiry. Its
-- second handling stores, enqueues and pushes nothing.
pub redelivery_dropped :
    (env : Env) (task : PageTask) (page : Page) (w : World)
    → IsSteady env
    → HasSender env w
    → IsDue env task page w
    → ltb page.expires_at (env.reading (suc (run env (handle_record (some task)) w).1.calls))
      ≡ false
    → let w' = (run env (handle_record (some task)) w).1 in
      IsUntouched w' (run env (handle_record (some task)) w').1
redelivery_dropped env task page w s h d early =
    let w' = (run env (handle_record (some task)) w).1 in
    let nagged = (due_task_nags env task page w s h d).1 in
    let page' = moved (attempted page.state) task.attempt page in
    let found : lookup task.page_id w'.store.pages ≡ some page' =
      ap (λ m. lookup task.page_id m) nagged.pages
      ∙ subst (λ k. lookup k (insert page.id page' w.store.pages) ≡ some page') d.filed
          (lookup-insert_self page.id page' w.store.pages) in
    (stale_task_dropped env task w'
      (repeated page' found (unfold moved in early) (unfold moved in leb_ℤ-refl task.attempt))).0

active-allowed : (st : PageState) → is_active st ≡ true → allowed st active_states ≡ true
unfolding is_active allowed state_eq
active-allowed created h = refl
active-allowed pushed h = refl
active-allowed delivered h = refl
active-allowed seen h = refl
active-allowed acked h = cc
active-allowed expired h = cc
active-allowed cancelled h = cc

-- A page that a task finds active past its expiry.
pub record IsOverdue (env : Env) (task : PageTask) (page : Page) (w : World) : Type 0 where
  pub stored : lookup task.page_id w.store.pages ≡ some page
  pub filed : page.id ≡ task.page_id
  pub live : is_active page.state ≡ true
  pub late : ltb page.expires_at (env.reading (suc w.calls)) ≡ true

-- The world when the expiry has been stored and its event appended.
with_expiry : Page → Time → World → World
with_expiry page at w = record w {
  store =
      (append_event (record { page_id = page.id; kind = "expired"; detail = ""; at = at })
        (record w.store {
          pages = insert page.id (record page { state = expired }) w.store.pages;
        })).1;
  calls = suc (suc (suc (suc w.calls)));
}

overdue-run :
    (env : Env) (task : PageTask) (page : Page) (w : World)
    → HasStore env
    → IsOverdue env task page w
    → run env (handle_record (some task)) w
      ≡ (ok tt, with_expiry page (env.reading (suc w.calls)) w)
unfolding handle_record handle_page on_active expire run answer exec get_page set_page_state
    append_event with_expiry moved ◌>>=◌
overdue-run env task page w s d = ground (
  arith,
  s.store_up w.calls,
  s.store_up (suc (suc w.calls)),
  s.store_up (suc (suc (suc w.calls))),
  d.stored,
  d.live,
  d.late,
  active-allowed page.state d.live,
  ap (λ k. lookup k w.store.pages) d.filed,
)

-- With no call of the store failing, any task of an active page past its expiry, whatever its
-- attempt number, moves the page to `expired` with its attempt number kept, appends the event, and
-- ends the chain: nothing is pushed and nothing enqueued.
pub overdue_page_expires :
    (env : Env) (task : PageTask) (page : Page) (w : World)
    → HasStore env
    → IsOverdue env task page w
    → let at = env.reading (suc w.calls) in
      let (r, w') = run env (handle_record (some task)) w in
      (r ≡ ok tt)
      × (w'.store.pages ≡ insert page.id (record page { state = expired }) w.store.pages)
      × (row page.id w'.store.events
          ≡ row page.id w.store.events
            ++ record { page_id = page.id; kind = "expired"; detail = ""; at = at } ∷ [])
      × (w'.pushes ≡ w.pushes)
      × (w'.tasks ≡ w.tasks)
unfolding with_expiry append_event
overdue_page_expires env task page w s d =
    rw (overdue-run env task page w s d) (refl, refl, rw (row-insert, eq_refl), refl, refl)
