-- ===== src/Pager/Due.antt =====
-- A task that is due: its page is stored, active and unexpired, and the attempt has not been made.
use mathlib.Core.List.{append-nil}
use alertme.Prelude.{
  ℕ, suc, ◌-◌, ⊤, ◌≡◌, refl, sym, ◌∙◌, ap, subst, true, false, some, List, [], ◌∷◌, ◌++◌, lookup,
  insert, values, ltb, min, if◌then◌else◌, arith, Bool-cases, inl, inr,
}
use alertme.Int.{add_one, leb_ℤ}
use alertme.Model.{Time, Device, Page, is_active}
use alertme.Nag.{next_delay}
use alertme.Store.{Result, ok, err}
use alertme.Store
use alertme.Store.Exec.{exec}
use alertme.Store.Fake.{row, moved, get_page, list_devices, append_event}
use alertme.Queue.{PageTask}
use alertme.Prog.{◌>>=◌}
use alertme.World.{Env, World, EnqueuedTask, answer, run}
use alertme.World.Run.{run-bind, run-ask, HasStore, IsSteady, IsSteady-HasStore, stored}
use alertme.World.Quiet.{run-SameWork}
use alertme.Pager.{
  max_duration, max_final_delay, handle_record, handle_page, on_active, nag, notify, after_notify,
  after_record, with_devices, enqueue_next, record_attempt, event,
}
use alertme.Pager.Pushing.{HasSender, addressed, notification, notify-run, notify-IsQuiet}
use alertme.Pager.Attempts.{attempted, with_attempt, record_attempt-run}

-- The page of a task at the start of a handling, whose clock reads `at` after the page is loaded.
pub record IsDue (env : Env) (task : PageTask) (page : Page) (w : World) : Type 0 where
  pub stored : lookup task.page_id w.store.pages ≡ some page
  pub filed : page.id ≡ task.page_id
  pub live : is_active page.state ≡ true
  pub unexpired : ltb page.expires_at (env.reading (suc w.calls)) ≡ false
  pub new_attempt : leb_ℤ task.attempt page.attempt ≡ false

-- The devices of the recipient.
unfoldable pub devices_of : Page → World → List Device
devices_of page w = values (row page.recipient_id w.store.devices)

-- The run comes down to steps 4 and 5.
nag-run :
    (env : Env) (task : PageTask) (page : Page) (w : World)
    → HasStore env
    → IsDue env task page w
    → (n : ℕ) × (run env (handle_record (some task)) w
        ≡ run env
            (with_devices task page (env.reading (suc w.calls)) (ok (devices_of page w)))
            (record w { calls = n }))
unfolding handle_record handle_page on_active nag run answer stored exec get_page list_devices
    devices_of ◌>>=◌
nag-run env task page w s d = (
  suc (suc (suc w.calls)),
  ground (
    arith,
    s.store_up w.calls,
    s.store_up (suc (suc w.calls)),
    d.stored,
    d.live,
    d.unexpired,
    d.new_attempt,
  ),
)

-- What step 7 asks of the queue: the next attempt after the scheduled delay; with the schedule
-- exhausted, a last tick at the expiry, at most fifteen minutes away; and nothing at the expiry.
unfoldable pub next_tasks : PageTask → Page → Time → List EnqueuedTask
next_tasks task page at =
    let next : PageTask = record { page_id = page.id; attempt = add_one task.attempt } in
    if (next_delay (add_one task.attempt)).1
    then record { task = next; delay = (next_delay (add_one task.attempt)).0 } ∷ []
    else if ltb at page.expires_at
    then record {
      task = next;
      delay = min (min (page.expires_at - at) max_duration) max_final_delay;
    }
      ∷ []
    else []

enqueue_next-run :
    (env : Env) (task : PageTask) (page : Page) (at : Time) (w : World)
    → IsSteady env
    → (n : ℕ) × (run env (enqueue_next task page at) w
        ≡ (ok tt, record w { tasks = w.tasks ++ next_tasks task page at; calls = n }))
unfolding enqueue_next next_tasks run answer
enqueue_next-run env task page at w s = elim (Bool-cases (next_delay (add_one task.attempt)).1) [
  | inl more ↦ (suc w.calls, rw (more, s.queue_up w.calls))
  | inr last ↦ elim (Bool-cases (ltb at page.expires_at)) [
    | inl before ↦ (suc w.calls, rw (last, before, s.queue_up w.calls))
    | inr after ↦ (w.calls, rw (last, after, append-nil))
  ]
]

-- Step 6, from a world in which the page still is as it was loaded.
after_notify-run :
    (env : Env) (task : PageTask) (page : Page) (at : Time) (w : World)
    → HasStore env
    → lookup page.id w.store.pages ≡ some page
    → is_active page.state ≡ true
    → (w' : World) × (run env (after_notify task page at (ok tt)) w
        ≡ run env (enqueue_next task page at) w')
      × (w'.store.pages
          ≡ insert page.id (moved (attempted page.state) task.attempt page) w.store.pages)
      × (w'.store.idem ≡ w.store.idem)
      × (w'.pushes ≡ w.pushes)
      × (w'.tasks ≡ w.tasks)
unfolding exec stored append_event ◌>>=◌
after_notify-run env task page at w s here live =
    let (n, noted) =
      record_attempt-run env page.id task.attempt page s page.state w refl live here in
    let w5 : World =
      record (with_attempt page.id (moved (attempted page.state) task.attempt page) w) {
        calls = n;
      } in
    let pushed_at = event page.id "push_attempt" at in
    (
      stored env (Store.append_event pushed_at) w5,
      run-bind env (record_attempt page.id task.attempt) (after_record task page at) w
          ∙ ap (λ (x : Result ⊤ × World). run env (after_record task page at x.0) x.1) noted
          ∙ run-ask env (Store.append_event pushed_at) _ w5 (s.store_up n),
      refl,
      refl,
      refl,
      refl,
    )

-- What a handling of a task that is due leaves behind.
pub record IsNagged (env : Env) (task : PageTask) (page : Page) (v w : World) : Type 0 where
  pub pages :
      w.store.pages ≡ insert page.id (moved (attempted page.state) task.attempt page) v.store.pages
  pub idem : w.store.idem ≡ v.store.idem
  pub pushes : w.pushes ≡ v.pushes ++ addressed (notification task page v) (devices_of page v)
  pub tasks : w.tasks ≡ v.tasks ++ next_tasks task page (env.reading (suc v.calls))

-- A task that is due comes to step 7 with all but that done.
pub due-run :
    (env : Env) (task : PageTask) (page : Page) (w : World)
    → HasStore env
    → HasSender env w
    → IsDue env task page w
    → (w' : World) × (run env (handle_record (some task)) w
        ≡ run env (enqueue_next task page (env.reading (suc w.calls))) w')
      × (w'.store.pages
          ≡ insert page.id (moved (attempted page.state) task.attempt page) w.store.pages)
      × (w'.store.idem ≡ w.store.idem)
      × (w'.pushes ≡ w.pushes ++ addressed (notification task page w) (devices_of page w))
      × (w'.tasks ≡ w.tasks)
unfolding notification
due-run env task page w s h d =
    let at = env.reading (suc w.calls) in
    let devices = devices_of page w in
    let (n, begun) = nag-run env task page w s d in
    let w3 : World = record w { calls = n } in
    let (sent, pushes) =
      notify-run env task page at devices w3 s
        (record { loads = h.loads; not_broken = h.not_broken }) in
    let w4 = (run env (notify task page at devices) w3).1 in
    let same = run-SameWork env (notify-IsQuiet task page at devices) w3 in
    let here : lookup page.id w4.store.pages ≡ some page =
      ap (λ m. lookup page.id m) same.pages ∙ ap (λ k. lookup k w.store.pages) d.filed ∙ d.stored in
    let (w', ended, pages, idem, quiet, queue) =
      after_notify-run env task page at w4 s here d.live in
    (
      w',
      begun
          ∙ run-bind env (notify task page at devices) (after_notify task page at) w3
          ∙ ap (λ r. run env (after_notify task page at r) w4) sent
          ∙ ended,
      pages ∙ ap (insert page.id (moved (attempted page.state) task.attempt page)) same.pages,
      idem ∙ same.idem,
      quiet ∙ pushes,
      queue ∙ same.tasks,
    )

-- A task that is due, where no call of the store or the queue fails and the push client can be
-- had, is handled without an error. The page then has the attempt's number, in state `pushed` if
-- it was `created` and else in the state that it had, and nothing else of it or of any other page
-- has changed; each device of the recipient has been sent the notification exactly once, however
-- the pushes ended; and the queue has one more task at most: the next attempt of the same page, as
-- the schedule or the expiry has it.
pub due_task_nags :
    (env : Env) (task : PageTask) (page : Page) (w : World)
    → IsSteady env
    → HasSender env w
    → IsDue env task page w
    → ((run env (handle_record (some task)) w).0 ≡ ok tt)
      × IsNagged env task page w (run env (handle_record (some task)) w).1
due_task_nags env task page w s h d =
    let at = env.reading (suc w.calls) in
    let (w', begun, pages, idem, pushes, queue) =
      due-run env task page w (IsSteady-HasStore s) h d in
    let (n, queued) = enqueue_next-run env task page at w' s in
    subst (λ r. (r.0 ≡ ok tt) × IsNagged env task page w r.1) (sym (begun ∙ queued))
      (
        refl,
        record {
          pages = pages;
          idem = idem;
          pushes = pushes;
          tasks = ap (λ l. l ++ next_tasks task page at) queue;
        },
      )
