-- ===== src/Pager/Lost.antt =====
-- A task that is due, when the queue does not take the next one. Step 6 has recorded the attempt by
-- then, and SQS delivers the failed task once more.
use alertme.Prelude.{
  suc, ◌≡◌, ◌∙◌, ap, subst, true, false, some, ltb, lookup, insert, lookup-insert_self, ⊤,
}
use alertme.Int.{add_one}
use alertme.Model.{Time, Page}
use alertme.Nag.{next_delay}
use alertme.Store.{Result, err, other}
use alertme.Store.Fake.{moved}
use alertme.Queue.{PageTask}
use alertme.World.{Env, World, IsUntouched, answer, run}
use alertme.World.Run.{HasStore, LosesQueue}
use alertme.Pager.{handle_record, enqueue_next}
use alertme.Pager.Attempts.{attempted}
use alertme.Pager.Pushing.{HasSender}
use alertme.Pager.Due.{IsDue, due-run}
use alertme.Pager.Drops.{repeated, stale_task_dropped, leb_ℤ-refl}

enqueue_next-lost :
    (env : Env) (task : PageTask) (page : Page) (at : Time) (w : World)
    → LosesQueue env
    → (next_delay (add_one task.attempt)).1 ≡ true
    → run env (enqueue_next task page at) w ≡ (err other, record w { calls = suc w.calls })
unfolding enqueue_next run answer
enqueue_next-lost env task page at w q more = rw (more, q.queue_lost w.calls)

-- A task that is due and has a successor in the schedule, handled while no request reaches the
-- queue and all else works, ends with an error, and nothing is enqueued. But its attempt is
-- recorded, so the task is dropped as a duplicate when it is delivered once more before the page's
-- expiry, with the queue back at work: that handling stores, pushes and enqueues nothing, and the
-- page is left without a next task.
pub lost_enqueue_ends_chain :
    (env env' : Env) (task : PageTask) (page : Page) (w : World)
    → HasStore env
    → LosesQueue env
    → HasSender env w
    → IsDue env task page w
    → (next_delay (add_one task.attempt)).1 ≡ true
    → ltb page.expires_at (env'.reading (suc (run env (handle_record (some task)) w).1.calls))
      ≡ false
    → let (r, w') = run env (handle_record (some task)) w in
      (r ≡ err other)
      × (w'.tasks ≡ w.tasks)
      × IsUntouched w' (run env' (handle_record (some task)) w').1
lost_enqueue_ends_chain env env' task page w s q h d more early =
    let at = env.reading (suc w.calls) in
    let (w6, begun, pages, idem, pushes, queue) = due-run env task page w s h d in
    let whole = begun ∙ enqueue_next-lost env task page at w6 q more in
    let w' = (run env (handle_record (some task)) w).1 in
    let page' = moved (attempted page.state) task.attempt page in
    let found : lookup task.page_id w'.store.pages ≡ some page' =
      ap (λ (x : Result ⊤ × World). lookup task.page_id x.1.store.pages) whole
      ∙ ap (λ m. lookup task.page_id m) pages
      ∙ subst (λ k. lookup k (insert page.id page' w.store.pages) ≡ some page') d.filed
          (lookup-insert_self page.id page' w.store.pages) in
    (
      ap (λ (x : Result ⊤ × World). x.0) whole,
      ap (λ (x : Result ⊤ × World). x.1.tasks) whole ∙ queue,
      (stale_task_dropped env' task w' (
          repeated page' found (unfold moved in early)
            (unfold moved in leb_ℤ-refl task.attempt))).0,
    )
