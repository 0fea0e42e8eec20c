-- ===== src/Pager/Poison.antt =====
-- No message comes back: what a batch reports when nothing that the pager calls fails.
use alertme.Prelude.{
  ℕ, suc, String, ◌≡◌, ◌≢◌, refl, true, Option, some, none, List, [], ◌∷◌, lookup, ltb, inl, inr,
  Option-cases, Bool-cases,
}
use alertme.Int.{leb_ℤ}
use alertme.Model.{is_active}
use alertme.Store.{ok}
use alertme.Store.Fake.Invariant.{IsWellFormed, exec-IsWellFormed}
use alertme.Queue.{PageTask}
use alertme.Prog.{
  Call, on_store, has_capability, enqueue, get_sender, send, now, random_id, random_invite_code,
}
use alertme.Prog.Calls.{ObeysCall}
use alertme.World.{Env, World, SenderCell, unset, ready, broken, sender_cell, answer, run}
use alertme.World.Run.{run-bind, run-keeps, IsSteady, IsSteady-HasStore}
use alertme.System.Stores.{answer-keeps}
use alertme.Pager.{handle_record, handle_batch}
use alertme.Pager.Contract.{handle_record-Calls}
use alertme.Pager.Pushing.{HasSender}
use alertme.Pager.Due.{due_task_nags}
use alertme.Pager.Drops.{IsStale, gone, final, repeated, stale_task_dropped, overdue_page_expires}

stale-ok :
    (env : Env) (task : PageTask) (w : World)
    → IsSteady env
    → IsStale env task w
    → (run env (handle_record (some task)) w).0 ≡ ok tt
stale-ok env task w s h = elim (stale_task_dropped env task w h).1 [
  | inl down ↦ absurd (down (s.store_up w.calls))
  | inr done ↦ done
]

handle_record-ok :
    (env : Env) (body : Option PageTask) (w : World)
    → IsSteady env
    → HasSender env w
    → IsWellFormed w.store
    → (run env (handle_record body) w).0 ≡ ok tt
handle_record-ok env none w s h f = unfold handle_record run in refl
handle_record-ok env (some task) w s h f = elim (Option-cases (lookup task.page_id w.store.pages)) [
  | inl missing ↦ stale-ok env task w s (gone missing)
  | inr (page, here) ↦ elim (Bool-cases (is_active page.state)) [
    | inr over ↦ stale-ok env task w s (final page here over)
    | inl live ↦ elim (Bool-cases (ltb page.expires_at (env.reading (suc w.calls)))) [
      | inl late ↦
          (overdue_page_expires env task page w (IsSteady-HasStore s) (record {
            stored = here;
            filed = f.filed task.page_id page here;
            live = live;
            late = late;
          })).0
      | inr early ↦ elim (Bool-cases (leb_ℤ task.attempt page.attempt)) [
        | inl old ↦ stale-ok env task w s (repeated page here early old)
        | inr new ↦
            (due_task_nags env task page w s h (record {
              stored = here;
              filed = f.filed task.page_id page here;
              live = live;
              unexpired = early;
              new_attempt = new;
            })).0
      ]
    ]
  ]
]

sender_cell-kept : (cell : SenderCell) → cell ≢ broken → (sender_cell true cell).1 ≢ broken
unfolding sender_cell
sender_cell-kept unset h e = cc
sender_cell-kept ready h e = cc
sender_cell-kept broken h e = h refl

-- What lets the next message of a batch be handled as well.
pub record IsFit (env : Env) (w : World) : Type 0 where
  pub sender : w.sender ≢ broken
  pub store : IsWellFormed w.store

answer-sender :
    (env : Env) (c : Call) (w : World)
    → ((n : ℕ) → env.sender_loads n ≡ true)
    → w.sender ≢ broken
    → (answer env c w).1.sender ≢ broken
unfolding answer
answer-sender env (on_store c) w loads h = h
answer-sender env (has_capability c) w loads h = h
answer-sender env (enqueue t d) w loads h = h
answer-sender env get_sender w loads h = rw (loads w.calls) (sender_cell-kept w.sender h)
answer-sender env (send d m) w loads h = h
answer-sender env now w loads h = h
answer-sender env random_id w loads h = h
answer-sender env (random_invite_code k) w loads h = h

answer-IsFit :
    (env : Env) (c : Call) (w : World)
    → ((n : ℕ) → env.sender_loads n ≡ true)
    → ObeysCall c
    → IsFit env w
    → IsFit env (answer env c w).1
answer-IsFit env c w loads o h = record {
  sender = answer-sender env c w loads h.sender;
  store =
      answer-keeps (λ s t. IsWellFormed s → IsWellFormed t) (λ s k. k) (λ s t u i j k. j (i k))
        exec-IsWellFormed env c w o h.store;
}

handle_record-IsFit :
    (env : Env) (body : Option PageTask) (w : World)
    → ((n : ℕ) → env.sender_loads n ≡ true)
    → IsFit env w
    → IsFit env (run env (handle_record body) w).1
handle_record-IsFit env body w loads =
    run-keeps env (λ v w. IsFit env v → IsFit env w) (λ w h. h) (λ u v w a b h. b (a h))
      (λ c w o h. answer-IsFit env c w loads o h) (handle_record-Calls body) w

-- With no call of the store or the queue failing and the push client to be had, a batch on a
-- well-formed store reports no failed message, whatever its messages are (malformed, duplicate, of
-- pages that are unknown, final, overdue or due) and however the pushes end. So SQS delivers none of
-- them again.
pub no_message_poisons :
    (env : Env) (records : List (String × Option PageTask)) (w : World)
    → IsSteady env
    → HasSender env w
    → IsWellFormed w.store
    → (run env (handle_batch records) w).0 ≡ []
unfolding handle_batch
no_message_poisons env [] w s h f = unfold run in refl
no_message_poisons env ((id, body) ∷ records) w s h f =
    let w1 = (run env (handle_record body) w).1 in
    let fit =
      handle_record-IsFit env body w h.loads (record { sender = h.not_broken; store = f }) in
    let rest =
      no_message_poisons env records w1 s (record { loads = h.loads; not_broken = fit.sender })
        fit.store in
    let done = handle_record-ok env body w s h f in
    rw (run-bind, done, run-bind, rest) (unfold run in refl)
