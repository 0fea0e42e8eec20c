-- ===== src/Api/Receipts/Acks.antt =====
-- How POST /pages/{id}/ack ends.
use alertme.Prelude.{
  suc, String, ◌≡◌, ◌≢◌, ◌⊎◌, refl, true, some, [], ◌∷◌, ◌++◌, lookup, insert, lookup-insert_self,
  arith, eq_iff, eq_refl, ne-eq_false, Option-cases, inl, inr,
}
use alertme.Model.{Time, acked, Page, is_active}
use alertme.Model.Lifecycle.{state_eq_iff}
use alertme.Store.Exec.{exec}
use alertme.Store.Fake.{row, ack, get_page, ack_page, append_event}
use alertme.Store.Fake.Timeline.{row-insert}
use alertme.Prog.{◌>>=◌}
use alertme.World.{Env, World, IsUntouched, up, answer, run}
use alertme.World.Run.{HasStore}
use alertme.Api.Identity.{Identity}
use alertme.Api.Response.{Response, respond, text, map_store_err}
use alertme.Api.Response
use alertme.Api.Receipts.{handle_ack_page, acknowledged}

-- Only the recipient acknowledges: for any other caller nothing is stored, enqueued or pushed,
-- whatever fails, and the answer is 404, or 500 where the page could not be read.
pub only_recipient_acks :
    (env : Env) (caller : Identity) (id note : String) (w : World)
    → ((p : Page) → lookup id w.store.pages ≡ some p → p.recipient_id ≢ caller.user_id)
    → let (r, w') = run env (handle_ack_page (some caller) id note) w in
      IsUntouched w w' × ((r.status ≡ 404) ⊎ ((env.store_fault w.calls ≢ up) × (r.status ≡ 500)))
unfolding handle_ack_page run answer exec get_page map_store_err ◌>>=◌
only_recipient_acks env caller id note w other = elim (Option-cases (lookup id w.store.pages)) [
  | inl missing ↦ ground arith
  | inr (p, here) ↦
      let no = ne-eq_false p.recipient_id caller.user_id (other p here) in ground arith
]

-- The page after an acknowledgement, and the world.
abbrev pub now_acked : String → Time → Page → Page
now_acked note at p = record p { state = acked; acked_at = some at; ack_note = note }

after_ack_world : String → String → Page → Time → World → World
after_ack_world id note p at w = record w {
  store =
      (append_event (record { page_id = id; kind = "acked"; detail = note; at = at })
        (record w.store { pages = insert id (now_acked note at p) w.store.pages })).1;
  calls = suc (suc (suc (suc w.calls)));
}

ack-run :
    (env : Env) (caller : Identity) (id note : String) (p : Page) (w : World)
    → HasStore env
    → lookup id w.store.pages ≡ some p
    → p.recipient_id ≡ caller.user_id
    → is_active p.state ≡ true
    → run env (handle_ack_page (some caller) id note) w ≡ (
      respond 200 (Response.page (now_acked note (env.reading (suc w.calls)) p)),
      after_ack_world id note p (env.reading (suc w.calls)) w,
    )
unfolding handle_ack_page run answer exec get_page ack_page append_event after_ack_world
    acknowledged ack ◌>>=◌
ack-run env caller id note p w s here is_mine live = ground (
  arith,
  s.store_up w.calls,
  s.store_up (suc (suc w.calls)),
  s.store_up (suc (suc (suc w.calls))),
  (eq_iff p.recipient_id caller.user_id).1 is_mine,
)

-- The recipient's acknowledgement of an active page, with no call of the store failing, is answered
-- 200 with the page as it is stored from then on: acked, with the note and the time. The event
-- `acked` is appended with them, and nothing is enqueued or pushed.
pub ack_acknowledges :
    (env : Env) (caller : Identity) (id note : String) (p : Page) (w : World)
    → HasStore env
    → lookup id w.store.pages ≡ some p
    → p.recipient_id ≡ caller.user_id
    → is_active p.state ≡ true
    → let at = env.reading (suc w.calls) in
      let (r, w') = run env (handle_ack_page (some caller) id note) w in
      (r ≡ respond 200 (Response.page (now_acked note at p)))
      × (lookup id w'.store.pages ≡ some (now_acked note at p))
      × (row id w'.store.events
          ≡ row id w.store.events
            ++ record { page_id = id; kind = "acked"; detail = note; at = at } ∷ [])
      × (w'.tasks ≡ w.tasks)
      × (w'.pushes ≡ w.pushes)
unfolding after_ack_world append_event
ack_acknowledges env caller id note p w s here is_mine live =
    rw (ack-run env caller id note p w s here is_mine live) (
      refl,
      lookup-insert_self id (now_acked note (env.reading (suc w.calls)) p) w.store.pages,
      rw (row-insert, eq_refl),
      refl,
      refl,
    )

-- A second acknowledgement, with any note, is answered 200 with the page as the first one left it,
-- its note and its time included, and changes nothing, where no call of the store fails.
pub ack_idempotent :
    (env : Env) (caller : Identity) (id note : String) (p : Page) (w : World)
    → HasStore env
    → lookup id w.store.pages ≡ some p
    → p.recipient_id ≡ caller.user_id
    → p.state ≡ acked
    → let (r, w') = run env (handle_ack_page (some caller) id note) w in
      (r ≡ respond 200 (Response.page p)) × IsUntouched w w'
unfolding handle_ack_page run answer exec get_page ack_page is_active ◌>>=◌
ack_idempotent env caller id note p w s here is_mine done = ground (
  arith,
  s.store_up w.calls,
  s.store_up (suc (suc w.calls)),
  s.store_up (suc (suc (suc w.calls))),
  (eq_iff p.recipient_id caller.user_id).1 is_mine,
  (state_eq_iff p.state acked).1 done,
)
