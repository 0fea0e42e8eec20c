-- ===== src/Api/Create/Unscheduled.antt =====
-- POST /pages when the queue does not take the first task: the page is stored by then.
use alertme.Prelude.{suc, ◌≡◌, refl, some, lookup, lookup-insert_self, true, arith}
use alertme.Model.{Page, Pairing, active}
use alertme.Store.Exec.{exec}
use alertme.Store.Fake.{get_pairing, create_page, append_event, created_event}
use alertme.Store.Fake.Creation.{IsNew, with_page}
use alertme.Store.Fake.Pairings.{copy_of}
use alertme.Prog.{idempotent_page_lookup, ◌>>=◌}
use alertme.World.{Env, World, IsUntouched, answer, run}
use alertme.World.Run.{HasStore, LosesQueue}
use alertme.Api.Identity.{Identity}
use alertme.Api.Response.{Response, respond, text}
use alertme.Api.Response
use alertme.Api.Create.{CreateBody, new_page, create_now, create_checked, handle_create_page}
use alertme.Api.Create.Outcomes.{IsAcceptable, made_page, create_page_replayed}

-- The world with the page created and nothing enqueued.
unfoldable pub with_unscheduled : Page → World → World
with_unscheduled p w = record w {
  store = (append_event (created_event p) (with_page p w.store)).1;
  calls = suc (suc (suc (suc (suc w.calls))));
}

unscheduled-run :
    (env : Env) (caller : Identity) (body : CreateBody) (pairing : Pairing) (w : World)
    → HasStore env
    → LosesQueue env
    → IsAcceptable body
    → copy_of caller.user_id body.recipient_id w.store.pairings ≡ some pairing
    → pairing.status ≡ active
    → IsNew (made_page env caller body w) w.store
    → run env (handle_create_page (some caller) (some body)) w ≡ (
      respond 500 (text "page created but could not be scheduled"),
      with_unscheduled (made_page env caller body w) w,
    )
unfolding handle_create_page create_checked create_now run answer exec get_pairing create_page
    with_unscheduled new_page copy_of ◌>>=◌
unscheduled-run env caller body pairing w s q a held is_active new = ground (
  arith,
  s.store_up w.calls,
  s.store_up (suc (suc (suc w.calls))),
  q.queue_lost (suc (suc (suc (suc w.calls)))),
  a.complete,
  a.short,
  new.new_id,
  new.new_key,
)

-- An acceptable request for a new page is handled while no request reaches the queue and all else
-- works: it is answered 500, and the page is stored without a task. When the client repeats the
-- request, with the queue back at work or not, no call of the store failing and the store able to
-- look up by key, it is answered 200 with the page as if all were well, and nothing is stored,
-- pushed or enqueued: the page stays without a task.
pub unscheduled_page_stays :
    (env env' : Env) (caller : Identity) (body : CreateBody) (pairing : Pairing) (w : World)
    → HasStore env
    → LosesQueue env
    → HasStore env'
    → env'.capable idempotent_page_lookup ≡ true
    → IsAcceptable body
    → copy_of caller.user_id body.recipient_id w.store.pairings ≡ some pairing
    → pairing.status ≡ active
    → IsNew (made_page env caller body w) w.store
    → let (r, w') = run env (handle_create_page (some caller) (some body)) w in
      let (again, v) = run env' (handle_create_page (some caller) (some body)) w' in
      (r.status ≡ 500)
      × (w'.tasks ≡ w.tasks)
      × (lookup (made_page env caller body w).id w'.store.pages
          ≡ some (made_page env caller body w))
      × (again ≡ respond 200 (Response.page (made_page env caller body w)))
      × IsUntouched w' v
unscheduled_page_stays env env' caller body pairing w s q s' can a held is_active new =
    let made = made_page env caller body w in
    let stored : lookup made.id (with_unscheduled made w).store.pages ≡ some made =
      unfold with_unscheduled append_event in lookup-insert_self made.id made w.store.pages in
    let keyed : lookup body.idempotency_key (with_unscheduled made w).store.idem ≡ some made.id =
      unfold with_unscheduled append_event in
      lookup-insert_self body.idempotency_key made.id w.store.idem in
    let (again, untouched) =
      create_page_replayed env' caller body pairing (with_unscheduled made w) made.id made s' can a
        (unfold with_unscheduled append_event in held) is_active keyed stored in
    rw (unscheduled-run env caller body pairing w s q a held is_active new)
      (refl, unfold with_unscheduled in refl, stored, again, untouched)
