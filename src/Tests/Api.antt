-- ===== src/Tests/Api.antt =====
-- Requests about a page that is there.
use alertme.Prelude.{
  ◌≡◌, ◌≢◌, ◌⊎◌, inr, refl, ◌∙◌, true, false, none, some, [], ◌∷◌, ◌++◌, lookup, eq_iff, ap,
}
use alertme.Int.{pos, negsuc}
use alertme.Model.{Page, is_active, pushed, delivered, acked}
use alertme.Store.{ok}
use alertme.Store.Exec.{exec}
use alertme.Store.Fake.{row, moved, get_page, list_events}
use alertme.Prog.{◌>>=◌}
use alertme.Prog.Calls.{Calls, ObeysCall}
use alertme.World.{IsUntouched, up, answer, run}
use alertme.World.Run.{IsSteady-HasStore}
use alertme.Api.Response.{respond, text}
use alertme.Api.Response
use alertme.Api.Read.{handle_get_page}
use alertme.Api.Read.Parties.{get_page_hides, get_page_shows_parties}
use alertme.Api.Receipts.{handle_ack_page, receipt_loaded}
use alertme.Api.Receipts.Acks.{now_acked, ack_acknowledges, ack_idempotent, only_recipient_acks}
use alertme.Api.Receipts.Stale.{stale_receipt_resets_attempt}
use alertme.Api.Identity.{claim}
use alertme.Api.Guard.{no_subject, unidentified_rejected}
use alertme.Api.Router.{health, post_pages_ack, post_pages_delivered, serve}
use alertme.Api.Contract.{serve-Calls}
use alertme.Nag.{minute}
use alertme.Pager.Due.{IsDue}
use alertme.Tests.{env, env-IsSteady, bob, eve, page, world_with}

page-stored : lookup "p1" (world_with page).store.pages ≡ some page
unfolding lookup
page-stored = refl

ack_acknowledges_example :
    ((run env (handle_ack_page (some bob) "p1" "on my way") (world_with page)).0
      ≡ respond 200 (Response.page (now_acked "on my way" minute page)))
    × (lookup "p1"
          (run env (handle_ack_page (some bob) "p1" "on my way") (world_with page)).1.store.pages
        ≡ some (now_acked "on my way" minute page))
    × (row "p1"
          (run env (handle_ack_page (some bob) "p1" "on my way") (world_with page)).1.store.events
        ≡ row "p1" []
          ++ record { page_id = "p1"; kind = "acked"; detail = "on my way"; at = minute } ∷ [])
    × ((run env (handle_ack_page (some bob) "p1" "on my way") (world_with page)).1.tasks ≡ [])
    × ((run env (handle_ack_page (some bob) "p1" "on my way") (world_with page)).1.pushes ≡ [])
unfolding is_active
ack_acknowledges_example =
    ack_acknowledges env bob "p1" "on my way" page (world_with page)
      (IsSteady-HasStore env-IsSteady) page-stored refl refl

-- The page once acknowledged.
abbrev done_page : Page
done_page = record page { state = acked; acked_at = some 7; ack_note = "on my way" }

ack_idempotent_example :
    ((run env (handle_ack_page (some bob) "p1" "again") (world_with done_page)).0
      ≡ respond 200 (Response.page done_page))
    × IsUntouched
        (world_with done_page)
        (run env (handle_ack_page (some bob) "p1" "again") (world_with done_page)).1
unfolding lookup
ack_idempotent_example =
    ack_idempotent env bob "p1" "again" done_page (world_with done_page)
      (IsSteady-HasStore env-IsSteady) refl refl refl

not_eve : (p : Page) → lookup "p1" (world_with page).store.pages ≡ some p → p.recipient_id ≢ "eve"
unfolding lookup
not_eve p h e =
    let same : page ≡ p = cc in
    let f : false ≡ true = (eq_iff "bob" "eve").1 (ap (λ (x : Page). x.recipient_id) same ∙ e) in cc

only_recipient_acks_example :
    IsUntouched
      (world_with page)
      (run env (handle_ack_page (some eve) "p1" "mine") (world_with page)).1
    × (((run env (handle_ack_page (some eve) "p1" "mine") (world_with page)).0.status ≡ 404)
        ⊎ ((env.store_fault 0 ≢ up)
            × ((run env (handle_ack_page (some eve) "p1" "mine") (world_with page)).0.status
                ≡ 500)))
only_recipient_acks_example = only_recipient_acks env eve "p1" "mine" (world_with page) not_eve

-- The page as the pager left it after attempt 2.
abbrev pushed_page : Page
pushed_page = moved pushed (pos 2) page

stale_receipt_resets_attempt_example :
    (lookup "p1"
        (run env (receipt_loaded bob "p1" (ok page)) (world_with pushed_page)).1.store.pages
      ≡ some (moved delivered (negsuc 0) pushed_page))
    × IsDue env
        (record { page_id = "p1"; attempt = pos 2 })
        (moved delivered (negsuc 0) pushed_page)
        (run env (receipt_loaded bob "p1" (ok page)) (world_with pushed_page)).1
unfolding lookup moved
stale_receipt_resets_attempt_example =
    stale_receipt_resets_attempt env env bob "p1" page pushed_page (world_with pushed_page)
      (IsSteady-HasStore env-IsSteady) refl refl refl (inr refl) refl refl

eve-not_sender : page.sender_id ≢ eve.user_id
eve-not_sender e = let h : false ≡ true = (eq_iff "alice" "eve").1 e in cc

eve-not_recipient : page.recipient_id ≢ eve.user_id
eve-not_recipient e = let h : false ≡ true = (eq_iff "bob" "eve").1 e in cc

get_page_hides_example :
    ((run env (handle_get_page (some eve) "p1") (world_with page)).0
      ≡ (run env (handle_get_page (some eve) "p9") (world_with page)).0)
    × ((env.store_fault 0 ≢ up)
        ⊎ ((run env (handle_get_page (some eve) "p1") (world_with page)).0.status ≡ 404))
unfolding lookup
get_page_hides_example =
    get_page_hides env eve "p1" "p9" page (world_with page) page-stored refl eve-not_sender
      eve-not_recipient

get_page_shows_parties_example :
    (lookup "p1" (world_with page).store.pages ≡ some page)
    × ((page.sender_id ≡ bob.user_id) ⊎ (page.recipient_id ≡ bob.user_id))
    × ([] ≡ row "p1" (world_with page).store.events)
unfolding run handle_get_page answer exec get_page list_events lookup row ◌>>=◌
get_page_shows_parties_example = get_page_shows_parties env bob "p1" (world_with page) page [] refl

serve-Calls_example :
    Calls ObeysCall (serve (λ raw. none) "bob" "bob@example.com" none (post_pages_delivered "p1"))
serve-Calls_example =
    serve-Calls (λ raw. none) "bob" "bob@example.com" none (post_pages_delivered "p1")

ack-not_health : post_pages_ack "p1" "mine" ≢ health
ack-not_health e = cc

unidentified_rejected_example :
    run env
      (serve
        (λ raw. none)
        ""
        ""
        (some (("email", "eve@example.com") ∷ []))
        (post_pages_ack "p1" "mine"))
      (world_with page)
    ≡ (respond 401 (text "unauthorized"), world_with page)
unfolding claim lookup
unidentified_rejected_example =
    unidentified_rejected env (λ raw. none) "" (some (("email", "eve@example.com") ∷ []))
      (post_pages_ack "p1" "mine") (world_with page)
      (no_subject (("email", "eve@example.com") ∷ []) refl) ack-not_health
