-- ===== src/Api/Guard.antt =====
-- backend/internal/api: requests in which the middleware finds no caller.
use alertme.Prelude.{String, ◌≡◌, ◌≢◌, refl, Option, none, some, Map}
use alertme.Model.{Time}
use alertme.World.{Env, World, run}
use alertme.Api.Identity.{with_identity, claim}
use alertme.Api.Response.{respond, text}
use alertme.Api.Contacts.{
  handle_register_device, handle_create_invite, handle_accept_invite, handle_list_pairings,
  handle_block_pairing,
}
use alertme.Api.Create.{handle_create_page}
use alertme.Api.Read.{handle_list_pages, handle_get_page}
use alertme.Api.Receipts.{handle_ack_page, handle_delivered_receipt}
use alertme.Api.Router.{
  Route, health, post_devices, post_invites, post_invites_accept, get_pairings, post_pairings_block,
  post_pages, get_pages, get_pages_id, post_pages_ack, post_pages_delivered, dispatch, serve,
}

-- The gateway has verified no claims, or claims without a subject.
pub data LacksSubject : Option (Map String) → Type 0 where
  no_claims : LacksSubject none
  no_subject : (claims : Map String) → claim "sub" claims ≡ "" → LacksSubject (some claims)

with_identity-none :
    (jwt : Option (Map String)) (email : String)
    → LacksSubject jwt
    → with_identity jwt "" email ≡ none
unfolding with_identity
with_identity-none _ email no_claims = refl
with_identity-none _ email (no_subject claims e) = rw e refl

dispatch-none :
    (env : Env) (parse : String → Option Time) (route : Route) (w : World)
    → route ≢ health
    → run env (dispatch parse route none) w ≡ (respond 401 (text "unauthorized"), w)
unfolding dispatch run handle_register_device handle_create_invite handle_accept_invite
    handle_list_pairings handle_block_pairing handle_create_page handle_list_pages handle_get_page
    handle_ack_page handle_delivered_receipt
dispatch-none env parse health w h = absurd (h refl)
dispatch-none env parse (post_devices b) w h = refl
dispatch-none env parse post_invites w h = refl
dispatch-none env parse (post_invites_accept c) w h = refl
dispatch-none env parse get_pairings w h = refl
dispatch-none env parse (post_pairings_block p) w h = refl
dispatch-none env parse (post_pages b) w h = refl
dispatch-none env parse (get_pages r) w h = refl
dispatch-none env parse (get_pages_id i) w h = refl
dispatch-none env parse (post_pages_ack i n) w h = refl
dispatch-none env parse (post_pages_delivered i) w h = refl

-- Without DEV_USER_ID, a request for any route but /health whose gateway context has no claims, or
-- claims without a subject, is answered 401 and makes no call at all: the world is as it was, the
-- number of calls included.
pub unidentified_rejected :
    (env : Env) (parse : String → Option Time) (email : String) (jwt : Option (Map String))
    (route : Route) (w : World)
    → LacksSubject jwt
    → route ≢ health
    → run env (serve parse "" email jwt route) w ≡ (respond 401 (text "unauthorized"), w)
unfolding serve
unidentified_rejected env parse email jwt route w l h =
    rw (with_identity-none jwt email l) (dispatch-none env parse route w h)
