-- ===== src/Api/Router.antt =====
-- backend/internal/api/api.go: the routes, and the middleware in front of all but /health. Which
-- route a path matches is the chi router's.
use alertme.Prelude.{String, Option, Map}
use alertme.Model.{Time}
use alertme.Prog.{Prog, ret}
use alertme.Api.Identity.{Identity, with_identity}
use alertme.Api.Response.{Response, respond}
use alertme.Api.Response
use alertme.Api.Contacts.{
  DeviceBody, handle_register_device, handle_create_invite, handle_accept_invite,
  handle_list_pairings, handle_block_pairing,
}
use alertme.Api.Create.{CreateBody, handle_create_page}
use alertme.Api.Read.{handle_list_pages, handle_get_page}
use alertme.Api.Receipts.{handle_ack_page, handle_delivered_receipt}

-- A matched route with its URL parameters, its decoded body and its raw query.
pub data Route : Type 0 where
  health : Route
  post_devices : Option DeviceBody → Route
  post_invites : Route
  post_invites_accept : String → Route
  get_pairings : Route
  post_pairings_block : String → Route
  post_pages : Option CreateBody → Route
  get_pages : String → Route
  get_pages_id : String → Route
  post_pages_ack : String → String → Route
  post_pages_delivered : String → Route

unfoldable pub handle_health : Prog Response
handle_health = ret (respond 200 (Response.health "ok"))

-- The handler of a route, for the caller that the middleware has found.
unfoldable pub dispatch : (String → Option Time) → Route → Option Identity → Prog Response
unfolding handle_health
dispatch parse health caller = handle_health
dispatch parse (post_devices body) caller = handle_register_device caller body
dispatch parse post_invites caller = handle_create_invite caller
dispatch parse (post_invites_accept code) caller = handle_accept_invite caller code
dispatch parse get_pairings caller = handle_list_pairings caller
dispatch parse (post_pairings_block peer_id) caller = handle_block_pairing caller peer_id
dispatch parse (post_pages body) caller = handle_create_page caller body
dispatch parse (get_pages raw) caller = handle_list_pages parse caller raw
dispatch parse (get_pages_id id) caller = handle_get_page caller id
dispatch parse (post_pages_ack id note) caller = handle_ack_page caller id note
dispatch parse (post_pages_delivered id) caller = handle_delivered_receipt caller id

-- A request: its route and the claims that the gateway has verified.
unfoldable pub serve :
    (String → Option Time) → String → String → Option (Map String) → Route → Prog Response
unfolding dispatch with_identity
serve parse dev_user dev_email jwt route =
    dispatch parse route (with_identity jwt dev_user dev_email)
