-- ===== src/Api/Contract.antt =====
-- The handlers of the API keep the contract of the store.
pub mod Contacts
pub mod Create
use alertme.Prelude.{
  String, ⊤, Bool, true, false, refl, List, [], ◌∷◌, Option, none, some, arith, Map,
}
use alertme.Model.{
  Time, created, pushed, delivered, active, blocked, User, Invite, Pairing, PairingStatus, Page,
  PageEvent, is_active,
}
use alertme.Model.Lifecycle.{state_eq_iff}
use alertme.Store.{Result, ok, err, not_found, conflict, other}
use alertme.Store.Fake.{allowed}
use alertme.Store.Contract.{IsTransition, IsFresh}
use alertme.Prog.{ret, ◌>>=◌}
use alertme.Prog.Calls.{Calls, stops, calls, Calls-if, calls_rules, ObeysCall}
use alertme.Api.Identity.{Identity}
use alertme.Api.Response.{respond, text}
use alertme.Api.Contacts.{
  DeviceBody, ensure_user, or_new, stored, done, put_device_for, handle_register_device,
  handle_create_invite, accept_as, accepted, handle_accept_invite, handle_list_pairings,
  handle_block_pairing, invited, new_invite, paired_with,
}
use alertme.Api.Create.{
  CreateBody, new_page, after_create, on_conflict, replayed, scheduled, create_now, paired,
  create_checked, handle_create_page,
}
use alertme.Api.Read.{handle_list_pages, handle_get_page, show, with_events, listed, list_since}
use alertme.Api.Receipts.{
  handle_ack_page, handle_delivered_receipt, after_ack, after_receipt, ack_loaded, receipt_loaded,
  already,
}
use alertme.Api.Router.{
  Route, health, post_devices, post_invites, post_invites_accept, get_pairings, post_pairings_block,
  post_pages, get_pages, get_pages_id, post_pages_ack, post_pages_delivered, dispatch, serve,
}
use alertme.Api.Contract.Contacts.{
  register_device-Calls, invite-Calls, accept_invite-Calls, list_pairings-Calls,
  block_pairing-Calls,
}
use alertme.Api.Contract.Create.{create_page-Calls}

delivered-IsTransition : IsTransition (created ∷ pushed ∷ []) delivered
unfolding allowed is_active
delivered-IsTransition = record {
  leaves = λ st h. ground (arith, state_eq_iff st created, state_eq_iff st pushed);
  not_ack = λ e. cc;
}

list_since-Calls : (id : Identity) (since : Option Time) → Calls ObeysCall (list_since id since)
unfolding ◌>>=◌
list_since-Calls id none = stops _
list_since-Calls id (some since) = calls _ _ tt go
  where
    go : (r : Result (List Page)) → Calls ObeysCall (listed r)
    go (ok ps) = stops _
    go (err e) = stops _

list_pages-Calls :
    (parse : String → Option Time) (id : Option Identity) (raw : String)
    → Calls ObeysCall (handle_list_pages parse id raw)
unfolding handle_list_pages
list_pages-Calls parse none raw = stops _
list_pages-Calls parse (some id) raw = list_since-Calls id _

with_events-Calls : (p : Page) (r : Result (List PageEvent)) → Calls ObeysCall (with_events p r)
with_events-Calls p (ok es) = stops _
with_events-Calls p (err e) = stops _

show-Calls : (id : Identity) (page : String) (r : Result Page) → Calls ObeysCall (show id page r)
unfolding ◌>>=◌
show-Calls id page (ok p) = search (calls_rules, with_events-Calls)
show-Calls id page (err e) = stops _

get_page-Calls : (id : Option Identity) (page : String) → Calls ObeysCall (handle_get_page id page)
unfolding handle_get_page
get_page-Calls none page = stops _
get_page-Calls (some id) page = search (calls_rules, show-Calls)

already-Calls : (r : Result Page) → Calls ObeysCall (already r)
already-Calls (ok p) = search calls_rules
already-Calls (err e) = stops _

after_ack-Calls :
    (page note : String) (p : Page) (at : Time) (r : Result ⊤)
    → Calls ObeysCall (after_ack page note p at r)
unfolding ◌>>=◌
after_ack-Calls page note p at (ok _) = search calls_rules
after_ack-Calls page note p at (err conflict) = search (calls_rules, already-Calls)
after_ack-Calls page note p at (err not_found) = stops _
after_ack-Calls page note p at (err other) = stops _

ack_loaded-Calls :
    (id : Identity) (page note : String) (r : Result Page)
    → Calls ObeysCall (ack_loaded id page note r)
unfolding ◌>>=◌
ack_loaded-Calls id page note (ok p) = search (calls_rules, after_ack-Calls)
ack_loaded-Calls id page note (err e) = stops _

ack_page-Calls :
    (id : Option Identity) (page note : String) → Calls ObeysCall (handle_ack_page id page note)
unfolding handle_ack_page
ack_page-Calls none page note = stops _
ack_page-Calls (some id) page note = search (calls_rules, ack_loaded-Calls)

after_receipt-Calls : (page : String) (r : Result ⊤) → Calls ObeysCall (after_receipt page r)
unfolding ◌>>=◌
after_receipt-Calls page (ok _) = search calls_rules
after_receipt-Calls page (err conflict) = stops _
after_receipt-Calls page (err not_found) = stops _
after_receipt-Calls page (err other) = stops _

receipt_loaded-Calls :
    (id : Identity) (page : String) (r : Result Page) → Calls ObeysCall (receipt_loaded id page r)
unfolding ◌>>=◌
receipt_loaded-Calls id page (ok p) =
    Calls-if _ (stops _) (calls _ _ delivered-IsTransition (after_receipt-Calls page))
receipt_loaded-Calls id page (err e) = stops _

receipt-Calls :
    (id : Option Identity) (page : String) → Calls ObeysCall (handle_delivered_receipt id page)
unfolding handle_delivered_receipt
receipt-Calls none page = stops _
receipt-Calls (some id) page = search (calls_rules, receipt_loaded-Calls)

dispatch-Calls :
    (parse : String → Option Time) (route : Route) (id : Option Identity)
    → Calls ObeysCall (dispatch parse route id)
unfolding dispatch
dispatch-Calls parse health id = stops _
dispatch-Calls parse (post_devices b) id = register_device-Calls id b
dispatch-Calls parse post_invites id = invite-Calls id
dispatch-Calls parse (post_invites_accept code) id = accept_invite-Calls id code
dispatch-Calls parse get_pairings id = list_pairings-Calls id
dispatch-Calls parse (post_pairings_block peer) id = block_pairing-Calls id peer
dispatch-Calls parse (post_pages b) id = create_page-Calls id b
dispatch-Calls parse (get_pages raw) id = list_pages-Calls parse id raw
dispatch-Calls parse (get_pages_id page) id = get_page-Calls id page
dispatch-Calls parse (post_pages_ack page note) id = ack_page-Calls id page note
dispatch-Calls parse (post_pages_delivered page) id = receipt-Calls id page

-- Whatever a request is and whatever the calls of its handler are answered, each call of the store
-- that the handler makes keeps the store's contract: a change of state is from active states to one
-- not before them, and never to `acked`, and no page is made but as a created one.
pub serve-Calls :
    (parse : String → Option Time) (dev_user dev_email : String) (jwt : Option (Map String))
    (route : Route)
    → Calls ObeysCall (serve parse dev_user dev_email jwt route)
unfolding serve
serve-Calls parse dev_user dev_email jwt route = dispatch-Calls parse route _
