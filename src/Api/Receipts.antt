-- ===== src/Api/Receipts.antt =====
-- backend/internal/api/handlers.go: the handlers of POST /pages/{id}/ack and /pages/{id}/delivered.
pub mod Acks
pub mod Stale
use Prim.Native.String.{len}
use alertme.Prelude.{
  ℕ, ◌+◌, String, Bool, true, false, not, ◌&&◌, ◌||◌, Option, none, some, ⊤, List, [], ◌∷◌, ltb,
  str_eq, if◌then◌else◌,
}
use alertme.Int.{pos, negsuc}
use alertme.Model.{
  Time, PageState, created, pushed, delivered, acked, active, blocked, Pairing, Page, PageEvent,
  state_eq,
}
use alertme.Nag.{expiry}
use alertme.Store.{
  Err, Result, ok, err, not_found, conflict, other, get_pairing, create_page,
  get_page_by_idempotency_key, get_page, ack_page, set_page_state, append_event, list_events,
  list_pages_for,
}
use alertme.Queue.{PageTask}
use alertme.Prog.{
  Prog, ret, call, perform, ask, has_capability, idempotent_page_lookup, enqueue, now, random_id,
  ◌>>=◌, ◌>>◌,
}
use alertme.Api.Identity.{Identity}
use alertme.Api.Response.{Response, respond, text, unauthorized, map_store_err}
use alertme.Api.Response

-- The three assignments to the page that the handler read before the write.
unfoldable pub acknowledged : String → Time → Page → Page
acknowledged note at p = record p { state = acked; acked_at = some at; ack_note = note }

abbrev pub already : Result Page → Prog Response
already (err e) = ret (respond 409 (text "conflict"))
already (ok current) =
    if state_eq current.state acked
    then ret (respond 200 (Response.page current))
    else ret (respond 409 (text "conflict"))

abbrev pub acked_event : String → String → Time → PageEvent
acked_event id note at = record { page_id = id; kind = "acked"; detail = note; at = at }

abbrev pub after_ack : String → String → Page → Time → Result ⊤ → Prog Response
after_ack id note p at (ok _) = do
  ask (append_event (acked_event id note at)) >>= λ _.
      ret (respond 200 (Response.page (acknowledged note at p)))
after_ack id note p at (err conflict) = do r ← ask (get_page id); already r
after_ack id note p at (err not_found) = ret (map_store_err not_found)
after_ack id note p at (err other) = ret (map_store_err other)

abbrev pub ack_loaded : Identity → String → String → Result Page → Prog Response
ack_loaded caller id note (err e) = ret (map_store_err e)
ack_loaded caller id note (ok p) =
    if not (str_eq p.recipient_id caller.user_id)
    then ret (respond 404 (text "not found"))
    else (do at ← perform now; r ← ask (ack_page id note at); after_ack id note p at r)

-- `note` is `body.Note` after a decoding whose error is ignored.
unfoldable pub handle_ack_page : Option Identity → String → String → Prog Response
unfolding ◌>>=◌
handle_ack_page none id note = ret unauthorized
handle_ack_page (some caller) id note = do r ← ask (get_page id); ack_loaded caller id note r

abbrev pub delivered_event : String → Time → PageEvent
delivered_event id at = record { page_id = id; kind = "delivered"; detail = ""; at = at }

abbrev pub after_receipt : String → Result ⊤ → Prog Response
after_receipt id (ok _) = do
  at ← perform now
  ask (append_event (delivered_event id at)) >>= λ _. ret (respond 204 Response.empty)
after_receipt id (err conflict) = ret (respond 204 Response.empty)
after_receipt id (err not_found) = ret (map_store_err not_found)
after_receipt id (err other) = ret (map_store_err other)

abbrev pub receipt_loaded : Identity → String → Result Page → Prog Response
receipt_loaded caller id (err e) = ret (map_store_err e)
receipt_loaded caller id (ok p) =
    if not (str_eq p.recipient_id caller.user_id) then ret (respond 404 (text "not found")) else (do
      r ← ask (set_page_state id (created ∷ pushed ∷ []) delivered p.attempt)
      after_receipt id r)

unfoldable pub handle_delivered_receipt : Option Identity → String → Prog Response
unfolding ◌>>=◌
handle_delivered_receipt none id = ret unauthorized
handle_delivered_receipt (some caller) id = do r ← ask (get_page id); receipt_loaded caller id r
