-- ===== src/Api/Read.antt =====
-- backend/internal/api/handlers.go: the handlers of GET /pages and GET /pages/{id}. URL parameters
-- have been matched by the router.
pub mod Parties
use Prim.Native.String.{len}
use alertme.Prelude.{
  ℕ, ◌+◌, String, Bool, true, false, not, ◌&&◌, ◌||◌, Option, none, some, ⊤, List, [], ◌∷◌, ltb,
  str_eq, if◌then◌else◌,
}
use alertme.Int.{pos, negsuc}
use alertme.Model.{
  Time, PageState, created, pushed, delivered, acked, active, blocked, Pairing, Page, PageEvent,
  state_eq,
}
use alertme.Nag.{expiry}
use alertme.Store.{
  Err, Result, ok, err, not_found, conflict, other, get_pairing, create_page,
  get_page_by_idempotency_key, get_page, ack_page, set_page_state, append_event, list_events,
  list_pages_for,
}
use alertme.Queue.{PageTask}
use alertme.Prog.{
  Prog, ret, call, perform, ask, has_capability, idempotent_page_lookup, enqueue, now, random_id,
  ◌>>=◌, ◌>>◌,
}
use alertme.Api.Identity.{Identity}
use alertme.Api.Response.{Response, respond, text, unauthorized, map_store_err}
use alertme.Api.Response

-- `parseSince`, over `time.Parse` of RFC 3339; `none` is its error.
unfoldable pub parse_since : (String → Option Time) → String → Option Time
parse_since parse raw = if str_eq raw "" then some 0 else parse raw

abbrev pub listed : Result (List Page) → Prog Response
listed (ok ps) = ret (respond 200 (Response.pages ps))
listed (err e) = ret (map_store_err e)

abbrev pub list_since : Identity → Option Time → Prog Response
list_since caller none = ret (respond 400 (text "invalid since (want RFC3339)"))
list_since caller (some since) = do r ← ask (list_pages_for caller.user_id since); listed r

unfoldable pub handle_list_pages : (String → Option Time) → Option Identity → String → Prog Response
unfolding ◌>>=◌
handle_list_pages parse none raw = ret unauthorized
handle_list_pages parse (some caller) raw = list_since caller (parse_since parse raw)

abbrev pub with_events : Page → Result (List PageEvent) → Prog Response
with_events p (ok es) = ret (respond 200 (Response.timeline p es))
with_events p (err e) = ret (map_store_err e)

abbrev pub show : Identity → String → Result Page → Prog Response
show caller id (err e) = ret (map_store_err e)
show caller id (ok p) =
    if not (str_eq p.sender_id caller.user_id) && not (str_eq p.recipient_id caller.user_id)
    then ret (respond 404 (text "not found"))
    else (do r ← ask (list_events id); with_events p r)

unfoldable pub handle_get_page : Option Identity → String → Prog Response
unfolding ◌>>=◌
handle_get_page none id = ret unauthorized
handle_get_page (some caller) id = do r ← ask (get_page id); show caller id r
