-- ===== src/Api/Create.antt =====
-- backend/internal/api/handlers.go: the handler of POST /pages. The JSON body has been decoded by
-- encoding/json, `none` if that failed; URL parameters have been matched by the router.
pub mod Outcomes
pub mod Unscheduled
use Prim.Native.String.{len}
use alertme.Prelude.{
  ℕ, ◌+◌, String, Bool, true, false, not, ◌&&◌, ◌||◌, Option, none, some, ⊤, List, [], ◌∷◌, ltb,
  str_eq, if◌then◌else◌,
}
use alertme.Int.{pos, negsuc}
use alertme.Model.{
  Time, PageState, created, pushed, delivered, acked, active, blocked, Pairing, Page, PageEvent,
  state_eq,
}
use alertme.Nag.{expiry}
use alertme.Store.{
  Err, Result, ok, err, not_found, conflict, other, get_pairing, create_page,
  get_page_by_idempotency_key, get_page, ack_page, set_page_state, append_event, list_events,
  list_pages_for,
}
use alertme.Queue.{PageTask}
use alertme.Prog.{
  Prog, ret, call, perform, ask, has_capability, idempotent_page_lookup, enqueue, now, random_id,
  ◌>>=◌, ◌>>◌,
}
use alertme.Api.Identity.{Identity}
use alertme.Api.Response.{Response, respond, text, unauthorized, map_store_err}
use alertme.Api.Response

abbrev pub max_message_len : ℕ
max_message_len = 500

pub record CreateBody : Type 0 where
  pub recipient_id : String
  pub message : String
  pub idempotency_key : String

-- The page that `handleCreatePage` makes.
unfoldable pub new_page : Identity → CreateBody → String → Time → Page
new_page caller body id at = record {
  id = id;
  sender_id = caller.user_id;
  recipient_id = body.recipient_id;
  message = body.message;
  state = created;
  attempt = negsuc 0;
  idempotency_key = body.idempotency_key;
  created_at = at;
  expires_at = at + expiry;
  acked_at = none;
  ack_note = "";
}

abbrev pub scheduled : Page → Result ⊤ → Prog Response
scheduled p (ok _) = ret (respond 201 (Response.page p))
scheduled p (err e) = ret (respond 500 (text "page created but could not be scheduled"))

abbrev pub replayed : Result Page → Prog Response
replayed (ok original) = ret (respond 200 (Response.page original))
replayed (err e) = ret (respond 409 (text "conflict"))

abbrev pub on_conflict : CreateBody → Bool → Prog Response
on_conflict body true = do r ← ask (get_page_by_idempotency_key body.idempotency_key); replayed r
on_conflict body false = ret (respond 409 (text "conflict"))

abbrev pub after_create : CreateBody → Page → Result ⊤ → Prog Response
after_create body p (ok _) = do
  r ← perform (enqueue (record { page_id = p.id; attempt = pos 0 }) 0)
  scheduled p r
after_create body p (err conflict) = do
  can ← perform (has_capability idempotent_page_lookup)
  on_conflict body can
after_create body p (err not_found) = ret (map_store_err not_found)
after_create body p (err other) = ret (map_store_err other)

unfoldable pub create_now : Identity → CreateBody → Prog Response
unfolding ◌>>=◌
create_now caller body = do
  at ← perform now
  id ← perform random_id
  r ← ask (create_page (new_page caller body id at))
  after_create body (new_page caller body id at) r

abbrev pub paired : Identity → CreateBody → Result Pairing → Prog Response
paired caller body (err not_found) = ret (respond 403 (text "no active pairing with recipient"))
paired caller body (err conflict) = ret (map_store_err conflict)
paired caller body (err other) = ret (map_store_err other)
paired caller body (ok p) = elim (p.status) [
  | active ↦ create_now caller body
  | blocked ↦ ret (respond 403 (text "pairing is blocked"))
]

unfoldable pub is_complete : CreateBody → Bool
is_complete body =
    not (str_eq body.recipient_id "" || str_eq body.message "" || str_eq body.idempotency_key "")

unfoldable pub create_checked : Identity → CreateBody → Prog Response
unfolding ◌>>=◌ is_complete
create_checked caller body =
    if not (is_complete body)
    then ret (respond 400 (text "recipient_id, message, and idempotency_key are required"))
    else if ltb max_message_len (len body.message)
    then ret (respond 400 (text "message exceeds 500 characters"))
    else (do r ← ask (get_pairing caller.user_id body.recipient_id); paired caller body r)

unfoldable pub handle_create_page : Option Identity → Option CreateBody → Prog Response
handle_create_page none body = ret unauthorized
handle_create_page (some caller) none = ret (respond 400 (text "invalid body"))
handle_create_page (some caller) (some body) = create_checked caller body
