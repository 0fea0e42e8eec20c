-- ===== src/Dynamo/Pages.antt =====
-- backend/internal/store/dynamo/store.go: the methods on pages and their timelines.
use Prim.Native.String.{◌++◌}
use alertme.Prelude.{
  String, ltb, ◌==◌, ⊤, Option, none, some, List, [], ◌∷◌, length, take, if◌then◌else◌, Map, insert,
  values,
}
use alertme.Int.{ℤ, pos}
use alertme.Model.{
  Time, PageState, created, pushed, delivered, seen, acked, state_name, Page, PageEvent,
}
use alertme.Store.{ok, conflict}
use alertme.Store.Fake.Sort.{newest_first, page_limit}
use alertme.Dynamo.Keys.{TimeFormat, user_pk, page_pk, idem_pk, sk_meta}
use alertme.Dynamo.Items.{
  text, number, Field, string, field, optional, text_of, fmt_time, new_page_record, to_page,
  new_event_record, to_event, new_idem_record,
}
use alertme.Dynamo.Table.{
  Table, Method, return, ◌>>=◌, db_call, wrapped, failed_check_as, is_condition_failure,
  is_transact_condition_failure, marshalled, found, decode_all, attribute_not_exists,
  state_in_condition, put_if, put, Index, gsi1, gsi2,
}
use alertme.Dynamo.People.{put_record}

abbrev pub page_rec : List Field
page_rec =
    string "PK" ""
    ∷ string "SK" ""
    ∷ string "id" ""
    ∷ string "sender_id" ""
    ∷ string "recipient_id" ""
    ∷ string "message" ""
    ∷ string "state" ""
    ∷ field "attempt" (number (pos 0))
    ∷ string "idempotency_key" ""
    ∷ string "created_at" ""
    ∷ string "expires_at" ""
    ∷ optional "acked_at" ""
    ∷ optional "ack_note" ""
    ∷ field "ttl" (number (pos 0))
    ∷ string "GSI1PK" ""
    ∷ string "GSI1SK" ""
    ∷ string "GSI2PK" ""
    ∷ string "GSI2SK" ""
    ∷ []

abbrev pub event_rec : List Field
event_rec =
    string "PK" ""
    ∷ string "SK" ""
    ∷ string "page_id" ""
    ∷ string "type" ""
    ∷ optional "detail" ""
    ∷ string "at" ""
    ∷ field "ttl" (number (pos 0))
    ∷ []

abbrev pub idem_rec : List Field
idem_rec = string "PK" "" ∷ string "SK" "" ∷ string "page_id" "" ∷ []

abbrev pub active_states : List PageState
active_states = created ∷ pushed ∷ delivered ∷ seen ∷ []

-- `byID`, filled by a loop over the pages of one index.
unfoldable pub by_id : Map Page → List Page → Map Page
by_id m [] = m
by_id m (p ∷ ps) = by_id (insert p.id p m) ps

-- The merge of `ListPagesFor`.
unfoldable pub merge : List Page → List Page → List Page
unfolding by_id
merge as_recipient as_sender =
    let merged = newest_first (values (by_id (by_id [] as_recipient) as_sender)) in
    if ltb page_limit (length merged) then take page_limit merged else merged

module _ (tf : TimeFormat) (t : Table) where
  unfoldable pub create_page : Page → Method t.State ⊤
  create_page p = do
    page_item ← return (marshalled t (new_page_record tf p))
    idem_item ← return (marshalled t (new_idem_record p.idempotency_key p.id))
    event_item ← return (
        marshalled t (
          new_event_record tf
            (record { page_id = p.id; kind = "created"; detail = ""; at = p.created_at })))
    db_call (failed_check_as conflict is_transact_condition_failure) (
        t.transact_write (
          put_if page_item (attribute_not_exists "PK")
          ∷ put_if idem_item (attribute_not_exists "PK")
          ∷ put event_item
          ∷ []))

  unfoldable pub get_page : String → Method t.State Page
  get_page id = do
    out ← db_call wrapped (t.get_item (page_pk id) sk_meta)
    return (found t page_rec (to_page tf) out)

  unfoldable pub get_page_by_idempotency_key : String → Method t.State Page
  unfolding get_page
  get_page_by_idempotency_key key = do
    out ← db_call wrapped (t.get_item (idem_pk key) sk_meta)
    page_id ← return (found t idem_rec (λ r. ok (text_of "page_id" r)) out)
    get_page page_id

  unfoldable pub ack_page : String → String → Time → Method t.State ⊤
  ack_page id note at = db_call (failed_check_as conflict is_condition_failure) (
      t.update_item (page_pk id) sk_meta
        (("state", text (state_name acked))
          ∷ ("acked_at", text (fmt_time tf at))
          ∷ ("ack_note", text note)
          ∷ [])
        (state_in_condition "state" active_states))

  unfoldable pub set_page_state : String → List PageState → PageState → ℤ → Method t.State ⊤
  set_page_state id from to attempt = db_call (failed_check_as conflict is_condition_failure) (
      t.update_item (page_pk id) sk_meta
        (("state", text (state_name to)) ∷ ("attempt", number attempt) ∷ [])
        (state_in_condition "state" from))

  unfoldable pub append_event : PageEvent → Method t.State ⊤
  append_event e = put_record tf t (new_event_record tf e)

  unfoldable pub list_events : String → Method t.State (List PageEvent)
  list_events page_id = do
    items ← db_call wrapped (t.query (page_pk page_id) "EVT#")
    return (decode_all t event_rec (to_event tf) items)

  -- The lower bound on the sort key, which the zero time does not set.
  unfoldable pub since_bound : Time → Option String
  since_bound since = if since == 0 then none else some ("PAGE#" ++ tf.rfc3339 since)

  unfoldable pub query_page_index : Index → String → Time → Method t.State (List Page)
  unfolding since_bound
  query_page_index index pk since = do
    items ← db_call wrapped (t.query_index index pk (since_bound since) 100)
    return (decode_all t page_rec (to_page tf) items)

  unfoldable pub list_pages_for : String → Time → Method t.State (List Page)
  unfolding query_page_index merge
  list_pages_for user_id since = do
    as_recipient ← query_page_index gsi1 (user_pk user_id) since
    as_sender ← query_page_index gsi2 (user_pk user_id) since
    return (ok (merge as_recipient as_sender))
