-- ===== src/Dynamo/Items.antt =====
-- backend/internal/store/dynamo/items.go: the record structs. A struct is the list of its fields
-- under the names of their `dynamodbav` tags.
pub mod RoundTrip
use alertme.Prelude.{
  ℕ, ◌+◌, ◌-◌, ◌*◌, ◌/◌, String, Bool, true, false, ◌==◌, leb, str_eq, ⊤, Option, none, some, List,
  [], ◌∷◌, if◌then◌else◌,
}
use alertme.Int.{ℤ, pos, negsuc}
use alertme.Model.{
  Time, PageState, created, pushed, delivered, seen, acked, expired, cancelled, state_name,
  PairingStatus, active, blocked, User, Device, Pairing, Invite, Page, PageEvent,
}
use alertme.Nag.{second, minute}
use alertme.Store.{Result, ok, err, other}
use alertme.Dynamo.Keys.{
  TimeFormat, user_pk, device_sk, pair_sk, invite_pk, page_pk, idem_pk, event_sk, page_gsi1_sk,
  page_gsi2_sk, sk_profile, sk_meta,
}

-- A Go string or integer, and an attribute's value of type S or N.
pub data Value : Type 0 where
  text : String → Value
  number : ℤ → Value

pub record Field : Type 0 where
  pub tag : String
  pub value : Value
  pub omit_empty : Bool

abbrev pub field : String → Value → Field
field tag v = record { tag = tag; value = v; omit_empty = false }

abbrev pub optional : String → String → Field
optional tag v = record { tag = tag; value = text v; omit_empty = true }

abbrev pub string : String → String → Field
string tag v = field tag (text v)

-- `r.F` for the field `F` of the tag.
abbrev as_text : Value → String
as_text (text s) = s
as_text (number n) = ""

abbrev as_number : Value → ℤ
as_number (text s) = pos 0
as_number (number n) = n

unfoldable pub text_of : String → List Field → String
text_of tag [] = ""
text_of tag (f ∷ fs) =
    let rest = text_of tag fs in if str_eq f.tag tag then as_text f.value else rest

unfoldable pub number_of : String → List Field → ℤ
number_of tag [] = pos 0
number_of tag (f ∷ fs) =
    let rest = number_of tag fs in if str_eq f.tag tag then as_number f.value else rest

-- 1970 began so many seconds after the zero time.
abbrev pub unix_epoch : ℕ
unix_epoch = 62135596800

-- `t.Unix()`
unfoldable pub unix : Time → ℤ
unix t =
    let s = t / second in
    if leb unix_epoch s then pos (s - unix_epoch) else negsuc (unix_epoch - s - 1)

abbrev pub ttl_retention : ℕ
ttl_retention = 90 * 24 * 60 * minute

unfoldable pub fmt_time : TimeFormat → Time → String
fmt_time tf t = tf.rfc3339_nano t

abbrev parsed : Option Time → Result Time
parsed none = err other
parsed (some t) = ok t

unfoldable pub parse_time : TimeFormat → String → Result Time
parse_time tf s = parsed (tf.parse_nano s)

infixl 5 ◌>>=◌
abbrev ◌>>=◌ : {A B : Type 0} → Result A → (A → Result B) → Result B
ok a >>= f = f a
err e >>= f = err e

unfoldable pub new_user_record : TimeFormat → User → List Field
unfolding user_pk fmt_time
new_user_record tf u =
    string "PK" (user_pk u.id)
    ∷ string "SK" sk_profile
    ∷ string "id" u.id
    ∷ string "display_name" u.display_name
    ∷ string "created_at" (fmt_time tf u.created_at)
    ∷ []

unfoldable pub to_user : TimeFormat → List Field → Result User
unfolding text_of parse_time
to_user tf r = do
  made ← parse_time tf (text_of "created_at" r)
  ok (record { id = text_of "id" r; display_name = text_of "display_name" r; created_at = made })

unfoldable pub new_device_record : TimeFormat → Device → List Field
unfolding user_pk device_sk fmt_time
new_device_record tf d =
    string "PK" (user_pk d.user_id)
    ∷ string "SK" (device_sk d.token)
    ∷ string "user_id" d.user_id
    ∷ string "token" d.token
    ∷ string "platform" d.platform
    ∷ string "updated_at" (fmt_time tf d.updated_at)
    ∷ []

unfoldable pub to_device : TimeFormat → List Field → Result Device
unfolding text_of parse_time
to_device tf r = do
  updated ← parse_time tf (text_of "updated_at" r)
  ok (record {
    user_id = text_of "user_id" r;
    token = text_of "token" r;
    platform = text_of "platform" r;
    updated_at = updated;
  })

-- The constants' string values.
unfoldable pub status_name : PairingStatus → String
status_name active = "active"
status_name blocked = "blocked"

-- `model.PairingStatus(s)`. The code keeps any other string; none is ever written.
unfoldable pub status_of : String → Result PairingStatus
status_of s =
    if str_eq s "active" then ok active else if str_eq s "blocked" then ok blocked else err other

unfoldable pub new_pairing_record : TimeFormat → Pairing → List Field
unfolding user_pk pair_sk fmt_time status_name
new_pairing_record tf p =
    string "PK" (user_pk p.user_id)
    ∷ string "SK" (pair_sk p.peer_id)
    ∷ string "user_id" p.user_id
    ∷ string "peer_id" p.peer_id
    ∷ string "peer_name" p.peer_name
    ∷ string "status" (status_name p.status)
    ∷ string "created_at" (fmt_time tf p.created_at)
    ∷ []

unfoldable pub to_pairing : TimeFormat → List Field → Result Pairing
unfolding text_of parse_time status_of
to_pairing tf r = do
  made ← parse_time tf (text_of "created_at" r)
  status ← status_of (text_of "status" r)
  ok (record {
    user_id = text_of "user_id" r;
    peer_id = text_of "peer_id" r;
    peer_name = text_of "peer_name" r;
    status = status;
    created_at = made;
  })

unfoldable pub new_invite_record : TimeFormat → Invite → List Field
unfolding invite_pk fmt_time unix
new_invite_record tf inv =
    string "PK" (invite_pk inv.code)
    ∷ string "SK" sk_meta
    ∷ string "code" inv.code
    ∷ string "creator_id" inv.creator_id
    ∷ string "expires_at" (fmt_time tf inv.expires_at)
    ∷ field "ttl" (number (unix inv.expires_at))
    ∷ []

unfoldable pub to_invite : TimeFormat → List Field → Result Invite
unfolding text_of parse_time
to_invite tf r = do
  expires ← parse_time tf (text_of "expires_at" r)
  ok (record { code = text_of "code" r; creator_id = text_of "creator_id" r; expires_at = expires })

abbrev acked_text : TimeFormat → Option Time → String
acked_text tf none = ""
acked_text tf (some at) = tf.rfc3339_nano at

unfoldable pub new_page_record : TimeFormat → Page → List Field
unfolding page_pk user_pk page_gsi1_sk page_gsi2_sk fmt_time unix state_name
new_page_record tf p =
    string "PK" (page_pk p.id)
    ∷ string "SK" sk_meta
    ∷ string "id" p.id
    ∷ string "sender_id" p.sender_id
    ∷ string "recipient_id" p.recipient_id
    ∷ string "message" p.message
    ∷ string "state" (state_name p.state)
    ∷ field "attempt" (number p.attempt)
    ∷ string "idempotency_key" p.idempotency_key
    ∷ string "created_at" (fmt_time tf p.created_at)
    ∷ string "expires_at" (fmt_time tf p.expires_at)
    ∷ optional "acked_at" (acked_text tf p.acked_at)
    ∷ optional "ack_note" p.ack_note
    ∷ field "ttl" (number (unix (p.created_at + ttl_retention)))
    ∷ string "GSI1PK" (user_pk p.recipient_id)
    ∷ string "GSI1SK" (page_gsi1_sk tf p.created_at p.id)
    ∷ string "GSI2PK" (user_pk p.sender_id)
    ∷ string "GSI2SK" (page_gsi2_sk tf p.created_at p.id)
    ∷ []

-- `model.PageState(s)`. The code keeps any other string; none is ever written.
unfoldable pub state_of : String → Result PageState
state_of s =
    if str_eq s "created"
    then ok created
    else if str_eq s "pushed"
    then ok pushed
    else if str_eq s "delivered"
    then ok delivered
    else if str_eq s "seen"
    then ok seen
    else if str_eq s "acked"
    then ok acked
    else if str_eq s "expired"
    then ok expired
    else if str_eq s "cancelled"
    then ok cancelled
    else err other

unfoldable pub acked_time : TimeFormat → String → Result (Option Time)
unfolding parse_time
acked_time tf s = if str_eq s "" then ok none else (do at ← parse_time tf s; ok (some at))

unfoldable pub to_page : TimeFormat → List Field → Result Page
unfolding text_of number_of parse_time state_of acked_time
to_page tf r = do
  made ← parse_time tf (text_of "created_at" r)
  expires ← parse_time tf (text_of "expires_at" r)
  acked_at ← acked_time tf (text_of "acked_at" r)
  state ← state_of (text_of "state" r)
  ok (record {
    id = text_of "id" r;
    sender_id = text_of "sender_id" r;
    recipient_id = text_of "recipient_id" r;
    message = text_of "message" r;
    state = state;
    attempt = number_of "attempt" r;
    idempotency_key = text_of "idempotency_key" r;
    created_at = made;
    expires_at = expires;
    acked_at = acked_at;
    ack_note = text_of "ack_note" r;
  })

unfoldable pub new_event_record : TimeFormat → PageEvent → List Field
unfolding page_pk event_sk fmt_time unix
new_event_record tf e =
    string "PK" (page_pk e.page_id)
    ∷ string "SK" (event_sk tf e.at e.kind)
    ∷ string "page_id" e.page_id
    ∷ string "type" e.kind
    ∷ optional "detail" e.detail
    ∷ string "at" (fmt_time tf e.at)
    ∷ field "ttl" (number (unix (e.at + ttl_retention)))
    ∷ []

unfoldable pub to_event : TimeFormat → List Field → Result PageEvent
unfolding text_of parse_time
to_event tf r = do
  at ← parse_time tf (text_of "at" r)
  ok (record {
    page_id = text_of "page_id" r;
    kind = text_of "type" r;
    detail = text_of "detail" r;
    at = at;
  })

unfoldable pub new_idem_record : String → String → List Field
unfolding idem_pk
new_idem_record key page_id =
    string "PK" (idem_pk key) ∷ string "SK" sk_meta ∷ string "page_id" page_id ∷ []
