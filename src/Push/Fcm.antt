-- ===== src/Push/Fcm.antt =====
-- backend/internal/push/fcm/fcm.go: a push through FCM's HTTP API, tried twice at most. The HTTP
-- client, the JSON package, the credentials' parser, the timer and `math/rand` are parameters.
pub mod Retry
use Prim.Native.String.{◌++◌}
use alertme.Prelude.{
  ℕ, zero, suc, ◌+◌, ◌*◌, String, Bool, true, false, ◌||◌, ◌==◌, leb, str_eq, Option, none, some,
  List, [], ◌∷◌, if◌then◌else◌, Map,
}
use alertme.Int.{ℤ}
use alertme.Model.{Device}
use alertme.Push.{Notification, SendResult}

pub record Aps : Type 0 where
  pub interruption_level : String
  pub sound : String
  pub thread_id : String
  pub mutable_content : ℕ

pub record ApnsConfig : Type 0 where
  pub headers : Map String
  pub aps : Aps

pub record AndroidConfig : Type 0 where
  pub priority : String

pub record FcmMessage : Type 0 where
  pub token : String
  pub data_map : Map String
  pub android : AndroidConfig
  pub apns : ApnsConfig

pub record ErrorResponse : Type 0 where
  pub status : String
  pub error_codes : List String

pub record Request : Type 0 where
  pub url : String
  pub content_type : String
  pub body : String

-- What `Do` and the reading of the body give.
pub data Exchange : Type 0 where
  no_response unread : Exchange
  answered : ℕ → String → Exchange

pub data FcmErr : Type 0 where
  marshal_error request_error cancelled transport read : FcmErr
  bad_status : ℕ → String → FcmErr

-- nil, `ErrTokenGone` or another error.
pub data FcmResult : Type 0 where
  sent gone : FcmResult
  failed : FcmErr → FcmResult

-- What the loop's body makes of an exchange: it returns, or it keeps the error and goes on.
pub data Verdict : Type 0 where
  final : FcmResult → Verdict
  again : FcmErr → Verdict

pub record Http : Type 1 where
  pub State : Type 0
  pub itoa : ℤ → String
  pub marshal : FcmMessage → Option String
  pub unmarshal_error : String → Option ErrorResponse
  -- whether `NewRequestWithContext` takes the URL
  pub takes_url : String → Bool
  pub do_request : Request → State → Exchange × State
  pub intn : ℕ → State → ℕ × State
  -- whether the timer fires before the context is done
  pub wait : ℕ → State → Bool × State

pub data NewErr : Type 0 where
  bad_account missing_project bad_jwt : NewErr

pub data NewResult : Type 0 where
  client : String → NewResult
  no_client : NewErr → NewResult

-- `New`: the client is its project id, for the given readings of `project_id` and of the JWT
-- configuration.
unfoldable pub new : (String → Option String) → (String → Bool) → String → NewResult
new project_of jwt_ok json = elim (project_of json) [
  | none ↦ no_client bad_account
  | some id ↦
      if str_eq id ""
      then no_client missing_project
      else if jwt_ok json
      then client id
      else no_client bad_jwt
]

unfoldable pub fcm_message : (ℤ → String) → Device → Notification → FcmMessage
fcm_message itoa device n = record {
  token = device.token;
  data_map =
      ("page_id", n.page_id) ∷ ("attempt", itoa n.attempt) ∷ ("sender_name", n.sender_name) ∷ [];
  android = record { priority = "HIGH" };
  apns = record {
    headers = ("apns-push-type", "alert") ∷ ("apns-priority", "10") ∷ [];
    aps = record {
      interruption_level = "time-sensitive";
      sound = "page.caf";
      thread_id = n.page_id;
      mutable_content = 1;
    };
  };
}

unfoldable pub any_unregistered : List String → Bool
any_unregistered [] = false
any_unregistered (code ∷ codes) =
    let rest = any_unregistered codes in if str_eq code "UNREGISTERED" then true else rest

abbrev pub millisecond : ℕ
millisecond = 1000000

unfoldable pub send_url : String → String
send_url project = "https://fcm.googleapis.com/v1/projects/" ++ (project ++ "/messages:send")

unfoldable pub is_unregistered : (String → Option ErrorResponse) → String → Bool
unfolding any_unregistered
is_unregistered unmarshal body = elim (unmarshal body) [
  | none ↦ false
  | some e ↦ if str_eq e.status "UNREGISTERED" then true else any_unregistered e.error_codes
]

-- The body of the loop from `Do` on.
unfoldable pub judge : (String → Option ErrorResponse) → Exchange → Verdict
judge unmarshal no_response = again transport
judge unmarshal unread = again read
judge unmarshal (answered status body) =
    if status == 200
    then final sent
    else if status == 404 || status == 410 || is_unregistered unmarshal body
    then final gone
    else if status == 429 || leb 500 status
    then again (bad_status status body)
    else final (failed (bad_status status body))

module _ (h : Http) where
  abbrev pub judged :
      (FcmErr → h.State → FcmResult × h.State) → Verdict → h.State → FcmResult × h.State
  judged next (final r) s = (r, s)
  judged next (again e) s = next e s

  unfoldable pub exchanged :
      (FcmErr → h.State → FcmResult × h.State) → Exchange × h.State → FcmResult × h.State
  unfolding judge
  exchanged next (x, s) = judged next (judge h.unmarshal_error x) s

  abbrev pub waited : (h.State → FcmResult × h.State) → Bool × h.State → FcmResult × h.State
  waited k (true, s) = k s
  waited k (false, s) = (failed cancelled, s)

  abbrev pub jittered : (h.State → FcmResult × h.State) → ℕ × h.State → FcmResult × h.State
  jittered k (n, s) = waited k (h.wait (200 * millisecond + n * millisecond) s)

  -- The pause before every attempt but the first.
  unfoldable pub before_attempt :
      ℕ → (h.State → FcmResult × h.State) → h.State → FcmResult × h.State
  before_attempt zero k s = k s
  before_attempt (suc n) k s = jittered k (h.intn 250 s)

  unfoldable pub request :
      String → String → (FcmErr → h.State → FcmResult × h.State) → h.State → FcmResult × h.State
  request url body next s =
      if h.takes_url url
      then exchanged next
          (h.do_request (record { url = url; content_type = "application/json"; body = body }) s)
      else (failed request_error, s)

  -- The loop, with the attempts that are left, their counter and `lastErr`.
  unfoldable pub attempts : String → String → ℕ → ℕ → FcmResult → h.State → FcmResult × h.State
  unfolding before_attempt request
  attempts url body zero attempt last s = (last, s)
  attempts url body (suc n) attempt last s =
      before_attempt attempt
        (request url body (λ e s'. attempts url body n (suc attempt) (failed e) s')) s

  unfoldable pub send : String → Device → Notification → h.State → FcmResult × h.State
  unfolding fcm_message attempts send_url
  send project device n s = elim (h.marshal (fcm_message h.itoa device n)) [
    | none ↦ (failed marshal_error, s)
    | some body ↦ attempts (send_url project) body 2 0 sent s
  ]

-- What the worker sees of a result.
unfoldable pub send_result : FcmResult → SendResult
send_result sent = SendResult.sent
send_result gone = SendResult.token_gone
send_result (failed e) = SendResult.failed
