-- ===== src/Canary.antt =====
-- backend/cmd/canary/main.go: one run of the canary. The environment, Cognito, the HTTP client, the
-- JSON package and the clock are parameters.
pub mod Bounds
pub mod Log
pub mod Polling
pub mod Heartbeat
use Prim.Native.String.{◌++◌}
use alertme.Prelude.{
  ℕ, zero, suc, ◌+◌, ◌*◌, String, Bool, true, false, not, ltb, leb, ◌||◌, str_eq, ⊤, Option, none,
  some, List, [], ◌∷◌, if◌then◌else◌, Map,
}
use alertme.Model.{Time}
use alertme.Nag.{second, minute}

pub record Config : Type 0 where
  pub api_base_url : String
  pub client_id : String
  pub bot_a_username : String
  pub bot_a_password : String
  pub bot_b_username : String
  pub bot_b_password : String
  pub bot_b_user_id : String
  pub heartbeat_url : String

unfoldable pub any_empty : List String → Bool
any_empty [] = false
any_empty (v ∷ vs) = let rest = any_empty vs in if str_eq v "" then true else rest

abbrev pub required : Config → List String
required c =
    c.api_base_url ∷ c.client_id ∷ c.bot_a_username ∷ c.bot_a_password ∷ c.bot_b_username
    ∷ c.bot_b_password ∷ c.bot_b_user_id ∷ []

abbrev pub read_config : (String → String) → Config
read_config getenv = record {
  api_base_url = getenv "API_BASE_URL";
  client_id = getenv "COGNITO_CLIENT_ID";
  bot_a_username = getenv "BOT_A_USERNAME";
  bot_a_password = getenv "BOT_A_PASSWORD";
  bot_b_username = getenv "BOT_B_USERNAME";
  bot_b_password = getenv "BOT_B_PASSWORD";
  bot_b_user_id = getenv "BOT_B_USER_ID";
  heartbeat_url = getenv "HEARTBEAT_URL";
}

-- `loadConfig`, with `none` for ok=false.
unfoldable pub load_config : (String → String) → Option Config
unfolding any_empty
load_config getenv = let c = read_config getenv in if any_empty (required c) then none else some c

pub record PageResponse : Type 0 where
  pub id : String
  pub state : String

-- A request to the API with a bearer token, and a plain GET.
pub data Request : Type 0 where
  api_request : String → String → String → Option String → Request
  plain_get : String → Request

pub record Response : Type 0 where
  pub status : ℕ
  pub body : String

-- The stage of the run that failed. The loop's fuel has a value of its own.
pub data CanaryErr : Type 0 where
  aws_config login create_page no_page_id poll_page stuck cancelled ack_page heartbeat no_fuel :
      CanaryErr

pub data Outcome (A : Type 0) : Type 0 where
  good : A → Outcome A
  bad : CanaryErr → Outcome A

pub record Outside : Type 1 where
  pub State : Type 0
  pub getenv : String → String
  pub aws_config_ok : State → Bool × State
  -- the id token of a login, if the answer has one; an error is `none`
  pub initiate_auth : String → String → String → State → Option (Option String) × State
  pub now : State → Time
  pub unix_nano : Time → String
  pub marshal : Map String → Option String
  -- a JSON text read into a struct that already has values
  pub decode : String → PageResponse → Option PageResponse
  -- the request is built and done: `none` is an error of either
  pub do_request : Request → State → Option Response × State
  -- whether the timer fires before the context is done
  pub wait : ℕ → State → Bool × State

abbrev pub Step : Type 0 → Type 0 → Type 0
Step S A = S → Outcome A × S

abbrev pub return : {S A : Type 0} → Outcome A → Step S A
return r s = (r, s)

abbrev pub go_on : {S A B : Type 0} → (A → Step S B) → Outcome A × S → Outcome B × S
go_on f (good a, s) = f a s
go_on f (bad e, s) = (bad e, s)

infixl 5 ◌>>=◌
abbrev pub ◌>>=◌ : {S A B : Type 0} → Step S A → (A → Step S B) → Step S B
◌>>=◌ m f s = go_on f (m s)

abbrev id_token : Option (Option String) → Outcome String
id_token none = bad login
id_token (some none) = bad login
id_token (some (some token)) = good token

abbrev or_err : {A : Type 0} → CanaryErr → Option A → Outcome A
or_err e none = bad e
or_err e (some a) = good a

abbrev mapped : {S A B : Type 0} → (A → Outcome B) → A × S → Outcome B × S
mapped f (a, s) = (f a, s)

abbrev pub no_response : PageResponse
no_response = record { id = ""; state = "" }

-- How long the canary waits for the page to be pushed, and between two polls.
abbrev pub patience : ℕ
patience = 60 * second

abbrev pub pause : ℕ
pause = 2 * second

abbrev pub page_url : Config → String → String
page_url c id = (c.api_base_url ++ "/pages/") ++ id

module _ (o : Outside) where
  unfoldable pub cognito_login : String → String → String → Step o.State String
  cognito_login client_id username password s =
      mapped id_token (o.initiate_auth client_id username password s)

  -- The request's body, if there is one, is marshalled first.
  abbrev body_of : Option (Map String) → Option (Option String)
  body_of none = some none
  body_of (some m) = elim (o.marshal m) [ none ↦ none | some b ↦ some (some b) ]

  unfoldable pub do_api :
      CanaryErr → String → String → String → Option (Map String) → Step o.State Response
  do_api e method url token body s = elim (body_of body) [
    | none ↦ (bad e, s)
    | some b ↦ mapped (or_err e) (o.do_request (api_request method url token b) s)
  ]

  unfoldable pub decode_and_close : CanaryErr → Response → PageResponse → Step o.State PageResponse
  decode_and_close e resp v =
      if leb 300 resp.status then return (bad e) else return (or_err e (o.decode resp.body v))

  unfoldable pub drain_and_close : CanaryErr → Response → Step o.State ⊤
  drain_and_close e resp = if leb 300 resp.status then return (bad e) else return (good tt)

  abbrev pub create_body : Config → Time → Map String
  create_body c at =
      ("recipient_id", c.bot_b_user_id)
      ∷ ("message", "canary ping")
      ∷ ("idempotency_key", "canary-" ++ o.unix_nano at)
      ∷ []

  unfoldable pub create : Config → String → Step o.State PageResponse
  unfolding do_api decode_and_close
  create c token s =
      (do
        resp ←
            do_api create_page "POST" (c.api_base_url ++ "/pages") token
              (some (create_body c (o.now s)))
        decode_and_close create_page resp no_response)
        s

  abbrev is_pushed : PageResponse → Bool
  is_pushed last = str_eq last.state "pushed" || str_eq last.state "delivered"

  abbrev waited : Step o.State PageResponse → Bool × o.State → Outcome PageResponse × o.State
  waited k (true, s) = k s
  waited k (false, s) = (bad cancelled, s)

  -- One round after its answer: the loop is left, or the pause comes before the next round.
  unfoldable pub settle :
      Time → Step o.State PageResponse → PageResponse → Step o.State PageResponse
  settle deadline next last s =
      if is_pushed last
      then (good last, s)
      else if ltb deadline (o.now s)
      then (bad stuck, s)
      else waited next (o.wait pause s)

  -- The loop. Its fuel counts the rounds.
  unfoldable pub poll : ℕ → String → String → Time → PageResponse → Step o.State PageResponse
  unfolding do_api decode_and_close settle
  poll zero url token deadline last = return (bad no_fuel)
  poll (suc n) url token deadline last = do
    resp ← do_api poll_page "GET" url token none
    latest ← decode_and_close poll_page resp last
    settle deadline (poll n url token deadline latest) latest

  unfoldable pub ack : Config → String → String → Step o.State ⊤
  unfolding do_api drain_and_close
  ack c token id = do
    resp ←
        do_api ack_page "POST" (page_url c id ++ "/ack") token (some (("note", "canary ack") ∷ []))
    drain_and_close ack_page resp

  abbrev pub get_heartbeat : String → Step o.State Response
  get_heartbeat url s = mapped (or_err heartbeat) (o.do_request (plain_get url) s)

  unfoldable pub ping : String → Step o.State ⊤
  ping url =
      if str_eq url "" then return (good tt) else (do resp ← get_heartbeat url; return (good tt))

  abbrev has_id : PageResponse → Outcome String
  has_id page = if str_eq page.id "" then bad no_page_id else good page.id

  -- The rounds that the loop can make before its deadline.
  abbrev pub rounds : ℕ
  rounds = 32

  -- `run` from the created page on.
  unfoldable pub watch : Config → String → String → String → Step o.State ⊤
  unfolding poll ack ping
  watch c token_a token_b id s =
      (do
        last ← poll rounds (page_url c id) token_a (o.now s + patience) no_response
        acked ← ack c token_b id
        ping c.heartbeat_url)
        s

  abbrev configured : Bool → Outcome ⊤
  configured ok = if ok then good tt else bad aws_config

  unfoldable pub run_with : Config → Step o.State ⊤
  unfolding cognito_login create watch
  run_with c = do
    cfg ← λ s. mapped configured (o.aws_config_ok s)
    token_a ← cognito_login c.client_id c.bot_a_username c.bot_a_password
    token_b ← cognito_login c.client_id c.bot_b_username c.bot_b_password
    page ← create c token_a
    id ← return (has_id page)
    watch c token_a token_b id

  unfoldable pub run : Step o.State ⊤
  unfolding run_with
  run s = elim (load_config o.getenv) [ none ↦ (good tt, s) | some c ↦ run_with c s ]
