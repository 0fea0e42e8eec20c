-- ===== src/Canary/Log.antt =====
-- What a run of backend/cmd/canary/main.go sends, and how it may end, told apart from its code.
use Prim.Native.String.{◌++◌}
use alertme.Prelude.{◌<◌, ◌≡◌, ◌≢◌, ◌⊎◌, String, ⊤, Option, none, some, List, [], ◌∷◌}
use alertme.Canary.{
  Config, PageResponse, Request, api_request, plain_get, Response, CanaryErr, heartbeat, Outcome,
  good, bad, Outside, load_config, page_url, no_response,
}

-- The requests so far and their answers, the last one first.
abbrev pub Log : Type 0
Log = List (Request × Option Response)

abbrev pub noted : {S : Type 0} → Request → Log → Option Response × S → Option Response × (S × Log)
noted r log (x, s) = (x, (s, (r, x) ∷ log))

abbrev pub beside : {A S : Type 0} → Log → A × S → A × (S × Log)
beside log (a, s) = (a, (s, log))

-- The same world, which keeps a log.
abbrev pub logged : Outside → Outside
logged o = record {
  State = o.State × Log;
  getenv = o.getenv;
  aws_config_ok = λ s. beside s.1 (o.aws_config_ok s.0);
  initiate_auth = λ c u p s. beside s.1 (o.initiate_auth c u p s.0);
  now = λ s. o.now s.0;
  unix_nano = o.unix_nano;
  marshal = o.marshal;
  decode = o.decode;
  do_request = λ r s. noted r s.1 (o.do_request r s.0);
  wait = λ d s. beside s.1 (o.wait d s.0);
}

-- No heartbeat so far.
unfoldable pub IsQuiet : Log → Type 0
IsQuiet [] = ⊤
IsQuiet ((api_request method url token body, x) ∷ log) = IsQuiet log
IsQuiet ((plain_get url, x) ∷ log) = ⊥

-- Cognito gives the token to a login with these credentials.
abbrev pub IsToken : Outside → Config → String → String → String → Type 0
IsToken o c username password token =
    (s : o.State) × ((o.initiate_auth c.client_id username password s).0 ≡ some (some token))

abbrev pub IsTokenOfA : Outside → Config → String → Type 0
IsTokenOfA o c token = IsToken o c c.bot_a_username c.bot_a_password token

abbrev pub IsTokenOfB : Outside → Config → String → Type 0
IsTokenOfB o c token = IsToken o c c.bot_b_username c.bot_b_password token

-- The page was created by a request with the token, whose answer names it.
pub data Created (o : Outside) (c : Config) (token id : String) : Log → Type 0 where
  made :
      (body : Option String) (resp : Response) (page : PageResponse) (log : Log)
      → resp.status < 300
      → o.decode resp.body no_response ≡ some page
      → page.id ≡ id
      → id ≢ ""
      → Created o c token id
          ((api_request "POST" (c.api_base_url ++ "/pages") token body, some resp) ∷ log)
  later :
      (x : Request × Option Response) (log : Log)
      → Created o c token id log
      → Created o c token id (x ∷ log)

-- The page was created by bot A, seen pushed or delivered by bot A, and then acknowledged by bot B;
-- no heartbeat came before.
pub data Worked (o : Outside) (c : Config) : Log → Type 0 where
  worked :
      (id token_a token_b : String) (body_a body_b : Option String) (polled acked : Response)
      (before page : PageResponse) (log : Log)
      → IsTokenOfA o c token_a
      → IsTokenOfB o c token_b
      → polled.status < 300
      → o.decode polled.body before ≡ some page
      → (page.state ≡ "pushed") ⊎ (page.state ≡ "delivered")
      → acked.status < 300
      → IsQuiet log
      → Created o c token_a id log
      → Worked o c (
          (api_request "POST" (page_url c id ++ "/ack") token_b body_b, some acked)
          ∷ (api_request "GET" (page_url c id) token_a body_a, some polled)
          ∷ log)

-- The ends of a run.
pub data Report (o : Outside) : Outcome ⊤ → Log → Type 0 where
  disabled : load_config o.getenv ≡ none → Report o (good tt) []
  broken :
      (c : Config) (e : CanaryErr) (log : Log)
      → load_config o.getenv ≡ some c
      → IsQuiet log
      → Report o (bad e) log
  no_url :
      (c : Config) (log : Log)
      → load_config o.getenv ≡ some c
      → c.heartbeat_url ≡ ""
      → Worked o c log
      → Report o (good tt) log
  pinged :
      (c : Config) (log : Log) (resp : Response)
      → load_config o.getenv ≡ some c
      → Worked o c log
      → Report o (good tt) ((plain_get c.heartbeat_url, some resp) ∷ log)
  unreached :
      (c : Config) (log : Log)
      → load_config o.getenv ≡ some c
      → Worked o c log
      → Report o (bad heartbeat) ((plain_get c.heartbeat_url, none) ∷ log)
