-- ===== src/Canary/Heartbeat.antt =====
-- What a run of backend/cmd/canary/main.go has done when it pings the heartbeat, and how it may end.
use alertme.Prelude.{◌≢◌, String, ⊤, Option, ◌∷◌}
use alertme.Canary.{Config, PageResponse, api_request, Response, good, bad, Outside, page_url}
use alertme.Canary.Log.{Log, IsQuiet, Created, later, IsToken, Worked}
use alertme.Canary.Polling.{Post, IsPolled}

IsQuiet-keep :
    (method url token : String) (body : Option String) (x : Option Response) (log : Log)
    → IsQuiet log
    → IsQuiet ((api_request method url token body, x) ∷ log)
unfolding IsQuiet
IsQuiet-keep method url token body x log q = q

module _ (o : Outside) (c : Config) where
  -- No heartbeat so far, and the page is created.
  abbrev Underway : String → String → Log → Type 0
  Underway token id log = IsQuiet log × Created o c token id log

  Underway-keep :
      (token id method url bearer : String) (body : Option String) (x : Option Response) (log : Log)
      → Underway token id log
      → Underway token id ((api_request method url bearer body, x) ∷ log)
  Underway-keep token id method url bearer body x log (q, made_by) =
      (IsQuiet-keep method url bearer body x log q, later _ log made_by)

  abbrev Acked : Post o ⊤
  Acked (good _) log = Worked o c log
  Acked (bad e) log = IsQuiet log

  -- The page of this identifier, created with bot A's token, is polled with it.
  abbrev OwnPolled : String → String → PageResponse → Log → Type 0
  OwnPolled id token = IsPolled o (Underway token id) (Underway-keep token id) (page_url c id) token

  abbrev LoggedIn : String → String → Post o String
  LoggedIn username password (good token) log = IsToken o c username password token × IsQuiet log
  LoggedIn username password (bad e) log = IsQuiet log

  -- The created page, and its identifier.
  abbrev Made : String → Post o PageResponse
  Made token (good page) log = IsQuiet log × (page.id ≢ "" → Created o c token page.id log)
  Made token (bad e) log = IsQuiet log

  abbrev Named : String → Post o String
  Named token (good id) log = Underway token id log
  Named token (bad e) log = IsQuiet log
