-- ===== src/Canary/Polling.antt =====
-- The requests of the loop of backend/cmd/canary/main.go.
use alertme.Prelude.{
  ℕ, zero, suc, ◌<◌, ◌≡◌, ◌⊎◌, refl, sym, ◌∙◌, subst, inl, inr, String, Bool, true, false, ltb, leb,
  Bool-cases, Option-cases, Option, none, some, ◌∷◌, Map, str_eq, eq_iff, arith,
}
use alertme.Model.{Time}
use alertme.Canary.{
  PageResponse, api_request, Response, CanaryErr, poll_page, Outcome, good, bad, Outside, Step,
  go_on, mapped, or_err, body_of, do_api, decode_and_close, is_pushed, waited, settle, poll, pause,
}
use alertme.Canary.Log.{Log, noted, beside, logged}

module _ (o : Outside) where
  abbrev pub Post : Type 0 → Type 1
  Post A = Outcome A → Log → Type 0

  abbrev pub Meets : {A : Type 0} → Post A → Outcome A × (o.State × Log) → Type 0
  Meets P m = P m.0 m.1.1

  -- A step after another one.
  pub go_on-Meets :
      {A B : Type 0} (P : Post A) (Q : Post B) (f : A → Step (o.State × Log) B)
      (m : Outcome A × (o.State × Log))
      → Meets P m
      → ((e : CanaryErr) (log : Log) → P (bad e) log → Q (bad e) log)
      → ((a : A) (s : o.State) (log : Log) → P (good a) log → Meets Q (f a (s, log)))
      → Meets Q (go_on f m)
  go_on-Meets P Q f (good a, (s, log)) h bads goods = goods a s log h
  go_on-Meets P Q f (bad e, (s, log)) h bads goods = bads e log h

-- What holds of the log, and goes on to hold after each request to the API.
module _ (o : Outside) (Kept : Log → Type 0)
    (keep : (method url token : String) (body : Option String) (x : Option Response) (log : Log)
      → Kept log
      → Kept ((api_request method url token body, x) ∷ log)) where
  -- A request to the API.
  abbrev pub Asked : String → String → String → Log → Post o Response
  Asked method url token before (good resp) log =
      (b : Option String) × (log ≡ (api_request method url token b, some resp) ∷ before)
  Asked method url token before (bad e) log = Kept log

  requested :
      (e : CanaryErr) (method url token : String) (b : Option String) (log : Log)
      → Kept log
      → (m : Option Response × o.State)
      → Meets o
          (Asked method url token log)
          (mapped (or_err e) (noted (api_request method url token b) log m))
  requested e method url token b log q (none, s) = keep method url token b none log q
  requested e method url token b log q (some resp, s) = (b, refl)

  pub do_api-Asked :
      (e : CanaryErr) (method url token : String) (body : Option (Map String)) (s : o.State)
      (log : Log)
      → Kept log
      → Meets o (Asked method url token log) (do_api (logged o) e method url token body (s, log))
  unfolding do_api
  do_api-Asked e method url token body s log q = of (body_of o body)
    where
      of :
          (b : Option (Option String))
          → Meets o
              (Asked method url token log)
              (elim b as (λ _. Outcome Response × (o.State × Log)) [
                | none ↦ (bad e, (s, log))
                | some c ↦ mapped (or_err e) (
                    noted
                      (api_request method url token c)
                      log
                      (o.do_request (api_request method url token c) s))
              ])
      of none = q
      of (some c) =
          requested e method url token c log q (o.do_request (api_request method url token c) s)

  abbrev Decoded : Response → PageResponse → Log → Post o PageResponse
  Decoded resp v before (good page) log =
      (log ≡ before) × ((resp.status < 300) × (o.decode resp.body v ≡ some page))
  Decoded resp v before (bad e) log = log ≡ before

  decode_and_close-Decoded :
      (e : CanaryErr) (resp : Response) (v : PageResponse) (s : o.State) (log : Log)
      → Meets o (Decoded resp v log) (decode_and_close (logged o) e resp v (s, log))
  unfolding decode_and_close
  decode_and_close-Decoded e resp v s log = elim (Bool-cases (leb 300 resp.status)) [
    | inl a ↦ rw a refl
    | inr a ↦ elim (Option-cases (o.decode resp.body v)) [
      | inl b ↦ rw (a, b) refl
      | inr (page, b) ↦ rw (a, b) (refl, (ground arith, b))
    ]
  ]

  -- The last request was a poll that found the page pushed or delivered.
  pub record IsPolled (url token : String) (page : PageResponse) (log : Log) : Type 0 where
    pub body : Option String
    pub resp : Response
    pub before : PageResponse
    pub rest : Log
    pub last : log ≡ (api_request "GET" url token body, some resp) ∷ rest
    pub fine : resp.status < 300
    pub reads : o.decode resp.body before ≡ some page
    pub is_on : (page.state ≡ "pushed") ⊎ (page.state ≡ "delivered")
    pub kept : Kept rest

  abbrev pub Polled : String → String → Post o PageResponse
  Polled url token (good page) log = IsPolled url token page log
  Polled url token (bad e) log = Kept log

  waited-Meets :
      (P : Post o PageResponse) (next : Step (o.State × Log) PageResponse) (log : Log)
      → ((e : CanaryErr) → P (bad e) log)
      → ((s : o.State) → Meets o P (next (s, log)))
      → (m : Bool × o.State) → Meets o P (waited (logged o) next (beside log m))
  waited-Meets P next log bads goods (true, s) = goods s
  waited-Meets P next log bads goods (false, s) = bads _

  is_pushed_cases :
      (page : PageResponse)
      → is_pushed o page ≡ true
      → (page.state ≡ "pushed") ⊎ (page.state ≡ "delivered")
  is_pushed_cases page h = elim (Bool-cases (str_eq page.state "pushed")) [
    | inl a ↦ inl (ground (arith, eq_iff page.state "pushed"))
    | inr a ↦ inr (ground (arith, eq_iff page.state "delivered"))
  ]

  pub Kept-step :
      (method url token : String) (body : Option String) (x : Option Response) (rest log : Log)
      → Kept rest
      → log ≡ (api_request method url token body, x) ∷ rest
      → Kept log
  Kept-step method url token body x rest log q e =
      subst Kept (sym e) (keep method url token body x rest q)

  settle-Polled :
      (url token : String) (deadline : Time) (next : Step (o.State × Log) PageResponse)
      (page before : PageResponse) (body : Option String) (resp : Response) (s : o.State)
      (rest log : Log)
      → log ≡ (api_request "GET" url token body, some resp) ∷ rest
      → resp.status < 300
      → o.decode resp.body before ≡ some page
      → Kept rest
      → ((t : o.State) → Meets o (Polled url token) (next (t, log)))
      → Meets o (Polled url token) (settle (logged o) deadline next page (s, log))
  unfolding settle
  settle-Polled url token deadline next page before body resp s rest log e fine reads q goes =
      let still = Kept-step "GET" url token body (some resp) rest log q e in
      elim (Bool-cases (is_pushed o page)) [
        | inl a ↦ rw a (record {
          body = body;
          resp = resp;
          before = before;
          rest = rest;
          last = e;
          fine = fine;
          reads = reads;
          is_on = is_pushed_cases page a;
          kept = q;
        })
        | inr a ↦ elim (Bool-cases (ltb deadline (o.now s))) [
          | inl b ↦ rw (a, b) still
          | inr b ↦
              rw (a, b)
                (waited-Meets (Polled url token) next log (λ _. still) goes (o.wait pause s))
        ]
      ]

  pub poll-Polled :
      (n : ℕ) (url token : String) (deadline : Time) (last : PageResponse) (s : o.State) (log : Log)
      → Kept log
      → Meets o (Polled url token) (poll (logged o) n url token deadline last (s, log))
  unfolding poll
  poll-Polled zero url token deadline last s log q = q
  poll-Polled (suc n) url token deadline last s log q =
      go_on-Meets o (Asked "GET" url token log) (Polled url token) _ _
        (do_api-Asked poll_page "GET" url token none s log q) (λ e log₁ p. p)
        (λ resp s₁ log₁ (b, e₁).
          go_on-Meets o (Decoded resp last log₁) (Polled url token) _ _
            (decode_and_close-Decoded poll_page resp last s₁ log₁)
            (λ e log₂ same. Kept-step "GET" url token b (some resp) log log₂ q (same ∙ e₁))
            (λ page s₂ log₂ (same, (fine, reads)).
              settle-Polled url token deadline (poll (logged o) n url token deadline page) page last
                b resp s₂ log log₂ (same ∙ e₁) fine reads q
                (λ t.
                  poll-Polled n url token deadline page t log₂
                    (Kept-step "GET" url token b (some resp) log log₂ q (same ∙ e₁)))))
