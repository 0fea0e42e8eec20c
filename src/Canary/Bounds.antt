-- ===== src/Canary/Bounds.antt =====
-- How long the loop of backend/cmd/canary/main.go polls.
use Prim.Native.String.{◌++◌}
use alertme.Prelude.{
  [], ◌∷◌, ℕ, zero, suc, ◌+◌, ◌*◌, ◌≤◌, ◌<◌, ◌≡◌, ◌≢◌, refl, sym, ap, ◌∙◌, subst, inl, inr, String,
  Bool, true, false, ltb, leb, Bool-cases, Option-cases, Option, none, some, Map, str_eq, arith,
}
use alertme.Model.{Time}
use alertme.Canary.{
  Config, PageResponse, Request, Response, CanaryErr, no_fuel, poll_page, create_page, ack_page,
  heartbeat, Outcome, good, bad, Outside, Step, go_on, load_config, cognito_login, mapped, or_err,
  id_token, body_of, do_api, decode_and_close, drain_and_close, create, is_pushed, waited, settle,
  poll, pause, page_url, create_body, no_response, get_heartbeat, ack, ping, has_id, watch,
  configured, run_with, run,
}

-- A clock that never goes back, and that a timer which fires has moved.
pub record IsClocked (o : Outside) : Type 0 where
  pub forward : (r : Request) (s : o.State) → o.now s ≤ o.now (o.do_request r s).1
  pub waits : (d : ℕ) (s : o.State) → (o.wait d s).0 ≡ true → o.now s + d ≤ o.now (o.wait d s).1

-- A step that ends, whichever way, before fuel does.
abbrev Decided : {S A : Type 0} → Outcome A × S → Type 0
Decided m = m.0 ≢ bad no_fuel

go_on-Decided :
    {S A B : Type 0} (f : A → Step S B) (m : Outcome A × S)
    → Decided m
    → ((a : A) (s : S) → m.1 ≡ s → Decided (f a s))
    → Decided (go_on f m)
go_on-Decided f (good a, s) h k = k a s refl
go_on-Decided f (bad e, s) h k = λ p. h (ap bad (bad_inj p))
  where
    bad_inj : {B : Type 0} {d e : CanaryErr} → ◌≡◌ {A = Outcome B} (bad d) (bad e) → d ≡ e
    bad_inj p = cc

mapped-Decided :
    {S A B : Type 0} (f : A → Outcome B)
    → ((a : A) → f a ≢ bad no_fuel)
    → (m : A × S) → Decided (mapped f m)
mapped-Decided f h (a, s) = h a

mapped-forward : {S A B : Type 0} (f : A → Outcome B) (m : A × S) → (mapped f m).1 ≡ m.1
mapped-forward f (a, s) = refl

or_err-Decided :
    {A : Type 0} (e : CanaryErr) (v : Option A) → e ≢ no_fuel → or_err e v ≢ bad no_fuel
or_err-Decided e none h = λ p. h cc
or_err-Decided e (some a) h = λ p. cc

good-Decided : {A : Type 0} (a : A) → good a ≢ bad no_fuel
good-Decided a p = cc

module _ (o : Outside) where
  do_api-Decided :
      (e : CanaryErr) (method url token : String) (body : Option (Map String)) (s : o.State)
      → e ≢ no_fuel
      → Decided (do_api o e method url token body s)
  unfolding do_api
  do_api-Decided e method url token body s h = of (body_of o body)
    where
      of :
          (b : Option (Option String))
          → Decided {S = o.State} {A = Response} (elim b [
            | none ↦ (bad e, s)
            | some c ↦ mapped (or_err e) (o.do_request (Request.api_request method url token c) s)
          ])
      of none = λ p. h cc
      of (some c) =
          mapped-Decided (or_err e) (λ v. or_err-Decided e v h)
            (o.do_request (Request.api_request method url token c) s)

  do_api-forward :
      IsClocked o
      → (e : CanaryErr) (method url token : String) (body : Option (Map String)) (s : o.State)
      → o.now s ≤ o.now (do_api o e method url token body s).1
  unfolding do_api
  do_api-forward clocked e method url token body s = of (body_of o body)
    where
      of :
          (b : Option (Option String))
          → o.now s
            ≤ o.now
                (elim b as (λ _. Outcome Response × o.State) [
                  | none ↦ (bad e, s)
                  | some c ↦
                      mapped (or_err e) (o.do_request (Request.api_request method url token c) s)
                ]).1
      of none = omega arith
      of (some c) =
          rw
            (mapped-forward (or_err {A = Response} e)
              (o.do_request (Request.api_request method url token c) s))
            (clocked.forward (Request.api_request method url token c) s)

  decode_and_close-Decided :
      (e : CanaryErr) (resp : Response) (v : PageResponse) (s : o.State)
      → e ≢ no_fuel
      → Decided (decode_and_close o e resp v s)
  unfolding decode_and_close
  decode_and_close-Decided e resp v s h = elim (Bool-cases (leb 300 resp.status)) [
    | inl a ↦ rw a (λ p. h cc)
    | inr a ↦ rw a (or_err-Decided e (o.decode resp.body v) h)
  ]

  decode_and_close-state :
      (e : CanaryErr) (resp : Response) (v : PageResponse) (s : o.State)
      → (decode_and_close o e resp v s).1 ≡ s
  unfolding decode_and_close
  decode_and_close-state e resp v s = elim (Bool-cases (leb 300 resp.status)) [
    | inl a ↦ rw a refl
    | inr a ↦ rw a refl
  ]

  drain_and_close-Decided :
      (e : CanaryErr) (resp : Response) (s : o.State)
      → e ≢ no_fuel
      → Decided (drain_and_close o e resp s)
  unfolding drain_and_close
  drain_and_close-Decided e resp s h = elim (Bool-cases (leb 300 resp.status)) [
    | inl a ↦ rw a (λ p. h cc)
    | inr a ↦ rw a (λ p. cc)
  ]

  waited-Decided :
      (next : Step o.State PageResponse) (m : Bool × o.State)
      → (m.0 ≡ true → Decided (next m.1))
      → Decided (waited o next m)
  waited-Decided next (true, s) h = h refl
  waited-Decided next (false, s) h = λ p. cc

  settle-Decided :
      (deadline : Time) (next : Step o.State PageResponse) (last : PageResponse) (s : o.State)
      → (o.now s ≤ deadline → (o.wait pause s).0 ≡ true → Decided (next (o.wait pause s).1))
      → Decided (settle o deadline next last s)
  unfolding settle
  settle-Decided deadline next last s h = elim (Bool-cases (is_pushed o last)) [
    | inl a ↦ rw a (λ p. cc)
    | inr a ↦ elim (Bool-cases (ltb deadline (o.now s))) [
      | inl b ↦ rw (a, b) (λ p. cc)
      | inr b ↦ rw (a, b) (waited-Decided next (o.wait pause s) (h (ground arith)))
    ]
  ]

  round-Decided :
      IsClocked o
      → (n : ℕ) (url token : String) (deadline : Time) (last : PageResponse) (s : o.State)
      → ((latest : PageResponse) (t : o.State)
          → o.now s ≤ o.now t
          → o.now t ≤ deadline
          → (o.wait pause t).0 ≡ true
          → Decided (poll o n url token deadline latest (o.wait pause t).1))
      → Decided (poll o (suc n) url token deadline last s)
  unfolding poll
  round-Decided clocked n url token deadline last s next =
      let past = do_api-forward clocked poll_page "GET" url token none s in
      go_on-Decided _ _ (do_api-Decided poll_page "GET" url token none s (λ p. cc)) (λ resp s₁ e₁.
        let same = sym (decode_and_close-state poll_page resp last s₁) in
        go_on-Decided _ _ (decode_and_close-Decided poll_page resp last s₁ (λ p. cc))
          (λ latest s₂ e₂.
            settle-Decided deadline (poll o n url token deadline latest) latest s₂
              (next latest s₂ (subst (λ x. o.now s ≤ o.now x) (e₁ ∙ same ∙ e₂) past))))

  -- The rounds that are left outlast the deadline.
  poll-Decided :
      IsClocked o
      → (n : ℕ) (url token : String) (deadline : Time) (last : PageResponse) (s : o.State)
      → deadline < o.now s + n * pause
      → Decided (poll o (suc n) url token deadline last s)
  poll-Decided clocked zero url token deadline last s h =
      round-Decided clocked zero url token deadline last s
        (λ latest t past before fires. absurd (omega arith))
  poll-Decided clocked (suc m) url token deadline last s h =
      round-Decided clocked (suc m) url token deadline last s (λ latest t past before fires.
        let moved = clocked.waits pause t fires in
        poll-Decided clocked m url token deadline latest _ (omega arith))

  ack-Decided : (c : Config) (token id : String) (s : o.State) → Decided (ack o c token id s)
  unfolding ack
  ack-Decided c token id s =
      go_on-Decided _ _
        (do_api-Decided ack_page "POST" (page_url c id ++ "/ack") token
          (some (("note", "canary ack") ∷ [])) s (λ p. cc))
        (λ resp t e. drain_and_close-Decided ack_page resp t (λ p. cc))

  get_heartbeat-Decided : (url : String) (s : o.State) → Decided (get_heartbeat o url s)
  get_heartbeat-Decided url s =
      mapped-Decided (or_err heartbeat) (λ v. or_err-Decided heartbeat v (λ p. cc))
        (o.do_request (Request.plain_get url) s)

  ping-Decided : (url : String) (s : o.State) → Decided (ping o url s)
  unfolding ping
  ping-Decided url s = elim (Bool-cases (str_eq url "")) [
    | inl a ↦ rw a (good-Decided tt)
    | inr a ↦ rw a (
        go_on-Decided (λ resp t. (good tt, t)) (get_heartbeat o url s) (get_heartbeat-Decided url s)
          (λ resp t e. good-Decided tt))
  ]

  watch-Decided :
      IsClocked o → (c : Config) (a b id : String) (s : o.State) → Decided (watch o c a b id s)
  unfolding watch
  watch-Decided clocked c a b id s =
      go_on-Decided _ _ (poll-Decided clocked 31 _ a _ _ s (omega arith)) (λ last t e.
        go_on-Decided _ _ (ack-Decided c b id t) (λ acked u f. ping-Decided c.heartbeat_url u))

  create-Decided : (c : Config) (token : String) (s : o.State) → Decided (create o c token s)
  unfolding create
  create-Decided c token s =
      go_on-Decided _ _
        (do_api-Decided create_page "POST" (c.api_base_url ++ "/pages") token
          (some (create_body o c (o.now s))) s (λ p. cc))
        (λ resp t e. decode_and_close-Decided create_page resp no_response t (λ p. cc))

  id_token-Decided : (v : Option (Option String)) → id_token v ≢ bad no_fuel
  id_token-Decided none = λ p. cc
  id_token-Decided (some none) = λ p. cc
  id_token-Decided (some (some t)) = λ p. cc

  cognito_login-Decided : (c u p : String) (s : o.State) → Decided (cognito_login o c u p s)
  unfolding cognito_login
  cognito_login-Decided c u p s = mapped-Decided id_token id_token-Decided (o.initiate_auth c u p s)

  has_id-Decided : (page : PageResponse) → has_id o page ≢ bad no_fuel
  has_id-Decided page = elim (Bool-cases (str_eq page.id "")) [
    | inl a ↦ rw a (λ p. cc)
    | inr a ↦ rw a (λ p. cc)
  ]

  configured-Decided : (b : Bool) → configured o b ≢ bad no_fuel
  configured-Decided true = λ p. cc
  configured-Decided false = λ p. cc

  run_with-Decided : IsClocked o → (c : Config) (s : o.State) → Decided (run_with o c s)
  unfolding run_with
  run_with-Decided clocked c s =
      go_on-Decided _ _ (mapped-Decided (configured o) configured-Decided (o.aws_config_ok s))
        (λ cfg s₁ e₁. go_on-Decided _ _ (cognito_login-Decided _ _ _ s₁) (λ a s₂ e₂.
          go_on-Decided _ _ (cognito_login-Decided _ _ _ s₂) (λ b s₃ e₃.
            go_on-Decided _ _ (create-Decided c a s₃) (λ page s₄ e₄.
              go_on-Decided _ _ (has_id-Decided page)
                (λ id s₅ e₅. watch-Decided clocked c a b id s₅)))))

-- The loop of a run ends: with a clock that never goes back, and that a timer which fires has moved
-- by its duration, the 32 rounds that the model allows it are never used up, whatever the API
-- answers.
pub run-ends : (o : Outside) → IsClocked o → (s : o.State) → (run o s).0 ≢ bad no_fuel
unfolding run
run-ends o clocked s = elim (Option-cases (load_config o.getenv)) [
  | inl a ↦ rw (run, a) (λ p. cc)
  | inr (c, a) ↦ rw (run, a) (run_with-Decided o clocked c s)
]
