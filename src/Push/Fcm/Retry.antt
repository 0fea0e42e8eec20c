-- ===== src/Push/Fcm/Retry.antt =====
-- What a call of `Send` in backend/internal/push/fcm/fcm.go may do on the wire, told apart from its
-- loop.
use alertme.Prelude.{
  ℕ, ◌+◌, ◌*◌, refl, ◌≤◌, ◌<◌, ◌≡◌, ◌≢◌, ◌⊎◌, inl, inr, String, Bool, true, false, ◌||◌, ◌==◌, leb,
  Bool-cases, Option-cases, none, some, List, [], ◌∷◌, arith,
}
use alertme.Model.{Device}
use alertme.Push.{Notification}
use alertme.Push.Fcm.{
  Request, Exchange, no_response, unread, answered, FcmErr, marshal_error, request_error, cancelled,
  transport, read, bad_status, FcmResult, sent, gone, failed, Verdict, final, again, Http,
  fcm_message, send_url, is_unregistered, judge, judged, exchanged, millisecond, waited, jittered,
  before_attempt, request, attempts, send,
}

-- What the log notes: an exchange, or a pause of a duration, which ends by its timer or, if not, by
-- the context.
pub data Event : Type 0 where
  exchange : Request → Exchange → Event
  pause : ℕ → (by_timer : Bool) → Event

-- The exchanges and pauses so far, the last one first.
abbrev pub Log : Type 0
Log = List Event

abbrev noted : {S : Type 0} → Request → Log → Exchange × S → Exchange × (S × Log)
noted r log (x, s) = (x, (s, exchange r x ∷ log))

abbrev noted_pause : {S : Type 0} → ℕ → Log → Bool × S → Bool × (S × Log)
noted_pause d log (b, s) = (b, (s, pause d b ∷ log))

abbrev beside : {A S : Type 0} → Log → A × S → A × (S × Log)
beside log (a, s) = (a, (s, log))

-- The same client, which keeps a log.
abbrev pub logged : Http → Http
logged h = record {
  State = h.State × Log;
  itoa = h.itoa;
  marshal = h.marshal;
  unmarshal_error = h.unmarshal_error;
  takes_url = h.takes_url;
  do_request = λ r s. noted r s.1 (h.do_request r s.0);
  intn = λ n s. beside s.1 (h.intn n s.0);
  wait = λ d s. noted_pause d s.1 (h.wait d s.0);
}

-- An answer that is neither a success nor the end of the token.
pub record IsRejected (h : Http) (status : ℕ) (body : String) : Type 0 where
  pub not_200 : status ≢ 200
  pub not_404 : status ≢ 404
  pub not_410 : status ≢ 410
  pub registered : is_unregistered h.unmarshal_error body ≡ false

pub data Judges (h : Http) : Exchange → Verdict → Type 0 where
  no_answer : Judges h no_response (again transport)
  no_body : Judges h unread (again read)
  accepted :
      (status : ℕ) (body : String) → status ≡ 200 → Judges h (answered status body) (final sent)
  token_gone :
      (status : ℕ) (body : String)
      → status ≢ 200
      → (status ≡ 404) ⊎ ((status ≡ 410) ⊎ (is_unregistered h.unmarshal_error body ≡ true))
      → Judges h (answered status body) (final gone)
  transient :
      (status : ℕ) (body : String)
      → IsRejected h status body
      → (status ≡ 429) ⊎ (500 ≤ status)
      → Judges h (answered status body) (again (bad_status status body))
  refused :
      (status : ℕ) (body : String)
      → IsRejected h status body
      → status ≢ 429
      → status < 500
      → Judges h (answered status body) (final (failed (bad_status status body)))

-- A pause of 200 milliseconds and some of jitter.
abbrev pub IsLong : ℕ → Type 0
IsLong d = (k : ℕ) × (d ≡ 200 * millisecond + k * millisecond)

-- How a call may end, with the exchanges and pauses it has made.
pub data Story (h : Http) (project : String) (device : Device) (n : Notification)
    : FcmResult → Log → Type 0 where
  unmarshalled :
      h.marshal (fcm_message h.itoa device n) ≡ none
      → Story h project device n (failed marshal_error) []
  unbuilt :
      h.takes_url (send_url project) ≡ false → Story h project device n (failed request_error) []
  once :
      (r : Request) (x : Exchange) (end : FcmResult)
      → h.marshal (fcm_message h.itoa device n) ≡ some r.body
      → Judges h x (final end)
      → Story h project device n end (exchange r x ∷ [])
  cut_short :
      (r : Request) (x : Exchange) (e : FcmErr) (d : ℕ)
      → IsLong d
      → h.marshal (fcm_message h.itoa device n) ≡ some r.body
      → Judges h x (again e)
      → Story h project device n (failed cancelled) (pause d false ∷ exchange r x ∷ [])
  twice :
      (r : Request) (x y : Exchange) (e : FcmErr) (end : FcmResult) (d : ℕ)
      → IsLong d
      → h.marshal (fcm_message h.itoa device n) ≡ some r.body
      → Judges h x (again e)
      → Judges h y (final end)
      → Story h project device n end (exchange r y ∷ pause d true ∷ exchange r x ∷ [])
  given_up :
      (r : Request) (x y : Exchange) (e f : FcmErr) (d : ℕ)
      → IsLong d
      → h.marshal (fcm_message h.itoa device n) ≡ some r.body
      → Judges h x (again e)
      → Judges h y (again f)
      → Story h project device n (failed f) (exchange r y ∷ pause d true ∷ exchange r x ∷ [])

gone_cases :
    (status : ℕ) (known : Bool)
    → (status == 404 || status == 410 || known) ≡ true
    → (status ≡ 404) ⊎ ((status ≡ 410) ⊎ (known ≡ true))
gone_cases status known b = elim (Bool-cases (status == 404)) [
  | inl c ↦ inl (ground arith)
  | inr c ↦ elim (Bool-cases (status == 410)) [
    | inl d ↦ inr (inl (ground arith))
    | inr d ↦ inr (inr (ground arith))
  ]
]

busy_cases :
    (status : ℕ) → (status == 429 || leb 500 status) ≡ true → (status ≡ 429) ⊎ (500 ≤ status)
busy_cases status b = elim (Bool-cases (status == 429)) [
  | inl c ↦ inl (ground arith)
  | inr c ↦ inr (ground arith)
]

rejected :
    (h : Http) (status : ℕ) (body : String)
    → (status == 200) ≡ false
    → (status == 404 || status == 410 || is_unregistered h.unmarshal_error body) ≡ false
    → IsRejected h status body
rejected h status body a b = record {
  not_200 = ground arith;
  not_404 = ground arith;
  not_410 = ground arith;
  registered = ground arith;
}

judge-Judges : (h : Http) (x : Exchange) → Judges h x (judge h.unmarshal_error x)
unfolding judge
judge-Judges h no_response = no_answer
judge-Judges h unread = no_body
judge-Judges h (answered status body) =
    let known = is_unregistered h.unmarshal_error body in
    elim (Bool-cases (status == 200)) [
      | inl a ↦ rw a (accepted status body (ground arith))
      | inr a ↦ elim (Bool-cases (status == 404 || status == 410 || known)) [
        | inl b ↦ rw (a, b) (token_gone status body (ground arith) (gone_cases status known b))
        | inr b ↦ elim (Bool-cases (status == 429 || leb 500 status)) [
          | inl c ↦
              rw (a, b, c)
                (transient status body (rejected h status body a b) (busy_cases status c))
          | inr c ↦
              rw (a, b, c)
                (refused status body (rejected h status body a b) (ground arith) (ground arith))
        ]
      ]
    ]

module _ (h : Http) (project : String) (device : Device) (n : Notification) where
  abbrev Told : FcmResult × (h.State × Log) → Type 0
  Told m = Story h project device n m.0 m.1.1

  abbrev IsBody : String → Type 0
  IsBody body = h.marshal (fcm_message h.itoa device n) ≡ some body

  abbrev post : String → Request
  post body = record { url = send_url project; content_type = "application/json"; body = body }

  second_judged :
      (body : String) (x y : Exchange) (e : FcmErr) (s : h.State) (d : ℕ)
      → IsLong d
      → IsBody body
      → Judges h x (again e)
      → (v : Verdict) → Judges h y v
      → Told (
          judged
            (logged h)
            (λ f s'. (failed f, s'))
            v
            (s, exchange (post body) y ∷ pause d true ∷ exchange (post body) x ∷ []))
  second_judged body x y e s d l b j (final end) k = twice (post body) x y e end d l b j k
  second_judged body x y e s d l b j (again f) k = given_up (post body) x y e f d l b j k

  second_exchanged :
      (body : String) (x : Exchange) (e : FcmErr) (d : ℕ)
      → IsLong d
      → IsBody body
      → Judges h x (again e)
      → (m : Exchange × h.State)
      → Told (
          exchanged
            (logged h)
            (λ f s'. (failed f, s'))
            (noted (post body) (pause d true ∷ exchange (post body) x ∷ []) m))
  unfolding exchanged
  second_exchanged body x e d l b j (y, s) = second_judged body x y e s d l b j _ (judge-Judges h y)

  paused :
      (body : String) (x : Exchange) (e : FcmErr) (d : ℕ)
      → IsLong d
      → IsBody body
      → h.takes_url (send_url project) ≡ true
      → Judges h x (again e)
      → (m : Bool × h.State)
      → Told (
          waited
            (logged h)
            (request (logged h) (send_url project) body (λ f s'. (failed f, s')))
            (noted_pause d (exchange (post body) x ∷ []) m))
  unfolding request
  paused body x e d l b u j (true, s) =
      rw u (second_exchanged body x e d l b j (h.do_request (post body) s))
  paused body x e d l b u j (false, s) = cut_short (post body) x e d l b j

  drawn :
      (body : String) (x : Exchange) (e : FcmErr)
      → IsBody body
      → h.takes_url (send_url project) ≡ true
      → Judges h x (again e)
      → (m : ℕ × h.State)
      → Told (
          jittered
            (logged h)
            (request (logged h) (send_url project) body (λ d s'. (failed d, s')))
            (beside (exchange (post body) x ∷ []) m))
  drawn body x e b u j (k, s) = paused body x e _ (k, refl) b u j (h.wait _ s)

  first_judged :
      (body : String) (x : Exchange) (s : h.State)
      → IsBody body
      → h.takes_url (send_url project) ≡ true
      → (v : Verdict) → Judges h x v
      → Told (
          judged
            (logged h)
            (λ e s'. attempts (logged h) (send_url project) body 1 1 (failed e) s')
            v
            (s, exchange (post body) x ∷ []))
  unfolding attempts before_attempt
  first_judged body x s b u (final end) j = once (post body) x end b j
  first_judged body x s b u (again e) j = drawn body x e b u j (h.intn 250 s)

  first_exchanged :
      (body : String)
      → IsBody body
      → h.takes_url (send_url project) ≡ true
      → (m : Exchange × h.State)
      → Told (
          exchanged
            (logged h)
            (λ e s'. attempts (logged h) (send_url project) body 1 1 (failed e) s')
            (noted (post body) [] m))
  unfolding exchanged
  first_exchanged body b u (x, s) = first_judged body x s b u _ (judge-Judges h x)

-- A call of `Send` on a client that logs its exchanges and pauses ends in one of six ways. It fails
-- before any request, because the message does not marshal or the URL is not taken; or its first
-- exchange decides; or the first exchange is one to try again (no answer, no body, 429, 500 or
-- more) and a pause of 200 ms and some jitter comes after it. Where the context ends that pause, the
-- call fails with the context's error and makes no other request; where the timer ends it, the
-- second exchange decides, or it too is to be tried again and its error is returned. So it makes
-- two requests at most, both the same, and `ErrTokenGone` comes only of an answer 404 or 410 or one
-- that names UNREGISTERED, nil only of an answer 200.
pub send-Story :
    (h : Http) (project : String) (device : Device) (n : Notification) (s : h.State)
    → let m = send (logged h) project device n (s, []) in Story h project device n m.0 m.1.1
unfolding send attempts before_attempt request
send-Story h project device n s = elim (Option-cases (h.marshal (fcm_message h.itoa device n))) [
  | inl a ↦ rw (send, a) (unmarshalled a)
  | inr (body, a) ↦ elim (Bool-cases (h.takes_url (send_url project))) [
    | inl u ↦ rw (send, a, u) (first_exchanged h project device n body a u (h.do_request _ s))
    | inr u ↦ rw (send, a, u) (unbuilt u)
  ]
]
