-- ===== src/Store/Fake.antt =====
-- backend/internal/store/fake/store.go: the in-memory store. Each method holds the mutex from its
-- first line to its return, so it is one function from the store to its result and the next store.
-- `time.Now()` inside a method is an argument.
pub mod Sort
pub mod Creation
pub mod Invariant
pub mod Frame
pub mod Pages
pub mod Timeline
pub mod Pairings
pub mod Listing
pub mod Invites
use alertme.Prelude.{
  ℕ, String, ⊤, Bool, true, false, not, ◌&&◌, Option, none, some, List, [], ◌∷◌, ◌++◌, ◌==◌, ltb,
  leb, length, take, str_eq, if◌then◌else◌, Map, lookup, insert, delete, values,
}
use alertme.Int.{ℤ}
use alertme.Model.{
  Time, PageState, User, Device, Pairing, Invite, Page, PageEvent, acked, active, blocked, state_eq,
  is_active,
}
use alertme.Store.Fake.Sort.{is_listed, select, newest_first, page_limit}
use alertme.Store.{Result, ok, err, not_found, conflict, other}

pub record Store : Type 0 where
  pub users : Map User
  pub devices : Map (Map Device)  -- user id, token
  pub pairings : Map (Map Pairing)  -- user id, peer id
  pub invites : Map Invite
  pub pages : Map Page
  pub events : Map (List PageEvent)
  pub idem : Map String  -- idempotency key, page id

-- `New`
unfoldable pub empty : Store
empty = record {
  users = [];
  devices = [];
  pairings = [];
  invites = [];
  pages = [];
  events = [];
  idem = [];
}

-- `m[k]` where a missing key reads as the zero value, an empty map or slice.
unfoldable pub row {ℓ} : {V : Type ℓ} → String → Map (List V) → List V
row k m = elim (lookup k m) [ none ↦ [] | some l ↦ l ]

abbrev pub found {ℓ} : {A : Type ℓ} → Option A → Store → Result A × Store
found none s = (err not_found, s)
found (some a) s = (ok a, s)

unfoldable pub put_user : User → Store → Result ⊤ × Store
put_user u s = (ok tt, record s { users = insert u.id u s.users })

unfoldable pub get_user : String → Store → Result User × Store
get_user id s = found (lookup id s.users) s

unfoldable pub put_device : Device → Store → Result ⊤ × Store
unfolding row
put_device d s = (
  ok tt,
  record s { devices = insert d.user_id (insert d.token d (row d.user_id s.devices)) s.devices },
)

unfoldable pub list_devices : String → Store → Result (List Device) × Store
unfolding row
list_devices user_id s = (ok (values (row user_id s.devices)), s)

-- `delete` on the inner map; a user without devices has none, and nothing is written.
abbrev pub drop_device : String → String → Option (Map Device) → Map (Map Device) → Map (Map Device)
drop_device user_id token none devices = devices
drop_device user_id token (some inner) devices = insert user_id (delete token inner) devices

unfoldable pub delete_device : String → String → Store → Result ⊤ × Store
delete_device user_id token s =
    (ok tt, record s { devices = drop_device user_id token (lookup user_id s.devices) s.devices })

unfoldable pub create_invite : Invite → Store → Result ⊤ × Store
create_invite inv s = (ok tt, record s { invites = insert inv.code inv s.invites })

-- The two copies of a pairing, and the writes of them.
unfoldable pub pairing_of : String → String → String → Time → Pairing
pairing_of user_id peer_id peer_name at = record {
  user_id = user_id;
  peer_id = peer_id;
  peer_name = peer_name;
  status = active;
  created_at = at;
}

unfoldable pub put_pairing : Pairing → Map (Map Pairing) → Map (Map Pairing)
unfolding row
put_pairing p pairings = insert p.user_id (insert p.peer_id p (row p.user_id pairings)) pairings

abbrev join : String → User → Invite → Option User → Time → Store → Result Pairing × Store
join code accepter inv none at s = (err other, s)
join code accepter inv (some creator) at s =
    let mine = pairing_of accepter.id inv.creator_id creator.display_name at in
    let theirs = pairing_of inv.creator_id accepter.id accepter.display_name at in
    (
      ok mine,
      record s {
        invites = delete code s.invites;
        pairings = put_pairing theirs (put_pairing mine s.pairings);
      },
    )

abbrev accept : String → User → Option Invite → Time → Time → Store → Result Pairing × Store
accept code accepter none checked at s = (err not_found, s)
accept code accepter (some inv) checked at s =
    if ltb checked inv.expires_at
    then join code accepter inv (lookup inv.creator_id s.users) at s
    else (err not_found, s)

-- `checked` and `at` are the two readings of the clock: the expiry test's and the pairings'.
unfoldable pub accept_invite : String → User → Time → Time → Store → Result Pairing × Store
unfolding pairing_of put_pairing
accept_invite code accepter checked at s = accept code accepter (lookup code s.invites) checked at s

unfoldable pub get_pairing : String → String → Store → Result Pairing × Store
unfolding row
get_pairing user_id peer_id s = found (lookup peer_id (row user_id s.pairings)) s

unfoldable pub list_pairings : String → Store → Result (List Pairing) × Store
unfolding row
list_pairings user_id s = (ok (values (row user_id s.pairings)), s)

abbrev block : String → String → Option Pairing → Store → Result ⊤ × Store
block user_id peer_id none s = (err not_found, s)
block user_id peer_id (some p) s = (
  ok tt,
  record s {
    pairings =
        insert user_id (insert peer_id (record p { status = blocked }) (row user_id s.pairings))
          s.pairings;
  },
)

unfoldable pub block_pairing : String → String → Store → Result ⊤ × Store
unfolding row
block_pairing user_id peer_id s = block user_id peer_id (lookup peer_id (row user_id s.pairings)) s

abbrev is_some {ℓ} : {A : Type ℓ} → Option A → Bool
is_some none = false
is_some (some a) = true

-- The append to a page's timeline.
unfoldable pub append_event : PageEvent → Store → Result ⊤ × Store
unfolding row
append_event e s =
    (ok tt, record s { events = insert e.page_id (row e.page_id s.events ++ e ∷ []) s.events })

unfoldable pub created_event : Page → PageEvent
created_event p = record { page_id = p.id; kind = "created"; detail = ""; at = p.created_at }

unfoldable pub create_page : Page → Store → Result ⊤ × Store
unfolding row created_event append_event
create_page p s =
    if is_some (lookup p.id s.pages)
    then (err conflict, s)
    else if is_some (lookup p.idempotency_key s.idem)
    then (err conflict, s)
    else append_event (created_event p)
        (record s { pages = insert p.id p s.pages; idem = insert p.idempotency_key p.id s.idem })

abbrev pub page_of_key : Option String → Store → Result Page × Store
page_of_key none s = (err not_found, s)
page_of_key (some id) s = found (lookup id s.pages) s

unfoldable pub get_page_by_idempotency_key : String → Store → Result Page × Store
get_page_by_idempotency_key key s = page_of_key (lookup key s.idem) s

unfoldable pub get_page : String → Store → Result Page × Store
get_page id s = found (lookup id s.pages) s

unfoldable pub ack : String → Time → Page → Page
ack note at p = record p { state = acked; acked_at = some at; ack_note = note }

abbrev ack_found : String → String → Time → Option Page → Store → Result ⊤ × Store
ack_found id note at none s = (err not_found, s)
ack_found id note at (some p) s =
    if is_active p.state
    then (ok tt, record s { pages = insert id (ack note at p) s.pages })
    else (err conflict, s)

unfoldable pub ack_page : String → String → Time → Store → Result ⊤ × Store
unfolding ack
ack_page id note at s = ack_found id note at (lookup id s.pages) s

-- The loop over `from`.
unfoldable pub allowed : PageState → List PageState → Bool
allowed st [] = false
allowed st (f ∷ from) = let rest = allowed st from in if state_eq st f then true else rest

unfoldable pub moved : PageState → ℤ → Page → Page
moved to attempt p = record p { state = to; attempt = attempt }

abbrev set_found : String → List PageState → PageState → ℤ → Option Page → Store → Result ⊤ × Store
set_found id from to attempt none s = (err not_found, s)
set_found id from to attempt (some p) s =
    if not (allowed p.state from)
    then (err conflict, s)
    else (ok tt, record s { pages = insert id (moved to attempt p) s.pages })

unfoldable pub set_page_state : String → List PageState → PageState → ℤ → Store → Result ⊤ × Store
unfolding moved
set_page_state id from to attempt s = set_found id from to attempt (lookup id s.pages) s

unfoldable pub list_events : String → Store → Result (List PageEvent) × Store
unfolding row
list_events page_id s = (ok (row page_id s.events), s)

unfoldable pub list_pages_for : String → Time → Store → Result (List Page) × Store
list_pages_for user_id since s =
    let out = newest_first (select (is_listed user_id since) (values s.pages)) in
    (ok (if ltb page_limit (length out) then take page_limit out else out), s)
