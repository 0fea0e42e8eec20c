-- ===== src/Dynamo/Refinement/Steps.antt =====
-- The store's contract of backend/internal/store/store.go, command by command, in both stores.
use alertme.Prelude.{String, ◌≡◌, ◌<◌, some, [], ◌∷◌, lookup}
use alertme.Model.{Time, User, Invite, Pairing, Page}
use alertme.Store.{
  StoreCmd, Payload, Result, put_user, get_user, put_device, list_devices, delete_device,
  create_invite, accept_invite, get_pairing, list_pairings, block_pairing, create_page, get_page,
  get_page_by_idempotency_key, ack_page, set_page_state, append_event, list_events, list_pages_for,
}
use alertme.Store.Exec.{exec}
use alertme.Store.Fake.{Store, row}
use alertme.Dynamo.Keys.{
  TimeFormat, user_pk, device_sk, pair_sk, invite_pk, page_pk, idem_pk, event_sk, sk_meta,
  sk_profile,
}
use alertme.Dynamo.Items.{new_user_record, new_device_record, new_invite_record, new_event_record}
use alertme.Dynamo.Items.RoundTrip.{IsTimeFormat, IsDated, year_10000}
use alertme.Dynamo.Table.{Table, attribute_exists, state_in_condition}
use alertme.Dynamo.Pages.{active_states}
use alertme.Dynamo.Laws.{TableLaws}
use alertme.Dynamo.Exec.{perform}
use alertme.Dynamo.Refinement.{Represents}
use alertme.Dynamo.Refinement.Calls.{Simulates, IsFound, FitsAt}
use alertme.Dynamo.Refinement.Updates.{FitsUpdate}
use alertme.Dynamo.Refinement.People.{
  put_user-Simulates, get_user-Simulates, put_device-Simulates, create_invite-Simulates,
  get_pairing-Simulates,
}
use alertme.Dynamo.Refinement.Removed.{
  block_fields, delete_device-Simulates, block_pairing-Simulates,
}
use alertme.Dynamo.Refinement.Pages.{
  get_page-Simulates, get_page_by_idempotency_key-Simulates, append_event-Simulates,
}
use alertme.Dynamo.Refinement.Pages.Moves.{
  conflicting, ack_fields, state_fields, ack_page-Simulates, set_page_state-Simulates,
}
use alertme.Dynamo.Refinement.Pages.Creation.{FitsCreation, create_page-Simulates}

-- The commands that name their items, but AcceptInvite: not the lists, and an update of a state from
-- at least one state. Their calls are within the limits of the service, and their reads find what was
-- last written.
unfoldable pub IsCovered :
    (tf : TimeFormat) (t : Table) (laws : TableLaws t) → t.State → Store → StoreCmd → Type 0
IsCovered tf t laws x s (put_user u) =
    FitsAt t laws (user_pk u.id) sk_profile (new_user_record tf u)
IsCovered tf t laws x s (get_user id) = IsFound t laws x (user_pk id) sk_profile
IsCovered tf t laws x s (put_device d) =
    FitsAt t laws (user_pk d.user_id) (device_sk d.token) (new_device_record tf d)
IsCovered tf t laws x s (list_devices user_id) = ⊥
IsCovered tf t laws x s (delete_device user_id token) =
    laws.key_fits (user_pk user_id) (device_sk token)
IsCovered tf t laws x s (create_invite i) =
    FitsAt t laws (invite_pk i.code) sk_meta (new_invite_record tf i)
IsCovered tf t laws x s (accept_invite code u) = ⊥
IsCovered tf t laws x s (get_pairing a b) = IsFound t laws x (user_pk a) (pair_sk b)
IsCovered tf t laws x s (list_pairings user_id) = ⊥
IsCovered tf t laws x s (block_pairing a b) =
    FitsUpdate t laws tf x (user_pk a) (pair_sk b) block_fields (attribute_exists "PK")
IsCovered tf t laws x s (create_page p) = FitsCreation tf t laws p
IsCovered tf t laws x s (get_page id) = IsFound t laws x (page_pk id) sk_meta
IsCovered tf t laws x s (get_page_by_idempotency_key key) =
    IsFound t laws x (idem_pk key) sk_meta
    × ((id : String) → lookup key s.idem ≡ some id → IsFound t laws x (page_pk id) sk_meta)
IsCovered tf t laws x s (ack_page id note at) =
    FitsUpdate t laws tf x (page_pk id) sk_meta (ack_fields tf note at)
      (state_in_condition "state" active_states)
IsCovered tf t laws x s (set_page_state id [] to attempt) = ⊥
IsCovered tf t laws x s (set_page_state id (st ∷ from) to attempt) =
    FitsUpdate t laws tf x (page_pk id) sk_meta (state_fields to attempt)
      (state_in_condition "state" (st ∷ from))
IsCovered tf t laws x s (append_event e) =
    FitsAt t laws (page_pk e.page_id) (event_sk tf e.at e.kind) (new_event_record tf e)
IsCovered tf t laws x s (list_events page_id) = ⊥
IsCovered tf t laws x s (list_pages_for user_id since) = ⊥

-- The stored times are before the year 10000.
pub record IsDatedStore (s : Store) : Type 0 where
  pub users_dated :
      (id : String) (u : User) → lookup id s.users ≡ some u → u.created_at < year_10000
  pub pairings_dated :
      (a b : String) (p : Pairing)
      → lookup b (row a s.pairings) ≡ some p
      → p.created_at < year_10000
  pub invites_dated :
      (code : String) (i : Invite) → lookup code s.invites ≡ some i → i.expires_at < year_10000
  pub pages_dated : (id : String) (p : Page) → lookup id s.pages ≡ some p → IsDated p

-- What the in-memory store answers, with a conflict for a page that is not there when a command
-- changes its state.
unfoldable pub told : (c : StoreCmd) → Result (Payload c) × Store → Result (Payload c) × Store
told (ack_page id note at) m = conflicting m
told (set_page_state id from to attempt) m = conflicting m
told _ m = m

pub perform-Simulates :
    (tf : TimeFormat) (t : Table) (laws : TableLaws t)
    → IsTimeFormat tf
    → (checked at : Time) (c : StoreCmd) (x : t.State) (s : Store) → IsCovered tf t laws x s c
    → IsDatedStore s
    → Represents tf (laws.view x) s
    → Simulates t laws tf (perform tf t checked at c x) (told c (exec checked at c s))
unfolding perform exec told IsCovered
perform-Simulates tf t laws time checked at (put_user u) x s h d r =
    put_user-Simulates tf t laws u x s h r
perform-Simulates tf t laws time checked at (get_user id) x s h d r =
    get_user-Simulates tf t laws time id x s h (d.users_dated id) r
perform-Simulates tf t laws time checked at (put_device v) x s h d r =
    put_device-Simulates tf t laws v x s h r
perform-Simulates tf t laws time checked at (list_devices user_id) x s h d r = absurd h
perform-Simulates tf t laws time checked at (delete_device user_id token) x s h d r =
    delete_device-Simulates tf t laws user_id token x s h r
perform-Simulates tf t laws time checked at (create_invite i) x s h d r =
    create_invite-Simulates tf t laws i x s h r
perform-Simulates tf t laws time checked at (accept_invite code u) x s h d r = absurd h
perform-Simulates tf t laws time checked at (get_pairing a b) x s h d r =
    get_pairing-Simulates tf t laws time a b x s h (d.pairings_dated a b) r
perform-Simulates tf t laws time checked at (list_pairings user_id) x s h d r = absurd h
perform-Simulates tf t laws time checked at (block_pairing a b) x s h d r =
    block_pairing-Simulates tf t laws a b x s h r
perform-Simulates tf t laws time checked at (create_page p) x s h d r =
    create_page-Simulates tf t laws p x s h r
perform-Simulates tf t laws time checked at (get_page id) x s h d r =
    get_page-Simulates tf t laws time id x s h (d.pages_dated id) r
perform-Simulates tf t laws time checked at (get_page_by_idempotency_key key) x s h d r =
    get_page_by_idempotency_key-Simulates tf t laws time key x s h.0 h.1 d.pages_dated r
perform-Simulates tf t laws time checked at (ack_page id note when) x s h d r =
    ack_page-Simulates tf t laws id note when x s h r
perform-Simulates tf t laws time checked at (set_page_state id [] to attempt) x s h d r = absurd h
perform-Simulates tf t laws time checked at (set_page_state id (st ∷ from) to attempt) x s h d r =
    set_page_state-Simulates tf t laws id st from to attempt x s h r
perform-Simulates tf t laws time checked at (append_event e) x s h d r =
    append_event-Simulates tf t laws e x s h r
perform-Simulates tf t laws time checked at (list_events page_id) x s h d r = absurd h
perform-Simulates tf t laws time checked at (list_pages_for user_id since) x s h d r = absurd h
