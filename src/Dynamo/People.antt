-- ===== src/Dynamo/People.antt =====
-- backend/internal/store/dynamo/store.go: the methods on users, devices, invites and pairings.
use alertme.Prelude.{String, ltb, ⊤, List, [], ◌∷◌, if◌then◌else◌}
use alertme.Int.{pos}
use alertme.Model.{Time, User, Device, Pairing, Invite, active, blocked}
use alertme.Store.{ok, err, not_found}
use alertme.Dynamo.Keys.{TimeFormat, user_pk, device_sk, pair_sk, invite_pk, sk_profile, sk_meta}
use alertme.Dynamo.Items.{
  text, number, Field, string, field, unix, status_name, new_user_record, to_user,
  new_device_record, to_device, new_pairing_record, to_pairing, new_invite_record, to_invite,
}
use alertme.Dynamo.Table.{
  Table, Method, return, ◌>>=◌, db_call, wrapped, failed_check_as, is_condition_failure,
  is_transact_condition_failure, marshalled, found, decode_all, attribute_exists, greater, both,
  delete_if, put,
}

-- `var rec userRecord` and so on: the tags, with zero values.
abbrev pub user_rec : List Field
user_rec =
    string "PK" ""
    ∷ string "SK" ""
    ∷ string "id" ""
    ∷ string "display_name" ""
    ∷ string "created_at" ""
    ∷ []

abbrev pub device_rec : List Field
device_rec =
    string "PK" ""
    ∷ string "SK" ""
    ∷ string "user_id" ""
    ∷ string "token" ""
    ∷ string "platform" ""
    ∷ string "updated_at" ""
    ∷ []

abbrev pub pairing_rec : List Field
pairing_rec =
    string "PK" ""
    ∷ string "SK" ""
    ∷ string "user_id" ""
    ∷ string "peer_id" ""
    ∷ string "peer_name" ""
    ∷ string "status" ""
    ∷ string "created_at" ""
    ∷ []

abbrev pub invite_rec : List Field
invite_rec =
    string "PK" ""
    ∷ string "SK" ""
    ∷ string "code" ""
    ∷ string "creator_id" ""
    ∷ string "expires_at" ""
    ∷ field "ttl" (number (pos 0))
    ∷ []

module _ (tf : TimeFormat) (t : Table) where
  -- A record put without a condition.
  unfoldable pub put_record : List Field → Method t.State ⊤
  put_record r = do item ← return (marshalled t r); db_call wrapped (t.put_item item)

  unfoldable pub put_user : User → Method t.State ⊤
  unfolding put_record
  put_user u = put_record (new_user_record tf u)

  unfoldable pub get_user : String → Method t.State User
  get_user id = do
    out ← db_call wrapped (t.get_item (user_pk id) sk_profile)
    return (found t user_rec (to_user tf) out)

  unfoldable pub put_device : Device → Method t.State ⊤
  unfolding put_record
  put_device d = put_record (new_device_record tf d)

  unfoldable pub list_devices : String → Method t.State (List Device)
  list_devices user_id = do
    items ← db_call wrapped (t.query (user_pk user_id) "DEVICE#")
    return (decode_all t device_rec (to_device tf) items)

  unfoldable pub delete_device : String → String → Method t.State ⊤
  delete_device user_id token = db_call wrapped (t.delete_item (user_pk user_id) (device_sk token))

  unfoldable pub create_invite : Invite → Method t.State ⊤
  unfolding put_record
  create_invite inv = put_record (new_invite_record tf inv)

  unfoldable pub get_invite : String → Method t.State Invite
  get_invite code = do
    out ← db_call wrapped (t.get_item (invite_pk code) sk_meta)
    return (found t invite_rec (to_invite tf) out)

  -- The transaction: the invite is deleted if it is there and its `ttl` is later than now, and both
  -- copies of the pairing are put.
  unfoldable pub exchange : String → Time → Pairing → Pairing → Method t.State Pairing
  exchange code at accepter_pairing creator_pairing = do
    accepter_item ← return (marshalled t (new_pairing_record tf accepter_pairing))
    creator_item ← return (marshalled t (new_pairing_record tf creator_pairing))
    written ← db_call (failed_check_as not_found is_transact_condition_failure) (
        t.transact_write (
          delete_if (invite_pk code) sk_meta
            (both (attribute_exists "PK") (greater "ttl" (unix at)))
          ∷ put accepter_item
          ∷ put creator_item
          ∷ []))
    return (ok accepter_pairing)

  -- `checked` and `at` are the two readings of the clock.
  unfoldable pub accept_unexpired : String → User → Time → Time → Invite → Method t.State Pairing
  unfolding get_user exchange
  accept_unexpired code accepter checked at inv =
      if ltb checked inv.expires_at
      then (do
        creator ← get_user inv.creator_id
        exchange code at
            (record {
              user_id = accepter.id;
              peer_id = inv.creator_id;
              peer_name = creator.display_name;
              status = active;
              created_at = at;
            })
            (record {
              user_id = inv.creator_id;
              peer_id = accepter.id;
              peer_name = accepter.display_name;
              status = active;
              created_at = at;
            }))
      else return (err not_found)

  unfoldable pub accept_invite : String → User → Time → Time → Method t.State Pairing
  unfolding get_invite accept_unexpired
  accept_invite code accepter checked at = do
    inv ← get_invite code
    accept_unexpired code accepter checked at inv

  unfoldable pub get_pairing : String → String → Method t.State Pairing
  get_pairing user_id peer_id = do
    out ← db_call wrapped (t.get_item (user_pk user_id) (pair_sk peer_id))
    return (found t pairing_rec (to_pairing tf) out)

  unfoldable pub list_pairings : String → Method t.State (List Pairing)
  list_pairings user_id = do
    items ← db_call wrapped (t.query (user_pk user_id) "PAIR#")
    return (decode_all t pairing_rec (to_pairing tf) items)

  unfoldable pub block_pairing : String → String → Method t.State ⊤
  block_pairing user_id peer_id = db_call (failed_check_as not_found is_condition_failure) (
      t.update_item (user_pk user_id) (pair_sk peer_id)
        (("status", text (status_name blocked)) ∷ []) (attribute_exists "PK"))
