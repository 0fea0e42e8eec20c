-- ===== src/Api/Contract/Contacts.antt =====
-- The handlers of /devices, /invites and /pairings keep the contract of the store.
use alertme.Prelude.{String, ⊤, List, Option, none, some}
use alertme.Model.{User, Invite, Pairing}
use alertme.Store.{Result, ok, err, not_found, conflict, other}
use alertme.Prog.{◌>>=◌}
use alertme.Prog.Calls.{Calls, stops, calls, calls_rules, ObeysCall}
use alertme.Api.Identity.{Identity}
use alertme.Api.Contacts.{
  DeviceBody, ensure_user, or_new, stored, done, put_device_for, handle_register_device,
  handle_create_invite, accept_as, accepted, handle_accept_invite, handle_list_pairings,
  handle_block_pairing, invited, new_invite, paired_with,
}

stored-Calls : (u : User) (r : Result ⊤) → Calls ObeysCall (stored u r)
stored-Calls u (ok _) = stops _
stored-Calls u (err e) = stops _

or_new-Calls : (id : Identity) (r : Result User) → Calls ObeysCall (or_new id r)
unfolding ◌>>=◌
or_new-Calls id (ok u) = stops _
or_new-Calls id (err not_found) = search (calls_rules, stored-Calls)
or_new-Calls id (err conflict) = stops _
or_new-Calls id (err other) = stops _

ensure_user-Calls : (id : Identity) → Calls ObeysCall (ensure_user id)
unfolding ensure_user
ensure_user-Calls id = search (calls_rules, or_new-Calls)

done-Calls : (r : Result ⊤) → Calls ObeysCall (done r)
done-Calls (ok _) = stops _
done-Calls (err e) = stops _

put_device_for-Calls :
    (id : Identity) (b : DeviceBody) (r : Result User) → Calls ObeysCall (put_device_for id b r)
unfolding ◌>>=◌
put_device_for-Calls id b (ok u) = search (calls_rules, done-Calls)
put_device_for-Calls id b (err e) = stops _

pub register_device-Calls :
    (id : Option Identity) (b : Option DeviceBody) → Calls ObeysCall (handle_register_device id b)
unfolding handle_register_device
register_device-Calls none b = stops _
register_device-Calls (some id) none = stops _
register_device-Calls (some id) (some b) =
    search (calls_rules, ensure_user-Calls, put_device_for-Calls)

pub invite-Calls : (id : Option Identity) → Calls ObeysCall (handle_create_invite id)
unfolding handle_create_invite ◌>>=◌
invite-Calls none = stops _
invite-Calls (some id) =
    calls _ _ tt (λ code. calls _ _ tt (λ at. calls _ _ tt λ r. go (new_invite id code at) r))
  where
    go : (i : Invite) (r : Result ⊤) → Calls ObeysCall (invited i r)
    go i (ok _) = stops _
    go i (err e) = stops _

accepted-Calls : (id : Identity) (r : Result Pairing) → Calls ObeysCall (accepted id r)
accepted-Calls id (ok p) = search calls_rules
accepted-Calls id (err not_found) = stops _
accepted-Calls id (err conflict) = stops _
accepted-Calls id (err other) = stops _

accept_as-Calls :
    (id : Identity) (code : String) (r : Result User) → Calls ObeysCall (accept_as id code r)
unfolding ◌>>=◌
accept_as-Calls id code (ok u) = search (calls_rules, accepted-Calls)
accept_as-Calls id code (err e) = stops _

pub accept_invite-Calls :
    (id : Option Identity) (code : String) → Calls ObeysCall (handle_accept_invite id code)
unfolding handle_accept_invite
accept_invite-Calls none code = stops _
accept_invite-Calls (some id) code = search (calls_rules, ensure_user-Calls, accept_as-Calls)

pub list_pairings-Calls : (id : Option Identity) → Calls ObeysCall (handle_list_pairings id)
unfolding handle_list_pairings
list_pairings-Calls none = stops _
list_pairings-Calls (some id) = calls _ _ tt go
  where
    go : (r : Result (List Pairing)) → Calls ObeysCall (paired_with r)
    go (ok ps) = stops _
    go (err e) = stops _

pub block_pairing-Calls :
    (id : Option Identity) (peer : String) → Calls ObeysCall (handle_block_pairing id peer)
unfolding handle_block_pairing
block_pairing-Calls none peer = stops _
block_pairing-Calls (some id) peer = search (calls_rules, done-Calls)
