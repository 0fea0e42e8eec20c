-- ===== src/Api/Contacts.antt =====
-- backend/internal/api/handlers.go: the handlers of /devices, /invites and /pairings.
pub mod Blocking
use alertme.Prelude.{
  ℕ, ◌+◌, ◌*◌, String, not, ◌&&◌, ◌||◌, Option, none, some, ⊤, List, str_eq, if◌then◌else◌,
}
use alertme.Model.{Time, User, Device, Invite, Pairing}
use alertme.Nag.{minute}
use alertme.Store.{
  Result, ok, err, not_found, conflict, other, get_user, put_user, put_device, create_invite,
  accept_invite, list_pairings, block_pairing,
}
use alertme.Prog.{Prog, ret, perform, ask, now, random_invite_code, ◌>>=◌}
use alertme.Api.Identity.{Identity, display_name_for}
use alertme.Api.Response.{Response, respond, text, unauthorized, map_store_err}
use alertme.Api.Response

abbrev pub invite_validity : ℕ
invite_validity = 7 * 24 * 60 * minute

unfoldable pub new_user : Identity → Time → User
new_user id at = record { id = id.user_id; display_name = display_name_for id; created_at = at }

abbrev pub stored : User → Result ⊤ → Prog (Result User)
stored u (ok _) = ret (ok u)
stored u (err e) = ret (err e)

abbrev pub or_new : Identity → Result User → Prog (Result User)
or_new id (ok u) = ret (ok u)
or_new id (err not_found) = do
  at ← perform now
  r ← ask (put_user (new_user id at))
  stored (new_user id at) r
or_new id (err conflict) = ret (err conflict)
or_new id (err other) = ret (err other)

unfoldable pub ensure_user : Identity → Prog (Result User)
unfolding ◌>>=◌
ensure_user id = do r ← ask (get_user id.user_id); or_new id r

pub record DeviceBody : Type 0 where
  pub token : String
  pub platform : String

-- What is answered where nothing but success is to be told.
abbrev pub done : Result ⊤ → Prog Response
done (ok _) = ret (respond 204 Response.empty)
done (err e) = ret (map_store_err e)

abbrev pub put_device_for : Identity → DeviceBody → Result User → Prog Response
put_device_for id body (err e) = ret (map_store_err e)
put_device_for id body (ok u) = do
  at ← perform now
  r ← ask (
      put_device (record {
        user_id = id.user_id;
        token = body.token;
        platform = body.platform;
        updated_at = at;
      }))
  done r

unfoldable pub handle_register_device : Option Identity → Option DeviceBody → Prog Response
unfolding ◌>>=◌
handle_register_device none body = ret unauthorized
handle_register_device (some id) none = ret (respond 400 (text "invalid body"))
handle_register_device (some id) (some body) =
    if str_eq body.token ""
      || not (str_eq body.platform "ios") && not (str_eq body.platform "android")
    then ret (respond 400 (text "token and platform (ios|android) are required"))
    else (do u ← ensure_user id; put_device_for id body u)

abbrev pub invited : Invite → Result ⊤ → Prog Response
invited inv (ok _) = ret (respond 201 (Response.invite inv.code inv.expires_at))
invited inv (err e) = ret (map_store_err e)

abbrev pub new_invite : Identity → String → Time → Invite
new_invite id code at = record {
  code = code;
  creator_id = id.user_id;
  expires_at = at + invite_validity;
}

unfoldable pub handle_create_invite : Option Identity → Prog Response
unfolding ◌>>=◌
handle_create_invite none = ret unauthorized
handle_create_invite (some id) = do
  code ← perform (random_invite_code 10)
  at ← perform now
  r ← ask (create_invite (new_invite id code at))
  invited (new_invite id code at) r

abbrev pub accepted : Identity → Result Pairing → Prog Response
accepted id (err not_found) = ret (respond 404 (text "invite not found or expired"))
accepted id (err conflict) = ret (respond 404 (text "invite not found or expired"))
accepted id (err other) = ret (map_store_err other)
accepted id (ok p) =
    if str_eq p.peer_id id.user_id
    then ret (respond 400 (text "cannot pair with yourself"))
    else ret (respond 200 (Response.pairing p))

abbrev pub accept_as : Identity → String → Result User → Prog Response
accept_as id code (err e) = ret (map_store_err e)
accept_as id code (ok accepter) = do r ← ask (accept_invite code accepter); accepted id r

unfoldable pub handle_accept_invite : Option Identity → String → Prog Response
unfolding ◌>>=◌
handle_accept_invite none code = ret unauthorized
handle_accept_invite (some id) code = do u ← ensure_user id; accept_as id code u

abbrev pub paired_with : Result (List Pairing) → Prog Response
paired_with (ok ps) = ret (respond 200 (Response.pairings ps))
paired_with (err e) = ret (map_store_err e)

unfoldable pub handle_list_pairings : Option Identity → Prog Response
unfolding ◌>>=◌
handle_list_pairings none = ret unauthorized
handle_list_pairings (some id) = do r ← ask (list_pairings id.user_id); paired_with r

unfoldable pub handle_block_pairing : Option Identity → String → Prog Response
unfolding ◌>>=◌
handle_block_pairing none peer_id = ret unauthorized
handle_block_pairing (some id) peer_id = do r ← ask (block_pairing id.user_id peer_id); done r
