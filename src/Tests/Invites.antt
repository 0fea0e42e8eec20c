-- ===== src/Tests/Invites.antt =====
-- Carol accepts Alice's invite.
use alertme.Prelude.{◌≡◌, ◌≢◌, refl, false, true, some, [], ◌∷◌, eq_iff, lookup}
use alertme.Model.{Time, User, Invite}
use alertme.Store.{ok, err, not_found}
use alertme.Store.Fake.{Store, accept_invite, pairing_of}
use alertme.Store.Fake.Pairings.{copy_of}
use alertme.Store.Fake.Invites.{accept_invite_pairs}
use alertme.Tests.{page, store_with}

abbrev carol : User
carol = record { id = "carol"; display_name = "Carol"; created_at = 0 }

abbrev alice_user : User
alice_user = record { id = "alice"; display_name = "Alice"; created_at = 0 }

abbrev invite : Invite
invite = record { code = "ABCDEFGH"; creator_id = "alice"; expires_at = 100 }

abbrev inviting : Store
inviting = record (store_with page) { invites = ("ABCDEFGH", invite) ∷ [] }

carol-not_alice : carol.id ≢ invite.creator_id
carol-not_alice e = let h : false ≡ true = (eq_iff "carol" "alice").1 e in cc

accept_invite_pairs_example :
    ((accept_invite "ABCDEFGH" carol 99 99 inviting).0 ≡ ok (pairing_of "carol" "alice" "Alice" 99))
    × (copy_of "carol" "alice" (accept_invite "ABCDEFGH" carol 99 99 inviting).1.pairings
        ≡ some (pairing_of "carol" "alice" "Alice" 99))
    × (copy_of "alice" "carol" (accept_invite "ABCDEFGH" carol 99 99 inviting).1.pairings
        ≡ some (pairing_of "alice" "carol" "Carol" 99))
    × ((who : User) (checked later : Time)
        → accept_invite "ABCDEFGH" who checked later
            (accept_invite "ABCDEFGH" carol 99 99 inviting).1
          ≡ (err not_found, (accept_invite "ABCDEFGH" carol 99 99 inviting).1))
unfolding lookup pairing_of
accept_invite_pairs_example =
    accept_invite_pairs "ABCDEFGH" carol invite alice_user 99 99 inviting refl refl refl
      carol-not_alice
