-- ===== src/Tests/Dynamo.antt =====
-- Examples of the DynamoDB store.
use alertme.Prelude.{[], ◌∷◌, ◌≡◌, refl, none, inl, arith, lookup, insert}
use alertme.Model.{User, Invite}
use alertme.Store.{StoreCmd, ok, err, other}
use alertme.Store.Exec.{exec}
use alertme.Store.Fake.{Store, empty, row, put_user, create_invite}
use alertme.Store.Fake.Pairings.{copy_of}
use alertme.Dynamo.Entities.{user, device, pairing, invite, page as page_of, guard, key_inj}
use alertme.Dynamo.Items.{to_page, new_page_record}
use alertme.Dynamo.Items.RoundTrip.{IsDated, to_page-new_page_record}
use alertme.Dynamo.Laws.{View}
use alertme.Dynamo.Exec.{perform}
use alertme.Dynamo.Merge.{IsMerge, merge-IsMerge}
use alertme.Dynamo.Pages.{merge}
use alertme.Dynamo.People.{accept_invite}
use alertme.Dynamo.Refinement.Accepting.{accept_invite-fails}
use alertme.Dynamo.Refinement.{Represents, record_of}
use alertme.Dynamo.Refinement.Steps.{IsDatedStore, IsCovered, told, perform-Simulates}
use alertme.Tests.{page}
use alertme.Tests.Table.{tallies, tallies-IsTimeFormat, memory, memory_laws}

abbrev no_items : View
no_items pk sk = none

no_items-Represents : Represents tallies no_items empty
unfolding Represents record_of empty lookup row copy_of
no_items-Represents (user id) = tt
no_items-Represents (device a b) = tt
no_items-Represents (pairing a b) = tt
no_items-Represents (invite c) = tt
no_items-Represents (page_of id) = tt
no_items-Represents (guard k) = tt

empty-IsDatedStore : IsDatedStore empty
unfolding empty lookup row
empty-IsDatedStore = record {
  users_dated = λ id u h. cc;
  pairings_dated = λ a b p h. cc;
  invites_dated = λ c i h. cc;
  pages_dated = λ id p h. cc;
}

page-IsDated : IsDated page
page-IsDated = record { created = ground arith; expires = ground arith; acked = λ t h. cc }

to_page-new_page_record_example : to_page tallies (new_page_record tallies page) ≡ ok page
to_page-new_page_record_example =
    to_page-new_page_record tallies tallies-IsTimeFormat page page-IsDated

key_inj_example : invite "ABCDEFGHJK" ≡ invite "ABCDEFGHJK"
key_inj_example = key_inj (invite "ABCDEFGHJK") (invite "ABCDEFGHJK") refl refl

-- Alice makes an invite.
abbrev alice_user : User
alice_user = record { id = "alice"; display_name = "Alice"; created_at = 0 }

abbrev own_invite : Invite
own_invite = record { code = "ABCDEFGHJK"; creator_id = "alice"; expires_at = 5 }

abbrev with_alice : Store
with_alice = (exec 0 0 (StoreCmd.put_user alice_user) empty).1

with_alice-IsDatedStore : IsDatedStore with_alice
unfolding empty lookup row exec put_user insert
with_alice-IsDatedStore = record {
  users_dated = λ id u h. ground arith;
  pairings_dated = λ a b p h. cc;
  invites_dated = λ c i h. cc;
  pages_dated = λ id p h. cc;
}

abbrev table_with_alice : View
table_with_alice = (perform tallies memory 0 0 (StoreCmd.put_user alice_user) no_items).1

with_alice-Represents : Represents tallies table_with_alice with_alice
unfolding IsCovered memory_laws told
with_alice-Represents =
    (perform-Simulates tallies memory memory_laws tallies-IsTimeFormat 0 0
      (StoreCmd.put_user alice_user) no_items empty (record { key = tt; item = λ it e. tt })
      empty-IsDatedStore no_items-Represents).1

abbrev with_invite : Store
with_invite = (exec 0 0 (StoreCmd.create_invite own_invite) with_alice).1

abbrev table_with_invite : View
table_with_invite =
    (perform tallies memory 0 0 (StoreCmd.create_invite own_invite) table_with_alice).1

with_invite-Represents : Represents tallies table_with_invite with_invite
unfolding IsCovered memory_laws told
with_invite-Represents =
    (perform-Simulates tallies memory memory_laws tallies-IsTimeFormat 0 0
      (StoreCmd.create_invite own_invite) table_with_alice with_alice
      (record { key = tt; item = λ it e. tt }) with_alice-IsDatedStore with_alice-Represents).1

accept_invite-fails_example :
    accept_invite tallies memory "ABCDEFGHJK" alice_user 0 0 table_with_invite
    ≡ (err other, table_with_invite)
unfolding memory_laws exec empty put_user create_invite insert lookup
accept_invite-fails_example =
    accept_invite-fails tallies memory memory_laws tallies-IsTimeFormat "ABCDEFGHJK" alice_user 0 0
      table_with_invite with_invite own_invite alice_user (record { fits = tt; current = tt })
      (record { fits = tt; current = tt }) with_invite-Represents refl refl (ground arith)
      (ground arith) refl (inl refl)

merge-IsMerge_example : IsMerge (page ∷ []) (page ∷ []) (merge (page ∷ []) (page ∷ []))
merge-IsMerge_example = merge-IsMerge (page ∷ []) (page ∷ [])
