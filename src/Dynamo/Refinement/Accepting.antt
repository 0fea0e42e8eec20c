-- ===== src/Dynamo/Refinement/Accepting.antt =====
-- `AcceptInvite` of the DynamoDB store where its transaction is refused.
use alertme.Prelude.{
  String, true, ◌≡◌, ◌<◌, ◌⊎◌, refl, sym, ◌∙◌, ap, subst, some, lookup, inl, inr, ltb,
}
use alertme.Model.{Time, User, Invite, Pairing}
use alertme.Store.{ok, err, other}
use alertme.Store.Fake.{Store, pairing_of}
use alertme.Dynamo.Keys.{TimeFormat, user_pk, invite_pk, sk_meta, sk_profile}
use alertme.Dynamo.Items.{new_invite_record, to_invite}
use alertme.Dynamo.Items.RoundTrip.{IsTimeFormat, year_10000}
use alertme.Dynamo.Table.{Table, go_on}
use alertme.Dynamo.Entities.{invite}
use alertme.Dynamo.Laws.{TableLaws}
use alertme.Dynamo.People
use alertme.Dynamo.People.{exchange, invite_rec}
use alertme.Dynamo.Refinement.{Represents, record_of}
use alertme.Dynamo.Refinement.Exchange.{exchange_self, exchange-reserved}
use alertme.Dynamo.Refinement.Records.{invite-IsReadable}
use alertme.Dynamo.Refinement.People.{get_user_result}
use alertme.Dynamo.Refinement.Calls.{found-Represents, or_missing, IsFound}

module _ (tf : TimeFormat) (t : Table) (laws : TableLaws t) (time : IsTimeFormat tf) (code : String)
    (u : User) (checked at : Time) (x : t.State) (s : Store)
    (found_at : IsFound t laws x (invite_pk code) sk_meta) (r : Represents tf (laws.view x) s) where
  get_invite_result :
      ((inv : Invite) → lookup code s.invites ≡ some inv → inv.expires_at < year_10000)
      → People.get_invite tf t code x ≡ (or_missing t laws (lookup code s.invites), x)
  unfolding People.get_invite record_of
  get_invite_result dated =
      found-Represents t laws tf (invite code) x s invite_rec (new_invite_record tf) (to_invite tf)
        (lookup code s.invites) found_at refl (λ i e. invite-IsReadable tf time i (dated i e)) r

  abbrev mine_of : Invite → User → Pairing
  mine_of inv creator = pairing_of u.id inv.creator_id creator.display_name at

  abbrev theirs_of : Invite → Pairing
  theirs_of inv = pairing_of inv.creator_id u.id u.display_name at

  unexpired_result :
      (inv : Invite) (creator : User)
      → People.get_user tf t inv.creator_id x ≡ (ok creator, x)
      → ltb checked inv.expires_at ≡ true
      → People.accept_unexpired tf t code u checked at inv x
        ≡ exchange tf t code at (mine_of inv creator) (theirs_of inv) x
  unfolding People.accept_unexpired pairing_of
  unexpired_result inv creator got open_yet = rw (People.accept_unexpired, open_yet, got) refl

  accept_result :
      ((inv : Invite) → lookup code s.invites ≡ some inv → inv.expires_at < year_10000)
      → People.accept_invite tf t code u checked at x
        ≡ go_on
            (People.accept_unexpired tf t code u checked at)
            (or_missing t laws (lookup code s.invites), x)
  unfolding People.accept_invite
  accept_result dated =
      ap (go_on (People.accept_unexpired tf t code u checked at)) (get_invite_result dated)

-- The acceptance of an open invite whose creator is known ends in an error that is neither
-- `ErrNotFound` nor `ErrConflict`, and nothing is written, if `ttl` is a reserved word of the service,
-- since the condition names it without an alias, or if the user accepts an invite of their own, since
-- the transaction then puts one item twice. This is for a table that stands for a state of the
-- in-memory store, with times before the year 10000, and for reads of the invite and of its creator
-- that are within the limits of the service and find what was last written.
pub accept_invite-fails :
    (tf : TimeFormat) (t : Table) (laws : TableLaws t)
    → IsTimeFormat tf
    → (code : String) (u : User) (checked at : Time) (x : t.State) (s : Store) (inv : Invite)
      (c : User)
    → IsFound t laws x (invite_pk code) sk_meta
    → IsFound t laws x (user_pk inv.creator_id) sk_profile
    → Represents tf (laws.view x) s
    → lookup code s.invites ≡ some inv
    → lookup inv.creator_id s.users ≡ some c
    → inv.expires_at < year_10000
    → c.created_at < year_10000
    → ltb checked inv.expires_at ≡ true
    → (laws.reserved "ttl" ≡ true) ⊎ (inv.creator_id ≡ u.id)
    → People.accept_invite tf t code u checked at x ≡ (err other, x)
unfolding pairing_of
accept_invite-fails tf t laws time code u checked at x s inv c invite_at user_at r e known dated
      born open_yet why =
    let got =
      get_user_result tf t laws time inv.creator_id x s user_at
        (λ d k. subst (λ y. y.created_at < year_10000) (some_inj (sym known ∙ k)) born) r in
    let here =
      subst (λ o. People.get_user tf t inv.creator_id x ≡ (or_missing t laws o, x)) known got in
    let first =
      accept_result tf t laws time code u checked at x s invite_at r
        (λ i k. subst (λ y. y.expires_at < year_10000) (some_inj (sym e ∙ k)) dated) in
    let mine = mine_of tf t laws time code u checked at x s invite_at r inv c in
    let theirs = theirs_of tf t laws time code u checked at x s invite_at r inv in
    first
    ∙ ap (λ o. go_on (People.accept_unexpired tf t code u checked at) (or_missing t laws o, x)) e
    ∙ unexpired_result tf t laws time code u checked at x s invite_at r inv c here open_yet
    ∙ elim why [
      | inl word ↦ exchange-reserved tf t laws code at mine theirs x word
      | inr self ↦ exchange_self tf t laws code at mine theirs x (sym self) self
    ]
  where
    some_inj : {A : Type 0} {a b : A} → some a ≡ some b → a ≡ b
    some_inj h = cc
