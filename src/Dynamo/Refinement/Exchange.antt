-- ===== src/Dynamo/Refinement/Exchange.antt =====
-- The transaction of `AcceptInvite` in backend/internal/store/dynamo/store.go, a deletion and two
-- writes, where the service refuses it.
use alertme.Prelude.{
  String, true, false, ◌≡◌, refl, some, List, [], ◌∷◌, lookup, eq_refl, ne-eq_false,
}
use alertme.Model.{Time, Pairing}
use alertme.Store.{err, other}
use alertme.Dynamo.Keys.{TimeFormat, user_pk, pair_sk, invite_pk, sk_meta}
use alertme.Dynamo.Items.{text, unix, new_pairing_record}
use alertme.Dynamo.Table.{
  Item, Table, is_transact_condition_failure, attribute_exists, greater, both, Condition, Write,
  delete_if, put, marshalled,
}
use alertme.Dynamo.Entities.{user_pk-ne-invite_pk}
use alertme.Dynamo.Laws.{TableLaws, Shows, all_valid, has_distinct_keys, names_key}
use alertme.Dynamo.People.{exchange}
use alertme.Dynamo.Refinement.Records.{new_pairing_record-distinct}
use alertme.Dynamo.Refinement.Calls.{kept}

abbrev condition : Time → Condition
condition at = both (attribute_exists "PK") (greater "ttl" (unix at))

abbrev writes : String → Time → Item → Item → List Write
writes code at a b = delete_if (invite_pk code) sk_meta (condition at) ∷ put a ∷ put b ∷ []

module _ (tf : TimeFormat) (t : Table) (laws : TableLaws t) where
  pub record IsKeyed (p : Pairing) (a : Item) : Type 0 where
    pub marshals : t.marshal_map (new_pairing_record tf p) ≡ some a
    pub shows : Shows a (new_pairing_record tf p)
    pub pk_of : lookup "PK" a ≡ some (text (user_pk p.user_id))
    pub sk_of : lookup "SK" a ≡ some (text (pair_sk p.peer_id))

  pub keyed : (p : Pairing) → (a : Item) × IsKeyed p a
  unfolding Shows new_pairing_record
  keyed p =
      let (a, (e, f)) = laws.marshal (new_pairing_record tf p) (new_pairing_record-distinct tf p) in
      (
        a,
        record {
          marshals = e;
          shows = f;
          pk_of = kept t laws a "PK" (text (user_pk p.user_id)) f.0;
          sk_of = kept t laws a "SK" (text (pair_sk p.peer_id)) f.1.0;
        },
      )

  writes-repeat :
      (code : String) (at : Time) (mine theirs : Pairing) (a b : Item)
      → IsKeyed mine a
      → IsKeyed theirs b
      → mine.user_id ≡ theirs.user_id
      → mine.peer_id ≡ theirs.peer_id
      → has_distinct_keys (writes code at a b) ≡ false
  unfolding has_distinct_keys names_key
  writes-repeat code at mine theirs a b m n e f =
      rw
        (
          m.pk_of,
          m.sk_of,
          n.pk_of,
          n.sk_of,
          e,
          f,
          ne-eq_false (user_pk theirs.user_id) (invite_pk code)
              (user_pk-ne-invite_pk theirs.user_id code),
          eq_refl (user_pk theirs.user_id),
          eq_refl (pair_sk theirs.peer_id),
        )
        refl

  -- A transaction that names a reserved word is refused, and nothing is written.
  pub exchange-reserved :
      (code : String) (at : Time) (mine theirs : Pairing) (x : t.State)
      → laws.reserved "ttl" ≡ true
      → exchange tf t code at mine theirs x ≡ (err other, x)
  unfolding exchange all_valid is_transact_condition_failure
  exchange-reserved code at mine theirs x h =
      let (a, m) = keyed mine in
      let (b, n) = keyed theirs in
      rw
        (
          exchange,
          marshalled,
          m.marshals,
          n.marshals,
          laws.invalid (writes code at a b) x (rw (laws.pk_free, h) refl),
        )
        refl

  -- Two copies with one key: the transaction names an item twice, and nothing is written.
  pub exchange_self :
      (code : String) (at : Time) (mine theirs : Pairing) (x : t.State)
      → mine.user_id ≡ theirs.user_id
      → mine.peer_id ≡ theirs.peer_id
      → exchange tf t code at mine theirs x ≡ (err other, x)
  unfolding exchange is_transact_condition_failure
  exchange_self code at mine theirs x e f =
      let (a, m) = keyed mine in
      let (b, n) = keyed theirs in
      rw
        (
          exchange,
          marshalled,
          m.marshals,
          n.marshals,
          laws.repeated (writes code at a b) x (writes-repeat code at mine theirs a b m n e f),
        )
        refl
