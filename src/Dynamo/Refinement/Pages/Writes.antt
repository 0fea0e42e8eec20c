-- ===== src/Dynamo/Refinement/Pages/Writes.antt =====
-- The transaction of `CreatePage` in backend/internal/store/dynamo/store.go: its three items and
-- their keys.
use alertme.Prelude.{
  String, true, ◌≡◌, ◌≢◌, refl, sym, some, List, [], ◌∷◌, lookup, eq_refl, ne-eq_false,
}
use alertme.Model.{Page}
use alertme.Store.Fake.{created_event}
use alertme.Dynamo.Keys.{TimeFormat, page_pk, idem_pk, event_sk, sk_meta}
use alertme.Dynamo.Items.{text, new_page_record, new_idem_record, new_event_record}
use alertme.Dynamo.Table.{Item, Table, attribute_not_exists, Write, put_if, put}
use alertme.Dynamo.Entities.{page, guard, key_inj, event_sk-ne-sk}
use alertme.Dynamo.Laws.{TableLaws, Shows, all_valid, has_distinct_keys, names_key}
use alertme.Dynamo.Refinement.Records.{
  new_page_record-distinct, new_idem_record-distinct, new_event_record-distinct,
}
use alertme.Dynamo.Refinement.Calls.{kept}

page_pk-ne-idem_pk : (id key : String) → page_pk id ≢ idem_pk key
page_pk-ne-idem_pk id key h = apart (key_inj (page id) (guard key) h refl)
  where
    apart : page id ≢ guard key
    apart e = cc

module _ (tf : TimeFormat) (t : Table) (laws : TableLaws t) (p : Page) where
  -- The three items, as marshalled.
  pub record IsMarshalled (a b c : Item) : Type 0 where
    pub page_item : t.marshal_map (new_page_record tf p) ≡ some a
    pub idem_item : t.marshal_map (new_idem_record p.idempotency_key p.id) ≡ some b
    pub event_item : t.marshal_map (new_event_record tf (created_event p)) ≡ some c
    pub shows_page : Shows a (new_page_record tf p)
    pub shows_idem : Shows b (new_idem_record p.idempotency_key p.id)
    pub shows_event : Shows c (new_event_record tf (created_event p))

  abbrev pub writes : Item → Item → Item → List Write
  writes a b c =
      put_if a (attribute_not_exists "PK") ∷ put_if b (attribute_not_exists "PK") ∷ put c ∷ []

  -- The keys of the three items.
  pub record HasKeys (a b c : Item) : Type 0 where
    pub page_pk_of : lookup "PK" a ≡ some (text (page_pk p.id))
    pub page_sk_of : lookup "SK" a ≡ some (text sk_meta)
    pub idem_pk_of : lookup "PK" b ≡ some (text (idem_pk p.idempotency_key))
    pub idem_sk_of : lookup "SK" b ≡ some (text sk_meta)
    pub event_pk_of : lookup "PK" c ≡ some (text (page_pk p.id))
    pub event_sk_of : lookup "SK" c ≡ some (text (event_sk tf p.created_at "created"))

  pub shown-HasKeys : (a b c : Item) → IsMarshalled a b c → HasKeys a b c
  unfolding Shows new_page_record new_idem_record new_event_record created_event
  shown-HasKeys a b c m = record {
    page_pk_of = kept t laws a "PK" (text (page_pk p.id)) m.shows_page.0;
    page_sk_of = kept t laws a "SK" (text sk_meta) m.shows_page.1.0;
    idem_pk_of = kept t laws b "PK" (text (idem_pk p.idempotency_key)) m.shows_idem.0;
    idem_sk_of = kept t laws b "SK" (text sk_meta) m.shows_idem.1.0;
    event_pk_of = kept t laws c "PK" (text (page_pk p.id)) m.shows_event.0;
    event_sk_of = kept t laws c "SK" (text (event_sk tf p.created_at "created")) m.shows_event.1.0;
  }

  pub writes-distinct : (a b c : Item) → HasKeys a b c → has_distinct_keys (writes a b c) ≡ true
  unfolding has_distinct_keys names_key
  writes-distinct a b c k =
      rw
        (
          k.page_pk_of,
          k.page_sk_of,
          k.idem_pk_of,
          k.idem_sk_of,
          k.event_pk_of,
          k.event_sk_of,
          ne-eq_false (idem_pk p.idempotency_key) (page_pk p.id)
              (λ e. page_pk-ne-idem_pk p.id p.idempotency_key (sym e)),
          ne-eq_false (page_pk p.id) (idem_pk p.idempotency_key)
              (page_pk-ne-idem_pk p.id p.idempotency_key),
          eq_refl (page_pk p.id),
          ne-eq_false (event_sk tf p.created_at "created") sk_meta
              (event_sk-ne-sk tf p.created_at "created" p.id (page p.id) refl),
        )
        refl

  pub writes-valid : (a b c : Item) → all_valid laws.reserved (writes a b c) ≡ true
  unfolding all_valid
  writes-valid a b c = rw laws.pk_free refl

  pub IsMarshalled-items : (a : Item) × ((b : Item) × ((c : Item) × IsMarshalled a b c))
  IsMarshalled-items =
      let (a, (e, f)) = laws.marshal (new_page_record tf p) (new_page_record-distinct tf p) in
      let (b, (g, h)) =
        laws.marshal (new_idem_record p.idempotency_key p.id)
          (new_idem_record-distinct p.idempotency_key p.id) in
      let (c, (i, j)) =
        laws.marshal (new_event_record tf (created_event p))
          (new_event_record-distinct tf (created_event p)) in
      (
        a,
        (
          b,
          (
            c,
            record {
              page_item = e;
              idem_item = g;
              event_item = i;
              shows_page = f;
              shows_idem = h;
              shows_event = j;
            },
          ),
        ),
      )
