-- ===== src/Dynamo/Refinement/Pages/Creation.antt =====
-- `CreatePage` in both stores: a transaction of three writes, and three writes under a lock.
use alertme.Prelude.{
  String, true, false, ◌≡◌, ◌≢◌, refl, sym, ap, subst, Option, none, some, lookup, insert,
  lookup-insert, eq_refl, ne-eq_false, Option-cases, inl, inr,
}
use alertme.Model.{Page}
use alertme.Store.{ok, err, conflict}
use alertme.Store.Fake
use alertme.Store.Fake.{Store, created_event}
use alertme.Store.Fake.Creation.{with_page}
use alertme.Dynamo.Keys.{TimeFormat, page_pk, idem_pk, event_sk, sk_meta}
use alertme.Dynamo.Items.{Value, text, new_page_record, new_idem_record}
use alertme.Dynamo.Table.{
  Item, Table, db_call, failed_check_as, is_transact_condition_failure, attribute_not_exists,
  marshalled,
}
use alertme.Dynamo.Entities.{Entity, user, device, pairing, invite, page, guard}
use alertme.Dynamo.Laws.{TableLaws, Wrote, View, Shows, holds, put_at, all_allowed, written}
use alertme.Dynamo.Pages
use alertme.Dynamo.Refinement.{Represents, Represents-put_at, Represents-event, record_of}
use alertme.Dynamo.Refinement.Calls.{Simulates, Ended-Simulates, db_call-Ended, kept}
use alertme.Dynamo.Refinement.Updates.{no_item, found_item}
use alertme.Dynamo.Refinement.Pages.{append_event-record_of}
use alertme.Dynamo.Refinement.Pages.Writes.{
  IsMarshalled, HasKeys, shown-HasKeys, writes, writes-distinct, writes-valid, IsMarshalled-items,
}

-- The in-memory store after the page alone.
abbrev with_first : Page → Store → Store
with_first p s = record s { pages = insert p.id p s.pages }

first-frame :
    (tf : TimeFormat) (p : Page) (s : Store) (e : Entity)
    → e ≢ page p.id
    → record_of tf (with_first p s) e ≡ record_of tf s e
unfolding record_of
first-frame tf p s (user a) h = refl
first-frame tf p s (device a b) h = refl
first-frame tf p s (pairing a b) h = refl
first-frame tf p s (invite c) h = refl
first-frame tf p s (page j) h =
    rw (lookup-insert, ne-eq_false p.id j (λ e. h (ap page (sym e)))) refl
first-frame tf p s (guard k) h = refl

second-frame :
    (tf : TimeFormat) (p : Page) (s : Store) (e : Entity)
    → e ≢ guard p.idempotency_key
    → record_of tf (with_page p s) e ≡ record_of tf (with_first p s) e
unfolding record_of
second-frame tf p s (user a) h = refl
second-frame tf p s (device a b) h = refl
second-frame tf p s (pairing a b) h = refl
second-frame tf p s (invite c) h = refl
second-frame tf p s (page j) h = refl
second-frame tf p s (guard k) h =
    rw (lookup-insert, ne-eq_false p.idempotency_key k (λ e. h (ap guard (sym e)))) refl

module _ (tf : TimeFormat) (t : Table) (laws : TableLaws t) (p : Page) where
  module _ (a b c : Item) (m : IsMarshalled tf t laws p a b c) (x : t.State) (s : Store)
      (fit : laws.transaction_fits (writes tf t laws p a b c))
      (r : Represents tf (laws.view x) s) where
    abbrev keys : HasKeys tf t laws p a b c
    keys = shown-HasKeys tf t laws p a b c m

    -- The transaction is all that the table sees.
    transacted :
        Pages.create_page tf t p x
        ≡ db_call
            (failed_check_as conflict is_transact_condition_failure)
            (t.transact_write (writes tf t laws p a b c))
            x
    unfolding Pages.create_page created_event
    transacted = rw (Pages.create_page, marshalled, m.page_item, m.idem_item, m.event_item) refl

    free : (o : Option Item) → o ≡ none → holds (attribute_not_exists "PK") o ≡ true
    unfolding holds
    free o e = rw e refl

    taken :
        (it : Item) (v : Value)
        → lookup "PK" it ≡ some v
        → holds (attribute_not_exists "PK") (some it) ≡ false
    unfolding holds
    taken it v e = rw e refl

    cancelled :
        all_allowed (writes tf t laws p a b c) (laws.view x) ≡ false
        → Simulates t laws tf (Pages.create_page tf t p x) (err conflict, s)
    unfolding is_transact_condition_failure
    cancelled h =
        let (codes, (e, failing)) =
          laws.cancel (writes tf t laws p a b c) x fit (writes-distinct tf t laws p a b c keys)
            (writes-valid tf t laws p a b c) h in
        rw (transacted, e, failing) (refl, r)

    page_taken :
        (q : Page)
        → lookup p.id s.pages ≡ some q
        → all_allowed (writes tf t laws p a b c) (laws.view x) ≡ false
    unfolding all_allowed record_of Shows new_page_record
    page_taken q e =
        let (it, (here, (shown, _))) =
          found_item t laws tf (page p.id) x s (new_page_record tf q) r (rw e refl) in
        rw
          (
            keys.page_pk_of,
            keys.page_sk_of,
            here,
            taken it (text (page_pk q.id)) (kept t laws it "PK" (text (page_pk q.id)) shown),
          )
          refl

    key_taken :
        (id : String)
        → lookup p.id s.pages ≡ none
        → lookup p.idempotency_key s.idem ≡ some id
        → all_allowed (writes tf t laws p a b c) (laws.view x) ≡ false
    unfolding all_allowed record_of Shows new_idem_record
    key_taken id e f =
        let (it, (here, (shown, _))) =
          found_item t laws tf (guard p.idempotency_key) x s (new_idem_record p.idempotency_key id)
            r (rw f refl) in
        rw
          (
            keys.page_pk_of,
            keys.page_sk_of,
            keys.idem_pk_of,
            keys.idem_sk_of,
            free (laws.view x (page_pk p.id) sk_meta)
                (no_item t laws tf (page p.id) x s r (rw e refl)),
            here,
            taken it (text (idem_pk p.idempotency_key))
                (kept t laws it "PK" (text (idem_pk p.idempotency_key)) shown),
          )
          refl

    both_free :
        lookup p.id s.pages ≡ none
        → lookup p.idempotency_key s.idem ≡ none
        → all_allowed (writes tf t laws p a b c) (laws.view x) ≡ true
    unfolding all_allowed record_of
    both_free e f =
        rw
          (
            keys.page_pk_of,
            keys.page_sk_of,
            keys.idem_pk_of,
            keys.idem_sk_of,
            free (laws.view x (page_pk p.id) sk_meta)
                (no_item t laws tf (page p.id) x s r (rw e refl)),
            free (laws.view x (idem_pk p.idempotency_key) sk_meta)
                (no_item t laws tf (guard p.idempotency_key) x s r (rw f refl)),
          )
          refl

    abbrev after : View
    after = put_at (page_pk p.id) (event_sk tf p.created_at "created") (some c) (
        put_at (idem_pk p.idempotency_key) sk_meta (some b)
          (put_at (page_pk p.id) sk_meta (some a) (laws.view x)))

    writes-written : written (writes tf t laws p a b c) (laws.view x) ≡ after
    unfolding written
    writes-written =
        rw
          (
            keys.page_pk_of, keys.page_sk_of, keys.idem_pk_of, keys.idem_sk_of, keys.event_pk_of,
            keys.event_sk_of,
          )
          refl

    after-Represents : Represents tf after (Fake.append_event (created_event p) (with_page p s)).1
    unfolding record_of Represents
    after-Represents e = rw (append_event-record_of tf (created_event p) (with_page p s) e) (
        Represents-event tf p.created_at "created" p.id (some c) _ (with_page p s)
          (Represents-put_at tf (guard p.idempotency_key) (some b) _ (with_first p s)
            (with_page p s) (rw (lookup-insert, eq_refl p.idempotency_key) m.shows_idem)
            (second-frame tf p s)
            (Represents-put_at tf (page p.id) (some a) (laws.view x) s (with_first p s)
              (rw (lookup-insert, eq_refl p.id) m.shows_page) (first-frame tf p s) r))
          e)

    made :
        lookup p.id s.pages ≡ none
        → lookup p.idempotency_key s.idem ≡ none
        → Simulates t laws tf
            (Pages.create_page tf t p x)
            (ok tt, (Fake.append_event (created_event p) (with_page p s)).1)
    made e f = rw transacted (
        Ended-Simulates t laws tf _ (ok tt) after
          (Fake.append_event (created_event p) (with_page p s)).1
          (db_call-Ended t laws (failed_check_as conflict is_transact_condition_failure) _ after (
            subst (Wrote t laws.view (t.transact_write (writes tf t laws p a b c) x)) writes-written
              (laws.transact (writes tf t laws p a b c) x fit
                (writes-distinct tf t laws p a b c keys) (writes-valid tf t laws p a b c)
                (both_free e f))))
          after-Represents)

    created : Simulates t laws tf (Pages.create_page tf t p x) (Fake.create_page p s)
    unfolding Fake.create_page Fake.append_event
    created = elim (Option-cases (lookup p.id s.pages)) [
      | inr (q, e) ↦ rw e (cancelled (page_taken q e))
      | inl e ↦ elim (Option-cases (lookup p.idempotency_key s.idem)) [
        | inr (id, f) ↦ rw (e, f) (cancelled (key_taken id e f))
        | inl f ↦ rw (e, f) (made e f)
      ]
    ]

  -- The transaction is within the limits.
  abbrev pub FitsCreation : Type 0
  FitsCreation =
      (a b c : Item)
      → IsMarshalled tf t laws p a b c
      → laws.transaction_fits (writes tf t laws p a b c)

  pub create_page-Simulates :
      (x : t.State) (s : Store)
      → FitsCreation
      → Represents tf (laws.view x) s
      → Simulates t laws tf (Pages.create_page tf t p x) (Fake.create_page p s)
  create_page-Simulates x s fit r =
      let (a, (b, (c, m))) = IsMarshalled-items tf t laws p in created a b c m x s (fit a b c m) r
