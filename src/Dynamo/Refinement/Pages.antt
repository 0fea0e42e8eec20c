-- ===== src/Dynamo/Refinement/Pages.antt =====
-- The methods that read a page and change its state, in both stores.
pub mod Moves
pub mod Writes
pub mod Creation
use alertme.Prelude.{
  String, Bool, true, false, ◌≡◌, ◌≢◌, refl, sym, ◌∙◌, ap, subst, ⊤, Option, none, some, List, [],
  ◌∷◌, lookup, insert, lookup-insert, str_eq, eq_refl, if◌then◌else◌, ne-eq_false,
}
use alertme.Model.{Page, PageEvent, PageState}
use alertme.Store.{Result, ok, err}
use alertme.Store.Fake
use alertme.Store.Fake.{Store}
use alertme.Dynamo.Keys.{TimeFormat, page_pk, idem_pk, event_sk, sk_meta}
use alertme.Dynamo.Items.{
  Field, text_of, new_page_record, to_page, new_idem_record, new_event_record,
}
use alertme.Dynamo.Items.RoundTrip.{IsTimeFormat, IsDated}
use alertme.Dynamo.Table.{Table, go_on, return, found, db_call, wrapped}
use alertme.Dynamo.Entities.{Entity, user, device, pairing, invite, page, guard, pk, sk}
use alertme.Dynamo.Laws.{TableLaws, blank, has_distinct_tags, put_at}
use alertme.Dynamo.Pages
use alertme.Dynamo.Pages.{page_rec, idem_rec}
use alertme.Dynamo.Refinement.{Represents, Represents-event, record_of, recorded}
use alertme.Dynamo.Refinement.Records.{
  IsReadable, page-IsReadable, new_idem_record-distinct, new_event_record-distinct,
}
use alertme.Dynamo.Refinement.Calls.{
  go_on_assoc, IsFound, FitsAt, Simulates, Ended-Simulates, put_record-Ended, found-Represents,
  or_missing, or_missing-Simulates,
}

abbrev page_id_of : List Field → Result String
page_id_of r = ok (text_of "page_id" r)

idem-IsReadable : (key id : String) → IsReadable idem_rec (new_idem_record key) page_id_of id
unfolding new_idem_record blank text_of
idem-IsReadable key id = record {
  zeroed = refl;
  distinct = new_idem_record-distinct key id;
  back = refl;
}

-- The entities do not see a timeline.
pub append_event-record_of :
    (tf : TimeFormat) (ev : PageEvent) (s : Store) (e : Entity)
    → record_of tf (Fake.append_event ev s).1 e ≡ record_of tf s e
unfolding record_of Fake.append_event
append_event-record_of tf ev s (user id) = refl
append_event-record_of tf ev s (device a b) = refl
append_event-record_of tf ev s (pairing a b) = refl
append_event-record_of tf ev s (invite c) = refl
append_event-record_of tf ev s (page id) = refl
append_event-record_of tf ev s (guard k) = refl

module _ (tf : TimeFormat) (t : Table) (laws : TableLaws t) where
  module _ (time : IsTimeFormat tf) where
    get_page_result :
        (id : String) (x : t.State) (s : Store)
        → IsFound t laws x (page_pk id) sk_meta
        → ((p : Page) → lookup id s.pages ≡ some p → IsDated p)
        → Represents tf (laws.view x) s
        → Pages.get_page tf t id x ≡ (or_missing t laws (lookup id s.pages), x)
    unfolding Pages.get_page record_of
    get_page_result id x s found_at dated r =
        found-Represents t laws tf (page id) x s page_rec (new_page_record tf) (to_page tf)
          (lookup id s.pages) found_at refl (λ p e. page-IsReadable tf time p (dated p e)) r

    pub get_page-Simulates :
        (id : String) (x : t.State) (s : Store)
        → IsFound t laws x (page_pk id) sk_meta
        → ((p : Page) → lookup id s.pages ≡ some p → IsDated p)
        → Represents tf (laws.view x) s
        → Simulates t laws tf (Pages.get_page tf t id x) (Fake.get_page id s)
    unfolding Fake.get_page
    get_page-Simulates id x s found_at dated r =
        subst (λ m. Simulates t laws tf m (Fake.get_page id s))
          (sym (get_page_result id x s found_at dated r))
          (or_missing-Simulates t laws tf (lookup id s.pages) x s r)

    key_result :
        (key : String) (x : t.State) (s : Store)
        → IsFound t laws x (idem_pk key) sk_meta
        → Represents tf (laws.view x) s
        → Pages.get_page_by_idempotency_key tf t key x
          ≡ go_on (Pages.get_page tf t) (or_missing t laws (lookup key s.idem), x)
    unfolding Pages.get_page_by_idempotency_key record_of
    key_result key x s found_at r =
        go_on_assoc (λ out. return (found t idem_rec page_id_of out)) (Pages.get_page tf t)
          (db_call wrapped (t.get_item (idem_pk key) sk_meta) x)
        ∙ ap (go_on (Pages.get_page tf t)) (
            found-Represents t laws tf (guard key) x s idem_rec (new_idem_record key) page_id_of
              (lookup key s.idem) found_at refl (λ id e. idem-IsReadable key id) r)

    pub get_page_by_idempotency_key-Simulates :
        (key : String) (x : t.State) (s : Store)
        → IsFound t laws x (idem_pk key) sk_meta
        → ((id : String) → lookup key s.idem ≡ some id → IsFound t laws x (page_pk id) sk_meta)
        → ((id : String) (p : Page) → lookup id s.pages ≡ some p → IsDated p)
        → Represents tf (laws.view x) s
        → Simulates t laws tf
            (Pages.get_page_by_idempotency_key tf t key x)
            (Fake.get_page_by_idempotency_key key s)
    unfolding Fake.get_page_by_idempotency_key Fake.get_page
    get_page_by_idempotency_key-Simulates key x s found_at then_at dated r =
        subst (λ m. Simulates t laws tf m (Fake.get_page_by_idempotency_key key s))
          (sym (key_result key x s found_at r)) (of (lookup key s.idem) then_at)
      where
        of :
            (o : Option String)
            → ((id : String) → o ≡ some id → IsFound t laws x (page_pk id) sk_meta)
            → Simulates t laws tf
                (go_on (Pages.get_page tf t) (or_missing t laws o, x))
                (Fake.page_of_key o s)
        of none h = (refl, r)
        of (some id) h = get_page-Simulates id x s (h id refl) (dated id) r

  pub append_event-Simulates :
      (ev : PageEvent) (x : t.State) (s : Store)
      → FitsAt t laws (page_pk ev.page_id) (event_sk tf ev.at ev.kind) (new_event_record tf ev)
      → Represents tf (laws.view x) s
      → Simulates t laws tf (Pages.append_event tf t ev x) (Fake.append_event ev s)
  unfolding Pages.append_event Fake.append_event new_event_record Represents
  append_event-Simulates ev x s fit r =
      let (it, (shown, ended)) =
        put_record-Ended t laws tf (page_pk ev.page_id) (event_sk tf ev.at ev.kind) _ x fit
          (new_event_record-distinct tf ev) in
      Ended-Simulates t laws tf _ (ok tt) _ (Fake.append_event ev s).1 ended (
        Represents-event tf ev.at ev.kind ev.page_id (some it) (laws.view x)
          (Fake.append_event ev s).1 (λ e. rw (append_event-record_of tf ev s e) (r e)))
