-- ===== src/Dynamo/Refinement/Calls.antt =====
-- The calls that the DynamoDB store's methods share, under the laws of the table.
use alertme.Prelude.{
  String, true, false, ◌≡◌, ◌≢◌, refl, sym, ◌∙◌, ap, subst, ⊤, inl, inr, Option, none, some, List,
  ◌∷◌, lookup,
}
use alertme.Store.{Err, Result, ok, err, not_found}
use alertme.Dynamo.Keys.{TimeFormat}
use alertme.Dynamo.Items.{Value, text, Field, string}
use alertme.Dynamo.Table.{
  Item, Table, DbErr, DbResult, Method, return, go_on, ◌>>=◌, answered, db_call, wrapped,
  marshalled, decoded, found,
}
use alertme.Dynamo.People.{put_record}
use alertme.Store.Fake
use alertme.Store.Fake.{Store}
use alertme.Dynamo.Entities.{Entity, pk, sk}
use alertme.Dynamo.Refinement.Records.{IsReadable}
use alertme.Dynamo.Refinement.{
  Represents, Represents-put_at, Represents-ext, Stored, record_of, recorded,
}
use alertme.Dynamo.Laws.{
  View, Shows, Reads, blank, has_distinct_tags, put_at, TableLaws, Wrote, attributes,
}

pub go_on_assoc :
    {S A B C : Type 0} (m : A → Method S B) (f : B → Method S C) (x : Result A × S)
    → go_on (λ a. m a >>= f) x ≡ go_on f (go_on m x)
go_on_assoc m f (ok a, s) = refl
go_on_assoc m f (err e, s) = refl

module _ (t : Table) (laws : TableLaws t) where
  -- A method that ends with a result and a view.
  abbrev pub Ended : {A : Type 0} → Result A × t.State → Result A → View → Type 0
  Ended m r v = (s : t.State) × ((m ≡ (r, s)) × ((p k : String) → laws.view s p k ≡ v p k))

  pub db_call-Ended :
      (f : DbErr → Err) (m : DbResult ⊤ × t.State) (v : View)
      → Wrote t laws.view m v
      → Ended (answered f m) (ok tt) v
  db_call-Ended f m v (s, (e, same)) = (s, (ap (answered f) e, same))

  -- A key within the limits, that is read as it was last written.
  pub record IsFound (s : t.State) (p k : String) : Type 0 where
    pub fits : laws.key_fits p k
    pub current : laws.readable s p k

  -- The item of a record, with its key, is within the limits.
  pub record FitsAt (p k : String) (fs : List Field) : Type 0 where
    pub key : laws.key_fits p k
    pub item : (it : Item) → t.marshal_map fs ≡ some it → laws.item_fits (attributes it)

  -- A field without `omitempty` is there.
  pub kept :
      (it : Item) (tag : String) (value : Value)
      → Reads it (record { tag = tag; value = value; omit_empty = false })
      → lookup tag it ≡ some value
  kept it tag value (inl e) = e
  kept it tag value (inr (a, (b, c))) = cc

  pub put_record-Ended :
      (tf : TimeFormat) (p k : String) (fs : List Field) (s : t.State)
      → FitsAt p k (string "PK" p ∷ string "SK" k ∷ fs)
      → has_distinct_tags (string "PK" p ∷ string "SK" k ∷ fs) ≡ true
      → (it : Item) × (Shows it (string "PK" p ∷ string "SK" k ∷ fs)
          × Ended
              (put_record tf t (string "PK" p ∷ string "SK" k ∷ fs) s)
              (ok tt)
              (put_at p k (some it) (laws.view s)))
  unfolding put_record Shows
  put_record-Ended tf p k fs s fit h =
      let (it, (e, (a, (b, c)))) = laws.marshal (string "PK" p ∷ string "SK" k ∷ fs) h in
      (
        it,
        (
          (a, (b, c)),
          rw (put_record, marshalled, e)
              (db_call-Ended wrapped (t.put_item it s) (put_at p k (some it) (laws.view s)) (
                laws.put_lem it p k s (kept it "PK" (text p) a, kept it "SK" (text k) b) fit.key
                  (fit.item it e))),
        ),
      )

  -- An item that shows a record is read as the record.
  pub decoded-Shows :
      {A : Type 0} (it : Item) (fs : List Field) (to_model : List Field → Result A)
      → has_distinct_tags fs ≡ true
      → Shows it fs
      → decoded t (blank fs) to_model it ≡ to_model fs
  decoded-Shows it fs to_model h shown = rw (decoded, laws.unmarshal it fs h shown)

  -- A `GetItem` whose answer is read into a record.
  pub get-found :
      {A : Type 0} (p k : String) (rec : List Field) (to_model : List Field → Result A)
      (s : t.State) (o : Option Item)
      → IsFound s p k
      → laws.view s p k ≡ o
      → (db_call wrapped (t.get_item p k) >>= λ out. return (found t rec to_model out)) s
        ≡ (found t rec to_model o, s)
  get-found p k rec to_model s o found_at e = rw (laws.get p k s found_at.fits found_at.current, e)

  -- A result, and a state that stands for a state of the in-memory store.
  abbrev pub Simulates : {A : Type 0} → TimeFormat → Result A × t.State → Result A × Store → Type 0
  Simulates tf m f = (m.0 ≡ f.0) × Represents tf (laws.view m.1) f.1

  pub Ended-Simulates :
      {A : Type 0} (tf : TimeFormat) (m : Result A × t.State) (r : Result A) (v : View) (s : Store)
      → Ended m r v
      → Represents tf v s
      → Simulates tf m (r, s)
  Ended-Simulates tf m r v s (u, (e, same)) h =
      subst (λ x. Simulates tf x (r, s)) (sym e) (refl, Represents-ext tf v (laws.view u) s same h)

  -- A record put without a condition, which stands for an entity.
  pub put_record-Simulates :
      (tf : TimeFormat) (d : Entity) (fs : List Field) (u : t.State) (s s' : Store)
      → FitsAt (pk d) (sk d) (string "PK" (pk d) ∷ string "SK" (sk d) ∷ fs)
      → has_distinct_tags (string "PK" (pk d) ∷ string "SK" (sk d) ∷ fs) ≡ true
      → record_of tf s' d ≡ some (string "PK" (pk d) ∷ string "SK" (sk d) ∷ fs)
      → ((e : Entity) → e ≢ d → record_of tf s' e ≡ record_of tf s e)
      → Represents tf (laws.view u) s
      → Simulates tf (put_record tf t (string "PK" (pk d) ∷ string "SK" (sk d) ∷ fs) u) (ok tt, s')
  put_record-Simulates tf d fs u s s' fit h stands frame r =
      let (it, (shown, ended)) = put_record-Ended tf (pk d) (sk d) fs u fit h in
      Ended-Simulates tf _ (ok tt) _ s' ended
        (Represents-put_at tf d (some it) (laws.view u) s s' (rw stands shown) frame r)

  abbrev pub or_missing : {A : Type 0} → Option A → Result A
  or_missing none = err not_found
  or_missing (some a) = ok a

  found-Stored :
      {A : Type 0} (rec : List Field) (to_record : A → List Field)
      (to_model : List Field → Result A) (o : Option Item) (a : Option A)
      → Stored o (recorded to_record a)
      → ((x : A) → a ≡ some x → IsReadable rec to_record to_model x)
      → found t rec to_model o ≡ or_missing a
  found-Stored rec to_record to_model none none h k = refl
  found-Stored rec to_record to_model none (some x) h k = absurd h
  found-Stored rec to_record to_model (some it) none h k = absurd h
  found-Stored rec to_record to_model (some it) (some x) h k =
      let r = k x refl in
      subst (λ b. decoded t b to_model it ≡ ok x) r.zeroed
        (decoded-Shows it (to_record x) to_model r.distinct h ∙ r.back)

  -- A record that is read for an entity.
  pub found-Represents :
      {A : Type 0} (tf : TimeFormat) (d : Entity) (u : t.State) (s : Store) (rec : List Field)
      (to_record : A → List Field) (to_model : List Field → Result A) (a : Option A)
      → IsFound u (pk d) (sk d)
      → record_of tf s d ≡ recorded to_record a
      → ((x : A) → a ≡ some x → IsReadable rec to_record to_model x)
      → Represents tf (laws.view u) s
      → (db_call wrapped (t.get_item (pk d) (sk d)) >>= λ out. return (found t rec to_model out)) u
        ≡ (or_missing a, u)
  unfolding Represents
  found-Represents tf d u s rec to_record to_model a found_at e k r =
      get-found (pk d) (sk d) rec to_model u (laws.view u (pk d) (sk d)) found_at refl
      ∙ ap (λ x. (x, u))
          (found-Stored rec to_record to_model (laws.view u (pk d) (sk d)) a
            (subst (Stored (laws.view u (pk d) (sk d))) e (r d)) k)

  pub or_missing-Simulates :
      {A : Type 0} (tf : TimeFormat) (a : Option A) (u : t.State) (s : Store)
      → Represents tf (laws.view u) s
      → Simulates tf (or_missing a, u) (Fake.found a s)
  or_missing-Simulates tf none u s r = (refl, r)
  or_missing-Simulates tf (some a) u s r = (refl, r)
