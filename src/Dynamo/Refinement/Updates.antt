-- ===== src/Dynamo/Refinement/Updates.antt =====
-- `UpdateItem` on an item that stands for an entity.
use alertme.Prelude.{
  String, true, false, ◌≡◌, ◌≢◌, refl, sym, subst, inl, inr, Option, none, some, List, [], ◌∷◌, Map,
  lookup, Option-cases,
}
use alertme.Store.{Err, ok, err}
use alertme.Store.Fake.{Store}
use alertme.Dynamo.Keys.{TimeFormat}
use alertme.Dynamo.Items.{Value, Field}
use alertme.Dynamo.Table.{Item, Table, DbErr, condition_failed, Condition, db_call}
use alertme.Dynamo.Entities.{Entity, pk, sk}
use alertme.Dynamo.Laws.{Shows, Reads, overlaid, holds, is_valid, TableLaws}
use alertme.Dynamo.Refinement.{Represents, Represents-put_at, Stored, record_of}
use alertme.Dynamo.Refinement.Calls.{Simulates, Ended-Simulates, db_call-Ended}

abbrev newest : Option Value → Value → Value
newest none old = old
newest (some new) old = new

-- The record whose fields have been set.
unfoldable pub set_fields : Map Value → List Field → List Field
set_fields attrs [] = []
set_fields attrs (f ∷ fs) =
    record f { value = newest (lookup f.tag attrs) f.value } ∷ set_fields attrs fs

Reads-newest :
    (attrs : Map Value) (it new : Item) (f : Field)
    → lookup f.tag new ≡ overlaid attrs f.tag it
    → Reads it f
    → Reads new (record f { value = newest (lookup f.tag attrs) f.value })
Reads-newest attrs it new f e h = elim (Option-cases (lookup f.tag attrs)) [
  | inr (v, a) ↦ inl (rw (e, a) refl)
  | inl a ↦ elim h [
    | inl b ↦ inl (rw (e, a, b) refl)
    | inr (b, c) ↦ inr (rw (e, a, b) refl, rw a c)
  ]
]

Shows-set_fields :
    (attrs : Map Value) (it new : Item) (fs : List Field)
    → ((tag : String) → lookup tag new ≡ overlaid attrs tag it)
    → Shows it fs
    → Shows new (set_fields attrs fs)
unfolding Shows set_fields
Shows-set_fields attrs it new [] e h = tt
Shows-set_fields attrs it new (f ∷ fs) e (h, hs) =
    (Reads-newest attrs it new f (e f.tag) h, Shows-set_fields attrs it new fs e hs)

-- The item of an entity that is there, and of one that is not.
Stored-some :
    (o : Option Item) (fs : List Field)
    → Stored o (some fs)
    → (it : Item) × ((o ≡ some it) × Shows it fs)
Stored-some none fs h = absurd h
Stored-some (some it) fs h = (it, (refl, h))

Stored-none : (o : Option Item) → Stored o none → o ≡ none
Stored-none none h = refl
Stored-none (some it) h = absurd h

module _ (t : Table) (laws : TableLaws t) (tf : TimeFormat) where
  pub found_item :
      (d : Entity) (u : t.State) (s : Store) (fs : List Field)
      → Represents tf (laws.view u) s
      → record_of tf s d ≡ some fs
      → (it : Item) × ((laws.view u (pk d) (sk d) ≡ some it) × Shows it fs)
  unfolding Represents
  found_item d u s fs r e =
      Stored-some (laws.view u (pk d) (sk d)) fs
        (subst (Stored (laws.view u (pk d) (sk d))) e (r d))

  pub no_item :
      (d : Entity) (u : t.State) (s : Store)
      → Represents tf (laws.view u) s
      → record_of tf s d ≡ none
      → laws.view u (pk d) (sk d) ≡ none
  unfolding Represents
  no_item d u s r e =
      Stored-none (laws.view u (pk d) (sk d)) (subst (Stored (laws.view u (pk d) (sk d))) e (r d))

  -- An update within the limits, of an item that is within them afterwards.
  pub record FitsUpdate (u : t.State) (p k : String) (attrs : Map Value) (c : Condition)
      : Type 0 where
    pub key : laws.key_fits p k
    pub call : laws.update_fits attrs c
    pub item :
        (it : Item) → laws.view u p k ≡ some it → laws.item_fits (λ tag. overlaid attrs tag it)

  pub update-Simulates :
      (d : Entity) (attrs : Map Value) (c : Condition) (f : DbErr → Err) (fs : List Field)
      (u : t.State) (s s' : Store)
      → FitsUpdate u (pk d) (sk d) attrs c
      → record_of tf s d ≡ some fs
      → record_of tf s' d ≡ some (set_fields attrs fs)
      → ((e : Entity) → e ≢ d → record_of tf s' e ≡ record_of tf s e)
      → is_valid laws.reserved c ≡ true
      → ((it : Item) → Shows it fs → holds c (some it) ≡ true)
      → Represents tf (laws.view u) s
      → Simulates t laws tf (db_call f (t.update_item (pk d) (sk d) attrs c) u) (ok tt, s')
  update-Simulates d attrs c f fs u s s' fit old new frame valid met r =
      let (it, (e, shown)) = found_item d u s fs r old in
      let (after, (over, ended)) =
        laws.update (pk d) (sk d) attrs c it u fit.key fit.call (fit.item it e) valid e
          (met it shown) in
      Ended-Simulates t laws tf _ (ok tt) _ s' (db_call-Ended t laws f _ _ ended) (
        Represents-put_at tf d (some after) (laws.view u) s s'
          (subst (Stored (some after)) (sym new) (Shows-set_fields attrs it after fs over shown))
          frame r)

  pub refuse-Simulates :
      (d : Entity) (attrs : Map Value) (c : Condition) (f : DbErr → Err) (u : t.State) (s : Store)
      → FitsUpdate u (pk d) (sk d) attrs c
      → is_valid laws.reserved c ≡ true
      → holds c (laws.view u (pk d) (sk d)) ≡ false
      → Represents tf (laws.view u) s
      → Simulates t laws tf
          (db_call f (t.update_item (pk d) (sk d) attrs c) u)
          (err (f condition_failed), s)
  refuse-Simulates d attrs c f u s fit valid unmet r =
      rw (laws.refuse (pk d) (sk d) attrs c u fit.key fit.call valid unmet) (refl, r)
