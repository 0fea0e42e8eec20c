-- ===== src/Dynamo/Refinement/Removed.antt =====
-- The methods that take a device away and that block a pairing, in both stores.
use mathlib.Core.Path.{ap₂}
use alertme.Prelude.{
  String, true, ◌≡◌, ◌≢◌, refl, sym, ap, Option, none, some, [], ◌∷◌, Map, lookup, insert,
  lookup-insert, delete, lookup-delete, str_eq, eq_refl, eq_iff, arith, if◌then◌else◌, Option-cases,
  inl, inr,
}
use alertme.Model.{Device, Pairing, blocked}
use alertme.Store.{ok, not_found}
use alertme.Store.Fake
use alertme.Store.Fake.{Store, row}
use alertme.Store.Fake.Timeline.{row-insert}
use alertme.Store.Fake.Pairings.{copy_of}
use alertme.Dynamo.Keys.{TimeFormat, user_pk, device_sk, pair_sk}
use alertme.Dynamo.Items.{Value, text, status_name, new_device_record, new_pairing_record}
use alertme.Dynamo.Table.{
  Item, Table, attribute_exists, is_condition_failure, failed_check_as, wrapped,
}
use alertme.Dynamo.Entities.{Entity, user, device, pairing, invite, page, guard}
use alertme.Dynamo.Laws.{TableLaws, Shows, holds, is_valid}
use alertme.Dynamo.People
use alertme.Dynamo.Refinement.{Represents, Represents-put_at, record_of, recorded}
use alertme.Dynamo.Refinement.Calls.{Simulates, Ended-Simulates, db_call-Ended, kept}
use alertme.Dynamo.Refinement.Updates.{
  set_fields, FitsUpdate, update-Simulates, refuse-Simulates, no_item,
}

-- What `BlockPairing` sets.
abbrev pub block_fields : Map Value
block_fields = ("status", text (status_name blocked)) ∷ []

dropped :
    (u token a b : String) (o : Option (Map Device)) (m : Map (Map Device))
    → lookup u m ≡ o
    → lookup b (row a (Fake.drop_device u token o m)) ≡ (
        if str_eq u a
        then if str_eq token b then none else lookup b (row a m)
        else lookup b (row a m))
unfolding row lookup
dropped u token a b none m e = ground (arith, e, eq_iff u a)
dropped u token a b (some l) m e = ground (
  arith,
  e,
  lookup-insert u a (delete token l) m,
  lookup-delete token b l,
  eq_iff u a,
  eq_iff token b,
)

module _ (tf : TimeFormat) (t : Table) (laws : TableLaws t) where
  delete-frame :
      (u token : String) (s : Store) (e : Entity)
      → e ≢ device u token
      → record_of tf (Fake.delete_device u token s).1 e ≡ record_of tf s e
  unfolding record_of Fake.delete_device
  delete-frame u token s (device a b) h =
      let apart = λ (p : u ≡ a) (q : token ≡ b). h (sym (ap₂ device p q)) in
      ap (recorded (new_device_record tf)) (
        rw (dropped u token a b (lookup u s.devices) s.devices refl)
          (ground (arith, apart, eq_iff u a, eq_iff token b)))
  delete-frame u token s (user id) h = refl
  delete-frame u token s (pairing a b) h = refl
  delete-frame u token s (invite c) h = refl
  delete-frame u token s (page id) h = refl
  delete-frame u token s (guard k) h = refl

  pub delete_device-Simulates :
      (u token : String) (x : t.State) (s : Store)
      → laws.key_fits (user_pk u) (device_sk token)
      → Represents tf (laws.view x) s
      → Simulates t laws tf (People.delete_device tf t u token x) (Fake.delete_device u token s)
  unfolding People.delete_device Fake.delete_device record_of
  delete_device-Simulates u token x s fit r =
      let gone = dropped u token u token (lookup u s.devices) s.devices refl in
      Ended-Simulates t laws tf _ (ok tt) _ (Fake.delete_device u token s).1
        (db_call-Ended t laws wrapped _ _ (laws.delete_lem (user_pk u) (device_sk token) x fit))
        (Represents-put_at tf (device u token) none (laws.view x) s (Fake.delete_device u token s).1
          (rw (gone, eq_refl u, eq_refl token) tt) (delete-frame u token s) r)

  -- A pairing in the in-memory store after it is blocked.
  abbrev barred : Pairing → Pairing
  barred p = record p { status = blocked }

  abbrev with_barred : String → String → Pairing → Store → Store
  with_barred a b p s = record s {
    pairings = insert a (insert b (barred p) (row a s.pairings)) s.pairings;
  }

  set_fields-blocked :
      (p : Pairing)
      → set_fields block_fields (new_pairing_record tf p) ≡ new_pairing_record tf (barred p)
  unfolding set_fields new_pairing_record lookup
  set_fields-blocked p = refl

  has_pk :
      (it : Item) (p : Pairing)
      → Shows it (new_pairing_record tf p)
      → holds (attribute_exists "PK") (some it) ≡ true
  unfolding Shows new_pairing_record holds
  has_pk it p (a, b) = rw (kept t laws it "PK" (text (user_pk p.user_id)) a) refl

  block-frame :
      (u peer : String) (p : Pairing) (s : Store) (e : Entity)
      → e ≢ pairing u peer
      → record_of tf (with_barred u peer p s) e ≡ record_of tf s e
  unfolding record_of copy_of
  block-frame u peer p s (pairing a b) h =
      let apart = λ (q : u ≡ a) (r : peer ≡ b). h (sym (ap₂ pairing q r)) in
      ap (recorded (new_pairing_record tf)) (
        rw row-insert (
          ground (
            arith,
            apart,
            lookup-insert peer b (barred p) (row u s.pairings),
            eq_iff u a,
            eq_iff peer b,
          )))
  block-frame u peer p s (user id) h = refl
  block-frame u peer p s (device a b) h = refl
  block-frame u peer p s (invite c) h = refl
  block-frame u peer p s (page id) h = refl
  block-frame u peer p s (guard k) h = refl

  pub block_pairing-Simulates :
      (u peer : String) (x : t.State) (s : Store)
      → FitsUpdate t laws tf x (user_pk u) (pair_sk peer) block_fields (attribute_exists "PK")
      → Represents tf (laws.view x) s
      → Simulates t laws tf (People.block_pairing tf t u peer x) (Fake.block_pairing u peer s)
  unfolding People.block_pairing Fake.block_pairing record_of copy_of is_valid holds
      is_condition_failure
  block_pairing-Simulates u peer x s fit r = elim (Option-cases (lookup peer (row u s.pairings))) [
    | inl missing ↦ rw missing (
        refuse-Simulates t laws tf (pairing u peer) block_fields (attribute_exists "PK")
          (failed_check_as not_found is_condition_failure) x s fit (rw laws.pk_free refl)
          (rw (no_item t laws tf (pairing u peer) x s r (rw missing refl)) refl) r)
    | inr (p, there) ↦ rw there (
        update-Simulates t laws tf (pairing u peer) block_fields (attribute_exists "PK")
          (failed_check_as not_found is_condition_failure) (new_pairing_record tf p) x s
          (with_barred u peer p s) fit (rw there refl)
          (rw (row-insert, eq_refl u, lookup-insert, eq_refl peer, set_fields-blocked p) refl)
          (block-frame u peer p s) (rw laws.pk_free refl) (λ it shown. has_pk it p shown) r)
  ]
