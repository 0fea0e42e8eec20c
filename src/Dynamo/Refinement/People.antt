-- ===== src/Dynamo/Refinement/People.antt =====
-- The methods on users, devices, invites and pairings of both stores, side by side.
use mathlib.Core.Path.{ap₂}
use alertme.Prelude.{
  String, ◌<◌, ◌≡◌, ◌≢◌, refl, sym, ap, subst, some, lookup, lookup-insert, eq_refl, eq_iff, arith,
  ne-eq_false,
}
use alertme.Model.{User, Device, Pairing, Invite}
use alertme.Store.Fake
use alertme.Store.Fake.{Store}
use alertme.Store.Fake.Timeline.{row-insert}
use alertme.Store.Fake.Pairings.{copy_of}
use alertme.Dynamo.Keys.{TimeFormat, user_pk, pair_sk, sk_profile}
use alertme.Dynamo.Items.{
  new_user_record, to_user, new_device_record, new_invite_record, new_pairing_record, to_pairing,
}
use alertme.Dynamo.Items.RoundTrip.{IsTimeFormat, year_10000}
use alertme.Dynamo.Table.{Table}
use alertme.Dynamo.Entities.{Entity, user, device, pairing, invite, page, guard, pk, sk}
use alertme.Dynamo.Laws.{TableLaws}
use alertme.Dynamo.People
use alertme.Dynamo.People.{user_rec, pairing_rec}
use alertme.Dynamo.Refinement.{Represents, record_of, recorded}
use alertme.Dynamo.Refinement.Calls.{
  IsFound, FitsAt, Simulates, put_record-Simulates, found-Represents, or_missing,
  or_missing-Simulates,
}
use alertme.Dynamo.Refinement.Records.{
  new_user_record-distinct, new_device_record-distinct, new_invite_record-distinct, user-IsReadable,
  pairing-IsReadable,
}

module _ (tf : TimeFormat) (t : Table) (laws : TableLaws t) where
  user-frame :
      (u : User) (s : Store) (e : Entity)
      → e ≢ user u.id
      → record_of tf (Fake.put_user u s).1 e ≡ record_of tf s e
  unfolding record_of Fake.put_user
  user-frame u s (user id) h =
      rw (lookup-insert, ne-eq_false u.id id (λ q. h (ap user (sym q)))) refl
  user-frame u s (device a b) h = refl
  user-frame u s (pairing a b) h = refl
  user-frame u s (invite c) h = refl
  user-frame u s (page id) h = refl
  user-frame u s (guard k) h = refl

  pub put_user-Simulates :
      (u : User) (x : t.State) (s : Store)
      → FitsAt t laws (pk (user u.id)) (sk (user u.id)) (new_user_record tf u)
      → Represents tf (laws.view x) s
      → Simulates t laws tf (People.put_user tf t u x) (Fake.put_user u s)
  unfolding People.put_user Fake.put_user record_of new_user_record
  put_user-Simulates u x s fit r =
      put_record-Simulates t laws tf (user u.id) _ x s (Fake.put_user u s).1 fit
        (new_user_record-distinct tf u) (rw (lookup-insert, eq_refl u.id) refl) (user-frame u s) r

  pub get_user_result :
      IsTimeFormat tf
      → (id : String) (x : t.State) (s : Store) → IsFound t laws x (user_pk id) sk_profile
      → ((u : User) → lookup id s.users ≡ some u → u.created_at < year_10000)
      → Represents tf (laws.view x) s
      → People.get_user tf t id x ≡ (or_missing t laws (lookup id s.users), x)
  unfolding People.get_user record_of
  get_user_result time id x s found_at dated r =
      found-Represents t laws tf (user id) x s user_rec (new_user_record tf) (to_user tf)
        (lookup id s.users) found_at refl (λ u e. user-IsReadable tf time u (dated u e)) r

  pub get_user-Simulates :
      IsTimeFormat tf
      → (id : String) (x : t.State) (s : Store) → IsFound t laws x (user_pk id) sk_profile
      → ((u : User) → lookup id s.users ≡ some u → u.created_at < year_10000)
      → Represents tf (laws.view x) s
      → Simulates t laws tf (People.get_user tf t id x) (Fake.get_user id s)
  unfolding Fake.get_user
  get_user-Simulates time id x s found_at dated r =
      subst (λ m. Simulates t laws tf m (Fake.get_user id s))
        (sym (get_user_result time id x s found_at dated r))
        (or_missing-Simulates t laws tf (lookup id s.users) x s r)

  device-frame :
      (d : Device) (s : Store) (e : Entity)
      → e ≢ device d.user_id d.token
      → record_of tf (Fake.put_device d s).1 e ≡ record_of tf s e
  unfolding record_of Fake.put_device
  device-frame d s (user id) h = refl
  device-frame d s (device a b) h =
      let apart = λ (p : d.user_id ≡ a) (q : d.token ≡ b). h (sym (ap₂ device p q)) in
      ap (recorded (new_device_record tf)) (
        rw row-insert (
          ground (
            arith,
            apart,
            lookup-insert d.token b d (Fake.row d.user_id s.devices),
            eq_iff d.user_id a,
            eq_iff d.token b,
          )))
  device-frame d s (pairing a b) h = refl
  device-frame d s (invite c) h = refl
  device-frame d s (page id) h = refl
  device-frame d s (guard k) h = refl

  pub put_device-Simulates :
      (d : Device) (x : t.State) (s : Store)
      → FitsAt t laws
          (pk (device d.user_id d.token))
          (sk (device d.user_id d.token))
          (new_device_record tf d)
      → Represents tf (laws.view x) s
      → Simulates t laws tf (People.put_device tf t d x) (Fake.put_device d s)
  unfolding People.put_device Fake.put_device record_of new_device_record
  put_device-Simulates d x s fit r =
      put_record-Simulates t laws tf (device d.user_id d.token) _ x s (Fake.put_device d s).1 fit
        (new_device_record-distinct tf d)
        (rw (row-insert, eq_refl d.user_id, lookup-insert, eq_refl d.token) refl) (device-frame d s)
        r

  invite-frame :
      (i : Invite) (s : Store) (e : Entity)
      → e ≢ invite i.code
      → record_of tf (Fake.create_invite i s).1 e ≡ record_of tf s e
  unfolding record_of Fake.create_invite
  invite-frame i s (user id) h = refl
  invite-frame i s (device a b) h = refl
  invite-frame i s (pairing a b) h = refl
  invite-frame i s (invite c) h =
      rw (lookup-insert, ne-eq_false i.code c (λ q. h (ap invite (sym q)))) refl
  invite-frame i s (page id) h = refl
  invite-frame i s (guard k) h = refl

  pub create_invite-Simulates :
      (i : Invite) (x : t.State) (s : Store)
      → FitsAt t laws (pk (invite i.code)) (sk (invite i.code)) (new_invite_record tf i)
      → Represents tf (laws.view x) s
      → Simulates t laws tf (People.create_invite tf t i x) (Fake.create_invite i s)
  unfolding People.create_invite Fake.create_invite record_of new_invite_record
  create_invite-Simulates i x s fit r =
      put_record-Simulates t laws tf (invite i.code) _ x s (Fake.create_invite i s).1 fit
        (new_invite_record-distinct tf i) (rw (lookup-insert, eq_refl i.code) refl)
        (invite-frame i s) r

  pub get_pairing-Simulates :
      IsTimeFormat tf
      → (a b : String) (x : t.State) (s : Store) → IsFound t laws x (user_pk a) (pair_sk b)
      → ((p : Pairing) → lookup b (Fake.row a s.pairings) ≡ some p → p.created_at < year_10000)
      → Represents tf (laws.view x) s
      → Simulates t laws tf (People.get_pairing tf t a b x) (Fake.get_pairing a b s)
  unfolding People.get_pairing Fake.get_pairing record_of copy_of
  get_pairing-Simulates time a b x s found_at dated r =
      subst (λ m. Simulates t laws tf m (Fake.get_pairing a b s))
        (sym (
          found-Represents t laws tf (pairing a b) x s pairing_rec (new_pairing_record tf)
            (to_pairing tf) (lookup b (Fake.row a s.pairings)) found_at refl
            (λ p e. pairing-IsReadable tf time p (dated p e)) r))
        (or_missing-Simulates t laws tf (lookup b (Fake.row a s.pairings)) x s r)
