-- ===== src/Dynamo/Refinement.antt =====
-- The DynamoDB store of backend/internal/store/dynamo against the in-memory store: which items stand
-- for a state of the latter.
pub mod Records
pub mod Calls
pub mod Updates
pub mod People
pub mod Removed
pub mod Exchange
pub mod Accepting
pub mod Pages
pub mod Steps
use alertme.Prelude.{
  String, Bool, true, false, ◌≡◌, ◌≢◌, ap, ⊤, Option, none, some, List, [], ◌∷◌, str_eq,
  if◌then◌else◌, lookup, eq_iff, arith, Bool-cases, inl, inr,
}
use alertme.Model.{Time, PageState}
use alertme.Store.{StoreCmd, Payload, Err, Result, ok, err, not_found, conflict}
use alertme.Store.Fake
use alertme.Store.Fake.{Store}
use alertme.Store.Fake.Pairings.{copy_of}
use alertme.Dynamo.Keys.{TimeFormat, page_pk, event_sk}
use alertme.Dynamo.Items.{
  Field, new_user_record, new_device_record, new_pairing_record, new_invite_record, new_page_record,
  new_idem_record,
}
use alertme.Dynamo.Table.{Item, Table, Method}
use alertme.Dynamo.Entities.{
  Entity, user, device, pairing, invite, page, guard, pk, sk, key_inj, event_sk-ne-sk,
}
use alertme.Dynamo.Laws.{View, Shows, put_at, TableLaws}

abbrev pub recorded {ℓ} : {A : Type ℓ} → (A → List Field) → Option A → Option (List Field)
recorded f none = none
recorded f (some a) = some (f a)

-- The record that stands for an entity of the in-memory store.
unfoldable pub record_of : TimeFormat → Store → Entity → Option (List Field)
unfolding copy_of
record_of tf s (user id) = recorded (new_user_record tf) (lookup id s.users)
record_of tf s (device user_id token) =
    recorded (new_device_record tf) (lookup token (Fake.row user_id s.devices))
record_of tf s (pairing user_id peer_id) =
    recorded (new_pairing_record tf) (copy_of user_id peer_id s.pairings)
record_of tf s (invite code) = recorded (new_invite_record tf) (lookup code s.invites)
record_of tf s (page id) = recorded (new_page_record tf) (lookup id s.pages)
record_of tf s (guard key) = recorded (new_idem_record key) (lookup key s.idem)

abbrev pub Stored : Option Item → Option (List Field) → Type 0
Stored none none = ⊤
Stored none (some fs) = ⊥
Stored (some it) none = ⊥
Stored (some it) (some fs) = Shows it fs

-- Every entity of the store, and no other, has its item.
unfoldable pub Represents : TimeFormat → View → Store → Type 0
unfolding record_of
Represents tf v s = (e : Entity) → Stored (v (pk e) (sk e)) (record_of tf s e)

module _ (tf : TimeFormat) where
  pub Represents-ext :
      (v w : View) (s : Store)
      → ((p k : String) → w p k ≡ v p k)
      → Represents tf v s
      → Represents tf w s
  unfolding Represents
  Represents-ext v w s same h e = rw (same (pk e) (sk e)) (h e)

  -- A write of one entity.
  pub Represents-put_at :
      (d : Entity) (o : Option Item) (v : View) (s s' : Store)
      → Stored o (record_of tf s' d)
      → ((e : Entity) → e ≢ d → record_of tf s' e ≡ record_of tf s e)
      → Represents tf v s
      → Represents tf (put_at (pk d) (sk d) o v) s'
  unfolding Represents put_at
  Represents-put_at d o v s s' new frame h e = elim (Bool-cases (str_eq (pk e) (pk d))) [
    | inr a ↦ rw (a, frame e (λ q. ground (arith, ap pk q, eq_iff (pk e) (pk d)))) (h e)
    | inl a ↦ elim (Bool-cases (str_eq (sk e) (sk d))) [
      | inr b ↦ rw (a, b, frame e (λ q. ground (arith, ap sk q, eq_iff (sk e) (sk d)))) (h e)
      | inl b ↦
          let same =
            key_inj e d (ground (arith, eq_iff (pk e) (pk d)))
              (ground (arith, eq_iff (sk e) (sk d))) in
          rw (a, b, same) new
    ]
  ]

  -- A write of an event.
  pub Represents-event :
      (at : Time) (kind id : String) (o : Option Item) (v : View) (s : Store)
      → Represents tf v s
      → Represents tf (put_at (page_pk id) (event_sk tf at kind) o v) s
  unfolding Represents put_at
  Represents-event at kind id o v s h e = elim (Bool-cases (str_eq (pk e) (page_pk id))) [
    | inr a ↦ rw a (h e)
    | inl a ↦ elim (Bool-cases (str_eq (sk e) (event_sk tf at kind))) [
      | inr b ↦ rw (a, b) (h e)
      | inl b ↦ absurd (
          event_sk-ne-sk tf at kind id e (ground (arith, eq_iff (pk e) (page_pk id)))
            (ground (arith, eq_iff (sk e) (event_sk tf at kind))))
    ]
  ]
