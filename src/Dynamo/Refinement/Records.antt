-- ===== src/Dynamo/Refinement/Records.antt =====
-- The records of the DynamoDB store: their tags are distinct, and they are read back.
use alertme.Prelude.{String, true, ◌≡◌, ◌<◌, refl, List}
use alertme.Model.{User, Device, Pairing, Invite, Page, PageEvent}
use alertme.Store.{Result, ok}
use alertme.Dynamo.Keys.{TimeFormat}
use alertme.Dynamo.Items.{
  Field, new_user_record, to_user, new_device_record, new_pairing_record, to_pairing,
  new_invite_record, to_invite, new_page_record, to_page, new_event_record, new_idem_record,
}
use alertme.Dynamo.Items.RoundTrip.{
  IsTimeFormat, IsDated, year_10000, to_user-new_user_record, to_pairing-new_pairing_record,
  to_page-new_page_record, to_invite-new_invite_record,
}
use alertme.Dynamo.Laws.{blank, has_distinct_tags}
use alertme.Dynamo.People.{user_rec, pairing_rec, invite_rec}
use alertme.Dynamo.Pages.{page_rec}

-- A model's record: its zero value, and that it is read back.
pub record IsReadable {A : Type 0} (rec : List Field) (to_record : A → List Field)
    (to_model : List Field → Result A) (a : A) : Type 0 where
  pub zeroed : blank (to_record a) ≡ rec
  pub distinct : has_distinct_tags (to_record a) ≡ true
  pub back : to_model (to_record a) ≡ ok a

module _ (tf : TimeFormat) where
  pub new_user_record-distinct : (u : User) → has_distinct_tags (new_user_record tf u) ≡ true
  unfolding has_distinct_tags new_user_record
  new_user_record-distinct u = refl

  pub new_device_record-distinct : (d : Device) → has_distinct_tags (new_device_record tf d) ≡ true
  unfolding has_distinct_tags new_device_record
  new_device_record-distinct d = refl

  pub new_pairing_record-distinct :
      (p : Pairing) → has_distinct_tags (new_pairing_record tf p) ≡ true
  unfolding has_distinct_tags new_pairing_record
  new_pairing_record-distinct p = refl

  pub new_invite_record-distinct : (i : Invite) → has_distinct_tags (new_invite_record tf i) ≡ true
  unfolding has_distinct_tags new_invite_record
  new_invite_record-distinct i = refl

  pub new_page_record-distinct : (p : Page) → has_distinct_tags (new_page_record tf p) ≡ true
  unfolding has_distinct_tags new_page_record
  new_page_record-distinct p = refl

  pub new_event_record-distinct : (e : PageEvent) → has_distinct_tags (new_event_record tf e) ≡ true
  unfolding has_distinct_tags new_event_record
  new_event_record-distinct e = refl

  pub new_user_record-zero : (u : User) → blank (new_user_record tf u) ≡ user_rec
  unfolding blank new_user_record
  new_user_record-zero u = refl

  pub new_pairing_record-zero : (p : Pairing) → blank (new_pairing_record tf p) ≡ pairing_rec
  unfolding blank new_pairing_record
  new_pairing_record-zero p = refl

  pub new_page_record-zero : (p : Page) → blank (new_page_record tf p) ≡ page_rec
  unfolding blank new_page_record
  new_page_record-zero p = refl

  pub new_invite_record-zero : (i : Invite) → blank (new_invite_record tf i) ≡ invite_rec
  unfolding blank new_invite_record
  new_invite_record-zero i = refl

  module _ (law : IsTimeFormat tf) where
    pub invite-IsReadable :
        (i : Invite)
        → i.expires_at < year_10000
        → IsReadable invite_rec (new_invite_record tf) (to_invite tf) i
    invite-IsReadable i h = record {
      zeroed = new_invite_record-zero i;
      distinct = new_invite_record-distinct i;
      back = to_invite-new_invite_record tf law i h;
    }

    pub user-IsReadable :
        (u : User)
        → u.created_at < year_10000
        → IsReadable user_rec (new_user_record tf) (to_user tf) u
    user-IsReadable u h = record {
      zeroed = new_user_record-zero u;
      distinct = new_user_record-distinct u;
      back = to_user-new_user_record tf law u h;
    }

    pub pairing-IsReadable :
        (p : Pairing)
        → p.created_at < year_10000
        → IsReadable pairing_rec (new_pairing_record tf) (to_pairing tf) p
    pairing-IsReadable p h = record {
      zeroed = new_pairing_record-zero p;
      distinct = new_pairing_record-distinct p;
      back = to_pairing-new_pairing_record tf law p h;
    }

    pub page-IsReadable :
        (p : Page) → IsDated p → IsReadable page_rec (new_page_record tf) (to_page tf) p
    page-IsReadable p h = record {
      zeroed = new_page_record-zero p;
      distinct = new_page_record-distinct p;
      back = to_page-new_page_record tf law p h;
    }

pub new_idem_record-distinct : (key id : String) → has_distinct_tags (new_idem_record key id) ≡ true
unfolding has_distinct_tags new_idem_record
new_idem_record-distinct key id = refl
