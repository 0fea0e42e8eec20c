-- ===== src/Dynamo/Items/RoundTrip.antt =====
-- Reading a record back as what it was made of.
use alertme.Prelude.{◌*◌, ◌<◌, ◌≡◌, ◌≢◌, refl, Option, some, none, ne-eq_false}
use alertme.Model.{
  Time, PageState, created, pushed, delivered, seen, acked, expired, cancelled, state_name,
  PairingStatus, active, blocked, User, Device, Pairing, Invite, Page, PageEvent,
}
use alertme.Nag.{second}
use alertme.Store.{ok}
use alertme.Dynamo.Keys.{TimeFormat}
use alertme.Dynamo.Items.{
  state_of, status_of, status_name, parse_time, fmt_time, acked_time, acked_text, to_user,
  new_user_record, to_device, new_device_record, to_pairing, new_pairing_record, to_invite,
  new_invite_record, to_page, new_page_record, to_event, new_event_record,
}

-- The start of the year 10000, after 3652059 days.
abbrev pub year_10000 : Time
year_10000 = 3652059 * 86400 * second

-- What package `time` documents of its layouts: a time of four-digit years is read back from its
-- text, down to the nanosecond.
pub record IsTimeFormat (tf : TimeFormat) : Type 0 where
  pub parse-format : (t : Time) → t < year_10000 → tf.parse_nano (tf.rfc3339_nano t) ≡ some t
  pub format-ne-nil : (t : Time) → tf.rfc3339_nano t ≢ ""

state_of-state_name : (st : PageState) → state_of (state_name st) ≡ ok st
unfolding state_of state_name
state_of-state_name created = refl
state_of-state_name pushed = refl
state_of-state_name delivered = refl
state_of-state_name seen = refl
state_of-state_name acked = refl
state_of-state_name expired = refl
state_of-state_name cancelled = refl

status_of-status_name : (st : PairingStatus) → status_of (status_name st) ≡ ok st
unfolding status_of status_name
status_of-status_name active = refl
status_of-status_name blocked = refl

-- The times of a page are before the year 10000.
pub record IsDated (p : Page) : Type 0 where
  pub created : p.created_at < year_10000
  pub expires : p.expires_at < year_10000
  pub acked : (t : Time) → p.acked_at ≡ some t → t < year_10000

module _ (tf : TimeFormat) (law : IsTimeFormat tf) where
  parse_time-fmt_time : (t : Time) → t < year_10000 → parse_time tf (fmt_time tf t) ≡ ok t
  unfolding parse_time fmt_time
  parse_time-fmt_time t h = rw (law.parse-format t h)

  acked_time-acked_text :
      (o : Option Time)
      → ((t : Time) → o ≡ some t → t < year_10000)
      → acked_time tf (acked_text tf o) ≡ ok o
  unfolding acked_time parse_time
  acked_time-acked_text none h = refl
  acked_time-acked_text (some t) h =
      rw (ne-eq_false (tf.rfc3339_nano t) "" (law.format-ne-nil t), law.parse-format t (h t refl))

  pub to_user-new_user_record :
      (u : User) → u.created_at < year_10000 → to_user tf (new_user_record tf u) ≡ ok u
  unfolding to_user new_user_record
  to_user-new_user_record u h = rw (law.parse-format u.created_at h)

  pub to_device-new_device_record :
      (d : Device) → d.updated_at < year_10000 → to_device tf (new_device_record tf d) ≡ ok d
  unfolding to_device new_device_record
  to_device-new_device_record d h = rw (law.parse-format d.updated_at h)

  pub to_pairing-new_pairing_record :
      (p : Pairing) → p.created_at < year_10000 → to_pairing tf (new_pairing_record tf p) ≡ ok p
  unfolding to_pairing new_pairing_record
  to_pairing-new_pairing_record p h =
      rw (law.parse-format p.created_at h, status_of-status_name p.status)

  pub to_invite-new_invite_record :
      (i : Invite) → i.expires_at < year_10000 → to_invite tf (new_invite_record tf i) ≡ ok i
  unfolding to_invite new_invite_record
  to_invite-new_invite_record i h = rw (law.parse-format i.expires_at h)

  pub to_event-new_event_record :
      (e : PageEvent) → e.at < year_10000 → to_event tf (new_event_record tf e) ≡ ok e
  unfolding to_event new_event_record
  to_event-new_event_record e h = rw (law.parse-format e.at h)

  -- A page record is read back as the page that it was made of, in every field, where the page's
  -- times are before the year 10000.
  pub to_page-new_page_record : (p : Page) → IsDated p → to_page tf (new_page_record tf p) ≡ ok p
  unfolding to_page new_page_record
  to_page-new_page_record p h = rw (
    law.parse-format p.created_at h.created,
    law.parse-format p.expires_at h.expires,
    acked_time-acked_text p.acked_at h.acked,
    state_of-state_name p.state,
  )
