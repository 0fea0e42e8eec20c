-- ===== src/Store/Fake/Frame.antt =====
-- The commands that leave the pages and the idempotency keys of the in-memory store alone.
use alertme.Prelude.{⊤, ◌≡◌, arith}
use alertme.Model.{Time}
use alertme.Store.{StoreCmd}
use alertme.Store
use alertme.Store.Exec.{exec}
use alertme.Store.Fake
use alertme.Store.Fake.{Store}

abbrev pub WritesNoPage : StoreCmd → Type 0
WritesNoPage (Store.create_page p) = ⊥
WritesNoPage (Store.ack_page id note when) = ⊥
WritesNoPage (Store.set_page_state id from to attempt) = ⊥
WritesNoPage c = ⊤

pub record SamePages (s t : Store) : Type 0 where
  pub pages : t.pages ≡ s.pages
  pub idem : t.idem ≡ s.idem

pub frame :
    (checked at : Time) (c : StoreCmd) (s : Store)
    → WritesNoPage c
    → SamePages s (exec checked at c s).1
unfolding exec Fake.put_user Fake.put_device Fake.delete_device Fake.create_invite Fake.append_event
    Fake.get_user Fake.list_devices Fake.accept_invite Fake.get_pairing Fake.list_pairings
    Fake.block_pairing Fake.get_page Fake.get_page_by_idempotency_key Fake.list_events
    Fake.list_pages_for
frame checked at (Store.create_page p) s h = absurd h
frame checked at (Store.ack_page id note when) s h = absurd h
frame checked at (Store.set_page_state id from to attempt) s h = absurd h
frame checked at c s h = ground arith
