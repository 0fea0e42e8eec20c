-- ===== src/Store/Exec.antt =====
-- The interfaces of backend/internal/store/store.go as the in-memory store implements them: one
-- function over the commands.
use alertme.Model.{Time}
use alertme.Store.{
  StoreCmd, Payload, Result, put_user, get_user, put_device, list_devices, delete_device,
  create_invite, accept_invite, get_pairing, list_pairings, block_pairing, create_page, get_page,
  get_page_by_idempotency_key, ack_page, set_page_state, append_event, list_events, list_pages_for,
}
use alertme.Store.Fake
use alertme.Store.Fake.{Store}

-- `checked` and `at` are the clock's readings, should the method take any.
unfoldable pub exec : Time → Time → (c : StoreCmd) → Store → Result (Payload c) × Store
exec checked at (put_user u) s = Fake.put_user u s
exec checked at (get_user id) s = Fake.get_user id s
exec checked at (put_device d) s = Fake.put_device d s
exec checked at (list_devices user_id) s = Fake.list_devices user_id s
exec checked at (delete_device user_id token) s = Fake.delete_device user_id token s
exec checked at (create_invite inv) s = Fake.create_invite inv s
exec checked at (accept_invite code accepter) s = Fake.accept_invite code accepter checked at s
exec checked at (get_pairing user_id peer_id) s = Fake.get_pairing user_id peer_id s
exec checked at (list_pairings user_id) s = Fake.list_pairings user_id s
exec checked at (block_pairing user_id peer_id) s = Fake.block_pairing user_id peer_id s
exec checked at (create_page p) s = Fake.create_page p s
exec checked at (get_page id) s = Fake.get_page id s
exec checked at (get_page_by_idempotency_key key) s = Fake.get_page_by_idempotency_key key s
exec checked at (ack_page id note when) s = Fake.ack_page id note when s
exec checked at (set_page_state id from to attempt) s = Fake.set_page_state id from to attempt s
exec checked at (append_event e) s = Fake.append_event e s
exec checked at (list_events page_id) s = Fake.list_events page_id s
exec checked at (list_pages_for user_id since) s = Fake.list_pages_for user_id since s
