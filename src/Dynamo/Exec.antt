-- ===== src/Dynamo/Exec.antt =====
-- The interfaces of backend/internal/store/store.go as the DynamoDB store implements them: one
-- method over the commands.
use alertme.Model.{Time}
use alertme.Store.{StoreCmd, Payload}
use alertme.Dynamo.Keys.{TimeFormat}
use alertme.Dynamo.Table.{Table, Method}
use alertme.Dynamo.People
use alertme.Dynamo.Pages

-- The command of the store's contract, on the table.
unfoldable pub perform :
    (tf : TimeFormat) (t : Table) → Time → Time → (c : StoreCmd) → Method t.State (Payload c)
perform tf t checked at (StoreCmd.put_user u) = People.put_user tf t u
perform tf t checked at (StoreCmd.get_user id) = People.get_user tf t id
perform tf t checked at (StoreCmd.put_device d) = People.put_device tf t d
perform tf t checked at (StoreCmd.list_devices user_id) = People.list_devices tf t user_id
perform tf t checked at (StoreCmd.delete_device user_id token) =
    People.delete_device tf t user_id token
perform tf t checked at (StoreCmd.create_invite inv) = People.create_invite tf t inv
perform tf t checked at (StoreCmd.accept_invite code u) =
    People.accept_invite tf t code u checked at
perform tf t checked at (StoreCmd.get_pairing user_id peer_id) =
    People.get_pairing tf t user_id peer_id
perform tf t checked at (StoreCmd.list_pairings user_id) = People.list_pairings tf t user_id
perform tf t checked at (StoreCmd.block_pairing user_id peer_id) =
    People.block_pairing tf t user_id peer_id
perform tf t checked at (StoreCmd.create_page p) = Pages.create_page tf t p
perform tf t checked at (StoreCmd.get_page id) = Pages.get_page tf t id
perform tf t checked at (StoreCmd.get_page_by_idempotency_key key) =
    Pages.get_page_by_idempotency_key tf t key
perform tf t checked at (StoreCmd.ack_page id note when) = Pages.ack_page tf t id note when
perform tf t checked at (StoreCmd.set_page_state id from to attempt) =
    Pages.set_page_state tf t id from to attempt
perform tf t checked at (StoreCmd.append_event e) = Pages.append_event tf t e
perform tf t checked at (StoreCmd.list_events page_id) = Pages.list_events tf t page_id
perform tf t checked at (StoreCmd.list_pages_for user_id since) =
    Pages.list_pages_for tf t user_id since
