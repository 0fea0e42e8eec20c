-- ===== src/Store.antt =====
-- backend/internal/store/store.go: the persistence contract. Each method of the interfaces `Store`,
-- `IdempotentPageLookup` and `DeviceDeleter` is a command; an error is known by what `errors.Is`
-- tells of it, so a wrapped `ErrNotFound` is `not_found`, and any other failure is `other`.
pub mod Fake
pub mod Exec
pub mod Contract
use alertme.Prelude.{String, ⊤, List}
use alertme.Int.{ℤ}
use alertme.Model.{Time, PageState, User, Device, Pairing, Invite, Page, PageEvent}

pub data Err : Type 0 where
  not_found conflict other : Err

pub data Result {ℓ} (A : Type ℓ) : Type ℓ where
  ok : A → Result A
  err : Err → Result A

pub data StoreCmd : Type 0 where
  put_user : User → StoreCmd
  get_user : String → StoreCmd
  put_device : Device → StoreCmd
  list_devices : String → StoreCmd
  delete_device : String → String → StoreCmd
  create_invite : Invite → StoreCmd
  accept_invite : String → User → StoreCmd
  get_pairing : String → String → StoreCmd
  list_pairings : String → StoreCmd
  block_pairing : String → String → StoreCmd
  create_page : Page → StoreCmd
  get_page : String → StoreCmd
  get_page_by_idempotency_key : String → StoreCmd
  ack_page : String → String → Time → StoreCmd
  set_page_state : String → List PageState → PageState → ℤ → StoreCmd
  append_event : PageEvent → StoreCmd
  list_events : String → StoreCmd
  list_pages_for : String → Time → StoreCmd

-- What a method returns when its error is nil.
abbrev pub Payload : StoreCmd → Type 0
Payload (put_user u) = ⊤
Payload (get_user id) = User
Payload (put_device d) = ⊤
Payload (list_devices user_id) = List Device
Payload (delete_device user_id token) = ⊤
Payload (create_invite inv) = ⊤
Payload (accept_invite code accepter) = Pairing
Payload (get_pairing user_id peer_id) = Pairing
Payload (list_pairings user_id) = List Pairing
Payload (block_pairing user_id peer_id) = ⊤
Payload (create_page p) = ⊤
Payload (get_page id) = Page
Payload (get_page_by_idempotency_key key) = Page
Payload (ack_page id note at) = ⊤
Payload (set_page_state id from to attempt) = ⊤
Payload (append_event e) = ⊤
Payload (list_events page_id) = List PageEvent
Payload (list_pages_for user_id since) = List Page
