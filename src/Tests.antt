-- ===== src/Tests.antt =====
-- What the examples share: two paired users, one page between them, and an environment in which no
-- call fails.
pub mod Pager
pub mod Api
pub mod Creating
pub mod System
pub mod Listing
pub mod Invites
pub mod Table
pub mod Dynamo
pub mod Clients
use alertme.Prelude.{ℕ, suc, String, refl, true, none, [], ◌∷◌, ◌*◌}
use alertme.Int.{pos, negsuc}
use alertme.Model.{User, Device, Page, Pairing, created, active}
use alertme.Nag.{minute}
use alertme.Store.Fake.{Store}
use alertme.Queue.{PageTask}
use alertme.Push.{sent}
use alertme.World.{Env, World, up, unset}
use alertme.World.Run.{IsSteady}
use alertme.Api.Identity.{Identity}

-- The clock stands at a minute after the page was made.
abbrev pub env : Env
env = record {
  reading = λ n. minute;
  reading_after = λ n. minute;
  store_fault = λ n. up;
  queue_fault = λ n. up;
  sender_loads = λ n. true;
  push_result = λ n. sent;
  id = λ n. "p2";
  invite_code = λ n k. "ABCDEFGH";
  capable = λ c. true;
}

pub env-IsSteady : IsSteady env
env-IsSteady = record { store_up = λ n. refl; queue_up = λ n. refl }

abbrev pub alice : Identity
alice = record { user_id = "alice"; email = "alice@example.com" }

abbrev pub bob : Identity
bob = record { user_id = "bob"; email = "bob@example.com" }

abbrev pub eve : Identity
eve = record { user_id = "eve"; email = "eve@example.com" }

abbrev pub device : Device
device = record { user_id = "bob"; token = "token-1"; platform = "android"; updated_at = 0 }

abbrev pub page : Page
page = record {
  id = "p1";
  sender_id = "alice";
  recipient_id = "bob";
  message = "wake up";
  state = created;
  attempt = negsuc 0;
  idempotency_key = "key-1";
  created_at = 0;
  expires_at = 30 * minute;
  acked_at = none;
  ack_note = "";
}

abbrev pub alice_to_bob : Pairing
alice_to_bob = record {
  user_id = "alice";
  peer_id = "bob";
  peer_name = "Bob";
  status = active;
  created_at = 0;
}

abbrev pub bob_to_alice : Pairing
bob_to_alice = record {
  user_id = "bob";
  peer_id = "alice";
  peer_name = "Alice";
  status = active;
  created_at = 0;
}

abbrev pub store_with : Page → Store
store_with p = record {
  users = ("alice", record { id = "alice"; display_name = "Alice"; created_at = 0 }) ∷ [];
  devices = ("bob", ("token-1", device) ∷ []) ∷ [];
  pairings = ("alice", ("bob", alice_to_bob) ∷ []) ∷ ("bob", ("alice", bob_to_alice) ∷ []) ∷ [];
  invites = [];
  pages = ("p1", p) ∷ [];
  events = [];
  idem = ("key-1", "p1") ∷ [];
}

abbrev pub world_with : Page → World
world_with p = record { store = store_with p; tasks = []; pushes = []; sender = unset; calls = 0 }

abbrev pub task : PageTask
task = record { page_id = "p1"; attempt = pos 0 }
