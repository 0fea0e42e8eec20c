-- ===== src/Tests/System.antt =====
-- A run of the system: Bob acknowledges Alice's page while the pager handles its first task.
use alertme.Prelude.{
  ℕ, zero, suc, String, ⊤, ◌≡◌, refl, some, none, List, length, [], ◌∷◌, ◌++◌, ◌⊎◌, ◌≤◌, ◌*◌,
  lookup, insert,
}
use alertme.Model.{Page, is_active}
use alertme.Int.{pos}
use alertme.Queue.{PageTask, delay_seconds}
use alertme.Nag.{minute}
use alertme.Store.Exec.{exec}
use alertme.Store.Contract.{Evolves}
use alertme.Store.Fake.{empty, row, ack, get_page, ack_page, append_event}
use alertme.Store.Fake.Invariant.{IsWellFormed, empty-IsWellFormed}
use alertme.Store.Fake.Pairings.{IsMutual, empty-IsMutual}
use alertme.Prog.{Prog, ret, call, ◌>>=◌}
use alertme.World.{World, IsUntouched, unset, answer, run}
use alertme.Pager.{handle_record, handle_batch}
use alertme.Api.Receipts.{handle_ack_page}
use alertme.Api.Router.{
  Route, post_devices, post_invites, post_invites_accept, post_pages, post_pages_ack, serve,
  dispatch,
}
use alertme.Api.Identity.{with_identity}
use alertme.System.{System, begin, start, turn, here, forget}
use alertme.System.Handlers.{request, batch, Run}
use alertme.System.Lifecycle.{page_lifecycle, final_page_silent, store_consistent}
use alertme.Api.Contacts.{
  ensure_user, handle_accept_invite, handle_create_invite, handle_register_device, new_user,
}
use alertme.Api.Create.{create_checked, create_now, handle_create_page, is_complete, new_page}
use alertme.Prelude.{delete}
use alertme.Store.Fake.{
  accept_invite, create_invite, create_page, created_event, get_pairing, get_user, pairing_of,
  put_device, put_pairing, put_user, row,
}
use alertme.World.{push_task}
use alertme.Pager.Chain.{successor, one_task_at_most}
use alertme.Tests.{env, page, world_with, task}

-- The first thread makes its next call, if it has one.
unfoldable step_first : World → List (Prog ⊤) → System
step_first w [] = record { world = w; threads = [] }
step_first w (ret a ∷ ts) = record { world = w; threads = ret a ∷ ts }
step_first w (call c k ∷ ts) = record {
  world = (answer env c w).1;
  threads = k (answer env c w).0 ∷ ts;
}

unfoldable steps : ℕ → System → System
unfolding step_first
steps zero s = s
steps (suc n) s = steps n (step_first s.world s.threads)

step_first-Run :
    (s : System) (w : World) (ts : List (Prog ⊤))
    → Run env s (record { world = w; threads = ts })
    → Run env s (step_first w ts)
unfolding step_first
step_first-Run s w [] r = r
step_first-Run s w (ret a ∷ ts) r = r
step_first-Run s w (call c k ∷ ts) r = turn r (here c k ts)

steps-Run : (n : ℕ) (s t : System) → Run env s t → Run env s (steps n t)
unfolding steps
steps-Run zero s t r = r
steps-Run (suc n) s t r =
    steps-Run n s (step_first t.world t.threads) (step_first-Run s t.world t.threads r)

abbrev idle_system : System
idle_system = record { world = world_with page; threads = [] }

abbrev ack_request : Prog ⊤
ack_request =
    forget (serve (λ raw. none) "bob" "bob@example.com" none (post_pages_ack "p1" "on my way"))

abbrev pager_batch : Prog ⊤
pager_batch = forget (handle_batch (("m1", some task) ∷ []))

-- The batch is handed to the pager, which loads the page, and the request begins.
abbrev paged : System
paged = steps 1 (record { world = world_with page; threads = pager_batch ∷ [] })

abbrev asked : System
asked = record { world = paged.world; threads = ack_request ∷ paged.threads }

-- The request is served to its end, and the batch goes on.
abbrev acked_system : System
acked_system = steps 4 asked

asked-Run : Run env idle_system asked
asked-Run =
    start ack_request
      (steps-Run 1 idle_system (record { world = world_with page; threads = pager_batch ∷ [] })
        (start pager_batch begin (batch (("m1", some task) ∷ []))))
      (request (λ raw. none) "bob" "bob@example.com" none (post_pages_ack "p1" "on my way"))

acked-Run : Run env asked acked_system
acked-Run = steps-Run 4 asked asked begin

page-asked : lookup "p1" asked.world.store.pages ≡ some page
unfolding lookup steps step_first handle_batch handle_record forget answer exec get_page ◌>>=◌
page-asked = refl

page_lifecycle_example :
    (q : Page) × (lookup "p1" acked_system.world.store.pages ≡ some q) × Evolves page q
page_lifecycle_example = page_lifecycle env refl asked-Run acked-Run "p1" page page-asked

page-acked : lookup "p1" acked_system.world.store.pages ≡ some (ack "on my way" minute page)
unfolding lookup steps step_first handle_batch handle_record forget answer exec get_page serve
    dispatch with_identity handle_ack_page ack_page is_active append_event insert ◌>>=◌
page-acked = refl

-- The task is delivered once more.
abbrev redelivered : System
redelivered =
    steps 1 (record { world = acked_system.world; threads = pager_batch ∷ acked_system.threads })

redelivered-Run : Run env acked_system redelivered
redelivered-Run =
    steps-Run 1 acked_system
      (record { world = acked_system.world; threads = pager_batch ∷ acked_system.threads })
      (start pager_batch begin (batch (("m1", some task) ∷ [])))

final_page_silent_example :
    IsUntouched redelivered.world (run env (handle_record (some task)) redelivered.world).1
unfolding ack is_active
final_page_silent_example =
    final_page_silent env env refl (steps-Run 4 idle_system asked asked-Run) redelivered-Run task
      (ack "on my way" minute page) page-acked refl

-- From an empty store: Alice registers a device and makes an invite, Bob accepts it, and Alice
-- pages him.
abbrev request_of : String → Route → Prog ⊤
request_of user route = forget (serve (λ raw. none) user "" none route)

abbrev served : String → Route → System → System
served user route s =
    steps 12 (record { world = s.world; threads = request_of user route ∷ s.threads })

served-Run :
    (user : String) (route : Route) (a s : System) → Run env a s → Run env a (served user route s)
served-Run user route a s r =
    steps-Run 12 a (record { world = s.world; threads = request_of user route ∷ s.threads })
      (start (request_of user route) r (request (λ raw. none) user "" none route))

abbrev first_page : Route
first_page =
    post_pages
      (some (record { recipient_id = "bob"; message = "hello"; idempotency_key = "key-1" }))

abbrev nobody : System
nobody = record {
  world = record { store = empty; tasks = []; pushes = []; sender = unset; calls = 0 };
  threads = [];
}

abbrev registered : System
registered =
    served "alice" (post_devices (some (record { token = "token-2"; platform = "ios" }))) nobody

abbrev invited : System
invited = served "alice" post_invites registered

abbrev paired : System
paired = served "bob" (post_invites_accept "ABCDEFGH") invited

abbrev first_day : System
first_day = served "alice" first_page paired

paired-Run : Run env nobody paired
paired-Run = served-Run "bob" (post_invites_accept "ABCDEFGH") nobody invited (
    served-Run "alice" post_invites nobody registered (
      served-Run "alice" (post_devices (some (record { token = "token-2"; platform = "ios" })))
        nobody nobody begin))

store_consistent_example :
    IsWellFormed first_day.world.store × IsMutual first_day.world.store.pairings
unfolding empty
store_consistent_example =
    store_consistent env refl empty-IsWellFormed empty-IsMutual
      (served-Run "alice" first_page nobody paired paired-Run)

first_day-IsWellFormed : IsWellFormed first_day.world.store
unfolding empty
first_day-IsWellFormed =
    (store_consistent env refl empty-IsWellFormed empty-IsMutual
      (served-Run "alice" first_page nobody paired paired-Run)).0

-- The first task of Alice's page.
abbrev first_task : PageTask
first_task = record { page_id = "p2"; attempt = pos 0 }

one_task_at_most_example :
    ((run env (handle_record (some first_task)) first_day.world).1.tasks ≡ first_day.world.tasks)
    ⊎ ((d : ℕ) × (d ≤ 15 * minute)
        × (delay_seconds d ≤ 900)
        × ((run env (handle_record (some first_task)) first_day.world).1.tasks
            ≡ first_day.world.tasks ++ record { task = successor first_task "p2"; delay = d } ∷ []))
one_task_at_most_example = one_task_at_most env first_task first_day.world first_day-IsWellFormed

-- The last request has made its page and enqueued it.
first_day-tasks : length first_day.world.tasks ≡ 1
unfolding empty handle_register_device put_device steps step_first forget serve dispatch
    with_identity handle_create_page create_checked create_now is_complete new_page answer exec
    get_pairing lookup handle_accept_invite ensure_user get_user handle_create_invite create_invite
    put_user accept_invite insert new_user create_page row pairing_of put_pairing append_event
    created_event push_task ◌>>=◌ delete
first_day-tasks = refl
