-- ===== src/System/Lifecycle.antt =====
-- The page lifecycle of model.go, for every interleaving of handlers and every failure of the
-- store and the queue.
use alertme.Prelude.{String, ◌≡◌, ◌∙◌, ap, false, [], some, lookup}
use alertme.Model.{Time, Page, is_active}
use alertme.Store.{StoreCmd}
use alertme.Store.Contract.{Obeys, Evolves}
use alertme.Store.Exec.{exec}
use alertme.Store.Fake.{Store}
use alertme.Store.Fake.Pages.{Later, Later-refl, Later-trans, exec-Later}
use alertme.Store.Fake.Invariant.{IsWellFormed, exec-IsWellFormed}
use alertme.Store.Fake.Pairings.{IsMutual, exec-IsMutual}
use alertme.Queue.{PageTask}
use alertme.World.{Env, IsUntouched, run}
use alertme.Pager.{handle_record}
use alertme.Pager.Drops.{final, stale_task_dropped}
use alertme.System.{System, begin}
use alertme.System.Handlers.{Run}
use alertme.System.Stores.{stores_keep}

abbrev pub IsConsistent : Store → Type 0
IsConsistent s = IsWellFormed s × IsMutual s.pairings

exec-IsConsistent :
    (checked at : Time) (c : StoreCmd) (s : Store)
    → Obeys c
    → IsConsistent s
    → IsConsistent (exec checked at c s).1
exec-IsConsistent checked at c s h (w, m) =
    (exec-IsWellFormed checked at c s h w, exec-IsMutual checked at c s m)

-- In a run of the system, begun with no handler at work, in which requests and batches of messages
-- are handled at once in any interleaving and any calls of the store or the queue fail: a page that
-- is stored at one moment is stored at every later one, with its identity, sender, recipient,
-- message, key and times unchanged, in the same state or one further on, and not changed at all
-- once it was acked, expired or cancelled.
pub page_lifecycle :
    (env : Env) {a s t : System}
    → a.threads ≡ []
    → Run env a s
    → Run env s t
    → (id : String) (p : Page) → lookup id s.world.store.pages ≡ some p
    → (q : Page) × (lookup id t.world.store.pages ≡ some q) × Evolves p q
page_lifecycle env idle r q = stores_keep Later Later-refl Later-trans exec-Later env idle r q

-- After a page is acked, expired or cancelled in a run of the system, a task of that page whose
-- handling starts at any later moment of the run, and ends with no other handler taking a turn,
-- stores, enqueues and pushes nothing, whatever fails in it.
pub final_page_silent :
    (env env' : Env) {a s t : System}
    → a.threads ≡ []
    → Run env a s
    → Run env s t
    → (task : PageTask) (p : Page) → lookup task.page_id s.world.store.pages ≡ some p
    → is_active p.state ≡ false
    → IsUntouched t.world (run env' (handle_record (some task)) t.world).1
final_page_silent env env' {a} {s} {t} idle r q task p here done =
    let (p', found, kept) = page_lifecycle env idle r q task.page_id p here in
    (stale_task_dropped env' task t.world
      (final p' found (ap (λ (x : Page). is_active x.state) (kept.final done) ∙ done))).0

-- A system that begins with no handler at work, and with pages and keys that fit each other and
-- pairings of which both users hold a copy (an empty store, for one), keeps all of that in any
-- run. In particular two stored pages never share an idempotency key, and a page has a time of
-- acknowledgement exactly if it is acked.
pub store_consistent :
    (env : Env) {a t : System}
    → a.threads ≡ []
    → IsWellFormed a.world.store
    → IsMutual a.world.store.pairings
    → Run env a t
    → IsWellFormed t.world.store × IsMutual t.world.store.pairings
store_consistent env idle w m q =
    stores_keep (λ s t. IsConsistent s → IsConsistent t) (λ s h. h) (λ s t u f g h. g (f h))
      exec-IsConsistent env idle begin q (w, m)
