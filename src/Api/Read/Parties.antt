-- ===== src/Api/Read/Parties.antt =====
-- Who is shown a page.
use alertme.Prelude.{
  ◌∙◌, ap, String, ◌≡◌, ◌≢◌, ◌⊎◌, none, some, List, lookup, arith, eq_iff, ne-eq_false,
}
use alertme.Model.{Page, PageEvent}
use alertme.Store
use alertme.Store.{Result, ok, err, not_found, conflict, other}
use alertme.Store.Exec.{exec}
use alertme.Store.Fake.{row, get_page, list_events}
use alertme.Prog.{on_store, ◌>>=◌}
use alertme.World.{Env, World, up, answer, run}
use alertme.Api.Identity.{Identity}
use alertme.Api.Response.{timeline, map_store_err}
use alertme.Api.Read.{handle_get_page, show}

-- A caller who is neither the sender nor the recipient of a stored page is answered by GET
-- /pages/{id} just as for any identifier under which no page is stored, whatever fails, and with
-- status 404 where the page can be read.
pub get_page_hides :
    (env : Env) (caller : Identity) (id missing : String) (p : Page) (w : World)
    → lookup id w.store.pages ≡ some p
    → lookup missing w.store.pages ≡ none
    → p.sender_id ≢ caller.user_id
    → p.recipient_id ≢ caller.user_id
    → let r = (run env (handle_get_page (some caller) id) w).0 in
      (r ≡ (run env (handle_get_page (some caller) missing) w).0)
      × ((env.store_fault w.calls ≢ up) ⊎ (r.status ≡ 404))
unfolding handle_get_page run answer exec get_page map_store_err ◌>>=◌
get_page_hides env caller id missing p w here gone s r =
    let no = ne-eq_false p.sender_id caller.user_id s in
    let nor = ne-eq_false p.recipient_id caller.user_id r in (ground arith, ground arith)

-- An answer with a page and its events, from the result of reading the page.
shown-parties :
    (env : Env) (caller : Identity) (id : String) (w : World) (r : Result Page) (p : Page)
    (es : List PageEvent)
    → (run env (show caller id r) w).0.body ≡ timeline p es
    → (r ≡ ok p)
      × ((p.sender_id ≡ caller.user_id) ⊎ (p.recipient_id ≡ caller.user_id))
      × (es ≡ row id w.store.events)
unfolding run answer exec list_events map_store_err ◌>>=◌
shown-parties env caller id w (ok found) p es h =
    ground (arith, eq_iff found.sender_id caller.user_id, eq_iff found.recipient_id caller.user_id)
shown-parties env caller id w (err not_found) p es h = cc
shown-parties env caller id w (err conflict) p es h = cc
shown-parties env caller id w (err other) p es h = cc

-- Reading a page changes nothing, and what is read is the stored page.
read-stored :
    (env : Env) (id : String) (w : World)
    → let (r, w') = answer env (on_store (Store.get_page id)) w in
      (w'.store ≡ w.store) × ((p : Page) → r ≡ ok p → lookup id w.store.pages ≡ some p)
unfolding answer exec get_page
read-stored env id w = ground arith

-- If the answer of GET /pages/{id} is a page with events, then the page is the stored page of that
-- identifier, the caller is its sender or its recipient, and the events are its whole timeline.
-- This holds whatever fails.
pub get_page_shows_parties :
    (env : Env) (caller : Identity) (id : String) (w : World) (p : Page) (es : List PageEvent)
    → (run env (handle_get_page (some caller) id) w).0.body ≡ timeline p es
    → (lookup id w.store.pages ≡ some p)
      × ((p.sender_id ≡ caller.user_id) ⊎ (p.recipient_id ≡ caller.user_id))
      × (es ≡ row id w.store.events)
get_page_shows_parties env caller id w p es h =
    let (r, w') = answer env (on_store (Store.get_page id)) w in
    let (same, read) = read-stored env id w in
    let (found, parties, events) =
      shown-parties env caller id w' r p es (unfold handle_get_page run ◌>>=◌ in h) in
    (read p found, parties, events ∙ ap (λ s. row id s.events) same)
