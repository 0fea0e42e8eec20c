-- ===== src/Pager/Attempts.antt =====
-- Step 6 of the pager: how an attempt is recorded on a page that has not left the active states.
use alertme.Prelude.{
  ℕ, suc, String, ◌≡◌, refl, ◌∙◌, ap, true, false, some, List, [], ◌∷◌, lookup, insert,
}
use alertme.Int.{ℤ}
use alertme.Model.{
  PageState, created, pushed, delivered, seen, acked, expired, cancelled, Page, state_eq, is_active,
}
use alertme.Store.{Result, ok, err, conflict}
use alertme.Store
use alertme.Store.Exec.{exec}
use alertme.Store.Fake.{Store, set_page_state, allowed, moved}
use alertme.World.{Env, World, run}
use alertme.World.Run.{run-ask, HasStore, stored}
use alertme.Pager.{try_each, record_attempt}

-- The state in which a page is after an attempt.
abbrev pub attempted : PageState → PageState
attempted created = pushed
attempted st = st

pub set_page_state-allowed :
    (id : String) (from : List PageState) (to : PageState) (attempt : ℤ) (q : Page) (s : Store)
    → lookup id s.pages ≡ some q
    → allowed q.state from ≡ true
    → set_page_state id from to attempt s
      ≡ (ok tt, record s { pages = insert id (moved to attempt q) s.pages })
unfolding set_page_state
set_page_state-allowed id from to attempt q s here can = rw (here, can)

pub set_page_state-refused :
    (id : String) (from : List PageState) (to : PageState) (attempt : ℤ) (q : Page) (s : Store)
    → lookup id s.pages ≡ some q
    → allowed q.state from ≡ false
    → set_page_state id from to attempt s ≡ (err conflict, s)
unfolding set_page_state
set_page_state-refused id from to attempt q s here cannot = rw (here, cannot)

-- The world after a write of the page.
abbrev pub with_attempt : String → Page → World → World
with_attempt id q w = record w {
  store = record w.store { pages = insert id q w.store.pages };
  calls = suc w.calls;
}

abbrev later : World → World
later w = record w { calls = suc w.calls }

abbrev unpushed : List PageState
unpushed = created ∷ pushed ∷ []

abbrev from_seen : List (List PageState × PageState)
from_seen = (seen ∷ [], seen) ∷ []

abbrev from_delivered : List (List PageState × PageState)
from_delivered = (delivered ∷ [], delivered) ∷ from_seen

module _ (env : Env) (id : String) (attempt : ℤ) (q : Page) (steady : HasStore env) where
  try_each-taken :
      (from : List PageState) (to : PageState) (ts : List (List PageState × PageState)) (w : World)
      → lookup id w.store.pages ≡ some q
      → allowed q.state from ≡ true
      → run env (try_each id attempt ((from, to) ∷ ts)) w
        ≡ (ok tt, with_attempt id (moved to attempt q) w)
  unfolding try_each exec stored
  try_each-taken from to ts w here can =
      run-ask env (Store.set_page_state id from to attempt) _ w (steady.store_up w.calls)
      ∙ rw (set_page_state-allowed id from to attempt q w.store here can) (unfold run in refl)

  try_each-skipped :
      (from : List PageState) (to : PageState) (ts : List (List PageState × PageState)) (w : World)
      → lookup id w.store.pages ≡ some q
      → allowed q.state from ≡ false
      → run env (try_each id attempt ((from, to) ∷ ts)) w
        ≡ run env (try_each id attempt ts) (later w)
  unfolding try_each exec stored
  try_each-skipped from to ts w here cannot =
      run-ask env (Store.set_page_state id from to attempt) _ w (steady.store_up w.calls)
      ∙ rw (set_page_state-refused id from to attempt q w.store here cannot) refl

  test :
      (st : PageState) (from : List PageState)
      → q.state ≡ st
      → allowed q.state from ≡ allowed st from
  test st from e = ap (λ x. allowed x from) e

  -- The attempt is recorded in one of the three writes, in a state that is not set back.
  pub record_attempt-run :
      (st : PageState) (w : World)
      → q.state ≡ st
      → is_active st ≡ true
      → lookup id w.store.pages ≡ some q
      → (n : ℕ) × (run env (record_attempt id attempt) w
          ≡ (ok tt, record (with_attempt id (moved (attempted st) attempt q) w) { calls = n }))
  unfolding record_attempt is_active allowed state_eq
  record_attempt-run created w e a here =
      (suc w.calls, try_each-taken unpushed pushed from_delivered w here (test created unpushed e))
  record_attempt-run pushed w e a here =
      (suc w.calls, try_each-taken unpushed pushed from_delivered w here (test pushed unpushed e))
  record_attempt-run delivered w e a here = (
    suc (suc w.calls),
    try_each-skipped unpushed pushed from_delivered w here (test delivered unpushed e)
        ∙ try_each-taken (delivered ∷ []) delivered from_seen (later w) here
            (test delivered (delivered ∷ []) e),
  )
  record_attempt-run seen w e a here = (
    suc (suc (suc w.calls)),
    try_each-skipped unpushed pushed from_delivered w here (test seen unpushed e)
        ∙ try_each-skipped (delivered ∷ []) delivered from_seen (later w) here
            (test seen (delivered ∷ []) e)
        ∙ try_each-taken (seen ∷ []) seen [] (later (later w)) here (test seen (seen ∷ []) e),
  )
  record_attempt-run acked w e a here = cc
  record_attempt-run expired w e a here = cc
  record_attempt-run cancelled w e a here = cc
