-- ===== src/Api/Receipts/Stale.antt =====
-- A delivery receipt that has loaded the page before another handler wrote it. `SetPageState` is
-- conditional on the state alone, and the receipt hands it the attempt number that it loaded.
use alertme.Prelude.{
  ℕ, suc, String, ◌≡◌, ◌⊎◌, refl, true, false, some, [], ◌∷◌, lookup, insert, lookup-insert_self,
  ltb, arith, eq_iff,
}
use alertme.Int.{leb_ℤ}
use alertme.Model.{PageState, created, pushed, delivered, Page, is_active}
use alertme.Model.Lifecycle.{state_eq_iff}
use alertme.Store.{ok}
use alertme.Store.Exec.{exec}
use alertme.Store.Fake.{moved, allowed, set_page_state, append_event}
use alertme.Prog.{◌>>=◌}
use alertme.World.{Env, World, answer, run}
use alertme.World.Run.{HasStore}
use alertme.Api.Identity.{Identity}
use alertme.Api.Receipts.{receipt_loaded, delivered_event}
use alertme.Pager.Due.{IsDue}

unpushed-allowed :
    (st : PageState) → (st ≡ created) ⊎ (st ≡ pushed) → allowed st (created ∷ pushed ∷ []) ≡ true
unfolding allowed
unpushed-allowed st h = ground (arith, state_eq_iff st created, state_eq_iff st pushed)

-- The world after such a receipt.
after_stale : String → Page → Page → ℕ → World → World
after_stale id old new at w = record w {
  store =
      (append_event (delivered_event id (at))
        (record w.store { pages = insert id (moved delivered old.attempt new) w.store.pages })).1;
  calls = suc (suc (suc w.calls));
}

receipt-run :
    (env : Env) (caller : Identity) (id : String) (old new : Page) (w : World)
    → HasStore env
    → old.recipient_id ≡ caller.user_id
    → lookup id w.store.pages ≡ some new
    → (new.state ≡ created) ⊎ (new.state ≡ pushed)
    → (run env (receipt_loaded caller id (ok old)) w).1
      ≡ after_stale id old new (env.reading (suc w.calls)) w
unfolding run answer exec set_page_state append_event after_stale moved ◌>>=◌
receipt-run env caller id old new w s mine here unpushed = ground (
  arith,
  s.store_up w.calls,
  s.store_up (suc (suc w.calls)),
  (eq_iff old.recipient_id caller.user_id).1 mine,
  unpushed-allowed new.state unpushed,
)

-- A receipt loaded a page as `old` and goes on when the page is stored as `new`, still created or
-- pushed, and the pager has recorded a higher attempt in it. Where no call of the store fails, the
-- receipt stores `new` as delivered with the attempt number of `old`, and thereby a redelivered
-- task of the attempt that was made is no duplicate to the pager any more: it is due once more
-- until the expiry.
pub stale_receipt_resets_attempt :
    (env env' : Env) (caller : Identity) (id : String) (old new : Page) (w : World)
    → HasStore env
    → old.recipient_id ≡ caller.user_id
    → lookup id w.store.pages ≡ some new
    → new.id ≡ id
    → (new.state ≡ created) ⊎ (new.state ≡ pushed)
    → leb_ℤ new.attempt old.attempt ≡ false
    → ltb new.expires_at
        (env'.reading (suc (run env (receipt_loaded caller id (ok old)) w).1.calls))
      ≡ false
    → let w' = (run env (receipt_loaded caller id (ok old)) w).1 in
      (lookup id w'.store.pages ≡ some (moved delivered old.attempt new))
      × IsDue env'
          (record { page_id = id; attempt = new.attempt })
          (moved delivered old.attempt new)
          w'
unfolding after_stale append_event moved is_active
stale_receipt_resets_attempt env env' caller id old new w s mine here filed unpushed higher =
    rw (receipt-run env caller id old new w s mine here unpushed) λ early. (
      found,
      record {
        stored = found;
        filed = filed;
        live = refl;
        unexpired = early;
        new_attempt = higher;
      },
    )
  where
    found :
        lookup id (after_stale id old new (env.reading (suc w.calls)) w).store.pages
        ≡ some (moved delivered old.attempt new)
    found = lookup-insert_self id (moved delivered old.attempt new) w.store.pages
