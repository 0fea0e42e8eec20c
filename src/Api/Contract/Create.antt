-- ===== src/Api/Contract/Create.antt =====
-- POST /pages keeps the contract of the store.
use alertme.Prelude.{String, ⊤, Bool, true, false, refl, Option, none, some}
use alertme.Model.{Time, active, blocked, Pairing, PairingStatus, Page}
use alertme.Store.{Result, ok, err, not_found, conflict, other}
use alertme.Store.Contract.{IsFresh}
use alertme.Prog.{ret, ◌>>=◌}
use alertme.Prog.Calls.{Calls, stops, calls, calls_rules, ObeysCall}
use alertme.Api.Identity.{Identity}
use alertme.Api.Response.{respond, text}
use alertme.Api.Create.{
  CreateBody, new_page, after_create, on_conflict, replayed, scheduled, create_now, paired,
  create_checked, handle_create_page,
}

new_page-IsFresh :
    (id : Identity) (b : CreateBody) (s : String) (at : Time) → IsFresh (new_page id b s at)
unfolding new_page
new_page-IsFresh id b s at = record { is_created = refl; not_acked = refl }

scheduled-Calls : (p : Page) (r : Result ⊤) → Calls ObeysCall (scheduled p r)
scheduled-Calls p (ok _) = stops _
scheduled-Calls p (err e) = stops _

replayed-Calls : (r : Result Page) → Calls ObeysCall (replayed r)
replayed-Calls (ok p) = stops _
replayed-Calls (err e) = stops _

on_conflict-Calls : (b : CreateBody) (can : Bool) → Calls ObeysCall (on_conflict b can)
unfolding ◌>>=◌
on_conflict-Calls b true = search (calls_rules, replayed-Calls)
on_conflict-Calls b false = stops _

after_create-Calls :
    (b : CreateBody) (p : Page) (r : Result ⊤) → Calls ObeysCall (after_create b p r)
unfolding ◌>>=◌
after_create-Calls b p (ok _) = search (calls_rules, scheduled-Calls)
after_create-Calls b p (err conflict) = search (calls_rules, on_conflict-Calls)
after_create-Calls b p (err not_found) = stops _
after_create-Calls b p (err other) = stops _

create_now-Calls : (id : Identity) (b : CreateBody) → Calls ObeysCall (create_now id b)
unfolding create_now
create_now-Calls id b =
    calls _ _ tt
      (λ at. calls _ _ tt (λ s. calls _ _ (new_page-IsFresh id b s at) (after_create-Calls b _)))

paired-Calls :
    (id : Identity) (b : CreateBody) (r : Result Pairing) → Calls ObeysCall (paired id b r)
paired-Calls id b (err not_found) = stops _
paired-Calls id b (err conflict) = stops _
paired-Calls id b (err other) = stops _
paired-Calls id b (ok p) = go p.status
  where
    go :
        (st : PairingStatus)
        → Calls ObeysCall (elim st [
          | active ↦ create_now id b
          | blocked ↦ ret (respond 403 (text "pairing is blocked"))
        ])
    go active = create_now-Calls id b
    go blocked = stops _

pub create_page-Calls :
    (id : Option Identity) (b : Option CreateBody) → Calls ObeysCall (handle_create_page id b)
unfolding handle_create_page create_checked
create_page-Calls none b = stops _
create_page-Calls (some id) none = stops _
create_page-Calls (some id) (some b) = search (calls_rules, paired-Calls)
