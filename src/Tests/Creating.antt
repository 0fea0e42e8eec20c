-- ===== src/Tests/Creating.antt =====
-- Requests that make pages.
use alertme.Prelude.{◌≡◌, ◌≢◌, ◌⊎◌, refl, true, false, some, [], lookup, eq_iff}
use alertme.Store.Exec.{exec}
use alertme.Store.Fake.{row, block_pairing}
use alertme.Store.Fake.Creation.{IsNew}
use alertme.Store.Fake.Pairings.{copy_of}
use alertme.World.{Env, World, IsUntouched, request_lost, answer, run}
use alertme.World.Run.{HasStore, LosesQueue, IsSteady-HasStore}
use alertme.Api.Response.{respond, text}
use alertme.Api.Response
use alertme.Api.Contacts.{handle_block_pairing}
use alertme.Api.Contacts.Blocking.{block_stops_own_pages, block_is_one_sided}
use alertme.Api.Create.{CreateBody, is_complete, handle_create_page, new_page}
use alertme.Api.Create.Outcomes.{
  IsAcceptable, made_page, with_new_page, create_page_created, missing, create_page_needs_pairing,
  create_page_replayed,
}
use alertme.Api.Create.Unscheduled.{unscheduled_page_stays}
use alertme.Tests.{env, env-IsSteady, alice, bob, eve, page, alice_to_bob, bob_to_alice, world_with}

-- A second page of Alice's, and its request with a fresh key and with a used one.
abbrev fresh_body : CreateBody
fresh_body = record { recipient_id = "bob"; message = "again"; idempotency_key = "key-2" }

abbrev used_body : CreateBody
used_body = record { recipient_id = "bob"; message = "again"; idempotency_key = "key-1" }

abbrev back_body : CreateBody
back_body = record { recipient_id = "alice"; message = "now you"; idempotency_key = "key-2" }

fresh-IsAcceptable : IsAcceptable fresh_body
unfolding is_complete
fresh-IsAcceptable = record { complete = refl; short = refl }

used-IsAcceptable : IsAcceptable used_body
unfolding is_complete
used-IsAcceptable = record { complete = refl; short = refl }

back-IsAcceptable : IsAcceptable back_body
unfolding is_complete
back-IsAcceptable = record { complete = refl; short = refl }

alice-copy : copy_of "alice" "bob" (world_with page).store.pairings ≡ some alice_to_bob
unfolding copy_of row lookup
alice-copy = refl

bob-copy : copy_of "bob" "alice" (world_with page).store.pairings ≡ some bob_to_alice
unfolding copy_of row lookup
bob-copy = refl

fresh-IsNew : IsNew (made_page env alice fresh_body (world_with page)) (world_with page).store
unfolding new_page lookup
fresh-IsNew = record { new_id = refl; new_key = refl }

create_page_created_example :
    run env (handle_create_page (some alice) (some fresh_body)) (world_with page) ≡ (
      respond 201 (Response.page (made_page env alice fresh_body (world_with page))),
      with_new_page (made_page env alice fresh_body (world_with page)) (world_with page),
    )
create_page_created_example =
    create_page_created env alice fresh_body alice_to_bob (world_with page) env-IsSteady
      fresh-IsAcceptable alice-copy refl fresh-IsNew

create_page_needs_pairing_example :
    IsUntouched
      (world_with page)
      (run env (handle_create_page (some eve) (some fresh_body)) (world_with page)).1
    × (((run env (handle_create_page (some eve) (some fresh_body)) (world_with page)).0.status
          ≡ 400)
        ⊎ (((run env (handle_create_page (some eve) (some fresh_body)) (world_with page)).0.status
              ≡ 403)
            ⊎ ((run env
                  (handle_create_page (some eve) (some fresh_body))
                  (world_with page)).0.status
                ≡ 500)))
unfolding copy_of row lookup
create_page_needs_pairing_example =
    create_page_needs_pairing env eve fresh_body (world_with page) (missing refl)

create_page_replayed_example :
    ((run env (handle_create_page (some alice) (some used_body)) (world_with page)).0
      ≡ respond 200 (Response.page page))
    × IsUntouched
        (world_with page)
        (run env (handle_create_page (some alice) (some used_body)) (world_with page)).1
unfolding lookup
create_page_replayed_example =
    create_page_replayed env alice used_body alice_to_bob (world_with page) "p1" page
      (IsSteady-HasStore env-IsSteady) refl used-IsAcceptable alice-copy refl refl refl

-- The queue is away.
abbrev no_queue : Env
no_queue = record env { queue_fault = λ n. request_lost }

no_queue-HasStore : HasStore no_queue
no_queue-HasStore = record { store_up = λ n. refl }

no_queue-LosesQueue : LosesQueue no_queue
no_queue-LosesQueue = record { queue_lost = λ n. refl }

unscheduled_page_stays_example :
    ((run no_queue (handle_create_page (some alice) (some fresh_body)) (world_with page)).0.status
      ≡ 500)
    × ((run no_queue (handle_create_page (some alice) (some fresh_body)) (world_with page)).1.tasks
        ≡ [])
    × (lookup "p2"
          (run no_queue
            (handle_create_page (some alice) (some fresh_body))
            (world_with page)).1.store.pages
        ≡ some (made_page no_queue alice fresh_body (world_with page)))
    × ((run env
          (handle_create_page (some alice) (some fresh_body))
          (run no_queue (handle_create_page (some alice) (some fresh_body)) (world_with page)).1).0
        ≡ respond 200 (Response.page (made_page no_queue alice fresh_body (world_with page))))
    × IsUntouched
        (run no_queue (handle_create_page (some alice) (some fresh_body)) (world_with page)).1
        (run env
          (handle_create_page (some alice) (some fresh_body))
          (run no_queue (handle_create_page (some alice) (some fresh_body)) (world_with page)).1).1
unfolding new_page
unscheduled_page_stays_example =
    unscheduled_page_stays no_queue env alice fresh_body alice_to_bob (world_with page)
      no_queue-HasStore no_queue-LosesQueue (IsSteady-HasStore env-IsSteady) refl fresh-IsAcceptable
      alice-copy refl fresh-IsNew

block_stops_own_pages_example :
    ((run env (handle_block_pairing (some bob) "alice") (world_with page)).0.status ≡ 204)
    × IsUntouched
        (run env (handle_block_pairing (some bob) "alice") (world_with page)).1
        (run env
          (handle_create_page (some bob) (some back_body))
          (run env (handle_block_pairing (some bob) "alice") (world_with page)).1).1
    × (((run env
            (handle_create_page (some bob) (some back_body))
            (run env (handle_block_pairing (some bob) "alice") (world_with page)).1).0.status
          ≡ 400)
        ⊎ (((run env
                (handle_create_page (some bob) (some back_body))
                (run env (handle_block_pairing (some bob) "alice") (world_with page)).1).0.status
              ≡ 403)
            ⊎ ((run env
                  (handle_create_page (some bob) (some back_body))
                  (run env (handle_block_pairing (some bob) "alice") (world_with page)).1).0.status
                ≡ 500)))
block_stops_own_pages_example =
    block_stops_own_pages env env bob alice bob_to_alice back_body (world_with page)
      (IsSteady-HasStore env-IsSteady) bob-copy refl

-- Bob has blocked Alice.
abbrev blocked_world : World
blocked_world = (run env (handle_block_pairing (some bob) "alice") (world_with page)).1

still-IsNew : IsNew (made_page env alice fresh_body blocked_world) blocked_world.store
unfolding new_page lookup run handle_block_pairing answer exec block_pairing row
still-IsNew = record { new_id = refl; new_key = refl }

bob-not_alice : bob.user_id ≢ alice.user_id
bob-not_alice e = let h : false ≡ true = (eq_iff "bob" "alice").1 e in cc

block_is_one_sided_example :
    (run env (handle_create_page (some alice) (some fresh_body)) blocked_world).0
    ≡ respond 201 (Response.page (made_page env alice fresh_body blocked_world))
block_is_one_sided_example =
    block_is_one_sided env bob alice bob_to_alice alice_to_bob fresh_body (world_with page)
      env-IsSteady bob-not_alice bob-copy alice-copy refl refl fresh-IsAcceptable still-IsNew
