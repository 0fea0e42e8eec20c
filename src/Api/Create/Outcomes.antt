-- ===== src/Api/Create/Outcomes.antt =====
-- How POST /pages ends.
use Prim.Native.String.{len}
use alertme.Prelude.{
  suc, String, ◌≡◌, ◌⊎◌, true, false, none, some, [], ◌∷◌, ◌++◌, lookup, insert, ltb, ◌+◌, ◌*◌,
  arith,
}
use alertme.Int.{pos, negsuc}
use alertme.Nag.{minute}
use alertme.Model.{Page, Pairing, created, active, blocked}
use alertme.Store.Exec.{exec}
use alertme.Store.Fake.{
  row, get_pairing, create_page, get_page_by_idempotency_key, append_event, created_event,
}
use alertme.Store.Fake.Creation.{IsNew}
use alertme.Store.Fake.Pairings.{copy_of}
use alertme.Prog.{idempotent_page_lookup, ◌>>=◌}
use alertme.World.{Env, World, IsUntouched, answer, run}
use alertme.World.Run.{IsSteady, HasStore}
use alertme.Api.Identity.{Identity}
use alertme.Api.Response.{Response, respond, text, map_store_err}
use alertme.Api.Response
use alertme.Api.Create.{
  CreateBody, max_message_len, is_complete, new_page, create_now, create_checked,
  handle_create_page,
}

pub record IsAcceptable (body : CreateBody) : Type 0 where
  pub complete : is_complete body ≡ true
  pub short : ltb max_message_len (len body.message) ≡ false

-- The page that a request makes, if it is the next to be handled: a new one, with attempt number -1
-- and half an hour to live.
abbrev pub made_page : Env → Identity → CreateBody → World → Page
made_page env caller body w = record {
  id = env.id (suc (suc w.calls));
  sender_id = caller.user_id;
  recipient_id = body.recipient_id;
  message = body.message;
  state = created;
  attempt = negsuc 0;
  idempotency_key = body.idempotency_key;
  created_at = env.reading (suc w.calls);
  expires_at = env.reading (suc w.calls) + 30 * minute;
  acked_at = none;
  ack_note = "";
}

-- The world after the page is created and its attempt 0 enqueued.
unfoldable pub with_new_page : Page → World → World
with_new_page p w = record w {
  store = record w.store {
    pages = insert p.id p w.store.pages;
    idem = insert p.idempotency_key p.id w.store.idem;
    events =
        insert p.id
          (row p.id w.store.events
            ++ record { page_id = p.id; kind = "created"; detail = ""; at = p.created_at } ∷ [])
          w.store.events;
  };
  tasks = w.tasks ++ record { task = record { page_id = p.id; attempt = pos 0 }; delay = 0 } ∷ [];
  calls = suc (suc (suc (suc (suc w.calls))));
}

-- A complete request of at most 500 bytes, from a caller whose own copy of the pairing with the
-- recipient is active, is answered 201 with the page if its identifier and key are new and no call
-- of the store or the queue fails: the page is stored as created, with attempt number -1 and the
-- expiry half an hour on, its timeline has the creation, and attempt 0 is enqueued without delay.
pub create_page_created :
    (env : Env) (caller : Identity) (body : CreateBody) (pairing : Pairing) (w : World)
    → IsSteady env
    → IsAcceptable body
    → copy_of caller.user_id body.recipient_id w.store.pairings ≡ some pairing
    → pairing.status ≡ active
    → IsNew (made_page env caller body w) w.store
    → run env (handle_create_page (some caller) (some body)) w ≡ (
      respond 201 (Response.page (made_page env caller body w)),
      with_new_page (made_page env caller body w) w,
    )
unfolding handle_create_page create_checked create_now run answer exec get_pairing create_page
    with_new_page new_page append_event created_event copy_of ◌>>=◌
create_page_created env caller body pairing w s a held is_active new = ground (
  arith,
  s.store_up w.calls,
  s.store_up (suc (suc (suc w.calls))),
  s.queue_up (suc (suc (suc (suc w.calls)))),
  a.complete,
  a.short,
  new.new_id,
  new.new_key,
)

-- The caller holds no copy of a pairing with the recipient, or a blocked one.
pub data LacksPairing (caller : Identity) (body : CreateBody) (w : World) : Type 0 where
  missing :
      copy_of caller.user_id body.recipient_id w.store.pairings ≡ none → LacksPairing caller body w
  barred :
      (p : Pairing)
      → copy_of caller.user_id body.recipient_id w.store.pairings ≡ some p
      → p.status ≡ blocked
      → LacksPairing caller body w

-- A caller whose own copy of the pairing with the recipient is missing or blocked makes no page,
-- whatever the body and whatever fails: nothing is stored, enqueued or pushed, and the status is
-- 400, 403 or 500.
pub create_page_needs_pairing :
    (env : Env) (caller : Identity) (body : CreateBody) (w : World)
    → LacksPairing caller body w
    → let (r, w') = run env (handle_create_page (some caller) (some body)) w in
      IsUntouched w w' × ((r.status ≡ 400) ⊎ ((r.status ≡ 403) ⊎ (r.status ≡ 500)))
unfolding handle_create_page create_checked run answer exec get_pairing copy_of map_store_err ◌>>=◌
create_page_needs_pairing env caller body w (missing e) = ground arith
create_page_needs_pairing env caller body w (barred p e b) = ground arith

-- A request whose idempotency key belongs to a stored page is answered 200 with that page, whoever
-- sent it and to whomever, where the request is complete and its message has
-- at most 500 bytes, the caller's own copy of the pairing with
-- the recipient named in it is active, the store has the lookup by key, and no call of it fails.
-- Nothing is stored, enqueued or pushed.
pub create_page_replayed :
    (env : Env) (caller : Identity) (body : CreateBody) (pairing : Pairing) (w : World)
    (id : String) (original : Page)
    → HasStore env
    → env.capable idempotent_page_lookup ≡ true
    → IsAcceptable body
    → copy_of caller.user_id body.recipient_id w.store.pairings ≡ some pairing
    → pairing.status ≡ active
    → lookup body.idempotency_key w.store.idem ≡ some id
    → lookup id w.store.pages ≡ some original
    → ((run env (handle_create_page (some caller) (some body)) w).0
        ≡ respond 200 (Response.page original))
      × IsUntouched w (run env (handle_create_page (some caller) (some body)) w).1
unfolding handle_create_page create_checked create_now run answer exec get_pairing create_page
    new_page get_page_by_idempotency_key copy_of ◌>>=◌
create_page_replayed env caller body pairing w id original s can a held is_active keyed stored =
    ground (
      arith,
      s.store_up w.calls,
      s.store_up (suc (suc (suc w.calls))),
      s.store_up (suc (suc (suc (suc (suc w.calls))))),
      a.complete,
      a.short,
    )
