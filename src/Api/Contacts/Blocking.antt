-- ===== src/Api/Contacts/Blocking.antt =====
-- POST /pairings/{peerID}/block, and whom it keeps from paging.
use alertme.Prelude.{
  suc, String, ◌≡◌, ◌≢◌, ◌⊎◌, refl, ◌∙◌, ap, some, lookup-insert, arith, str_eq, eq_iff, eq_refl,
  ne-eq_false, if◌then◌else◌,
}
use alertme.Model.{Pairing, active, blocked}
use alertme.Store.Exec.{exec}
use alertme.Store.Fake.{Store, row, block_pairing}
use alertme.Store.Fake.Timeline.{row-insert}
use alertme.Store.Fake.Pairings.{copy_of}
use alertme.Store.Fake.Creation.{IsNew}
use alertme.Prog.{◌>>=◌}
use alertme.World.{Env, World, IsUntouched, answer, run}
use alertme.World.Run.{HasStore, IsSteady, IsSteady-HasStore}
use alertme.Api.Identity.{Identity}
use alertme.Api.Response.{Response, respond}
use alertme.Api.Response
use alertme.Api.Contacts.{handle_block_pairing}
use alertme.Api.Create.{CreateBody, handle_create_page}
use alertme.Api.Create.Outcomes.{
  IsAcceptable, made_page, create_page_created, barred, create_page_needs_pairing,
}

copy_of-block_pairing :
    (u p v q : String) (x : Pairing) (s : Store)
    → copy_of u p s.pairings ≡ some x
    → copy_of v q (block_pairing u p s).1.pairings ≡ (
        if str_eq u v
        then if str_eq p q then some (record x { status = blocked }) else copy_of v q s.pairings
        else copy_of v q s.pairings)
unfolding copy_of block_pairing
copy_of-block_pairing u p v q x s here = rw here (
    rw row-insert (
      ground (
        arith,
        lookup-insert p q (record x { status = blocked }) (row u s.pairings),
        eq_iff u v,
        eq_iff p q,
      )))

-- The world after a block.
after_block : String → String → World → World
after_block u p w = record w { store = (block_pairing u p w.store).1; calls = suc w.calls }

block-run :
    (env : Env) (caller : Identity) (peer : String) (x : Pairing) (w : World)
    → HasStore env
    → copy_of caller.user_id peer w.store.pairings ≡ some x
    → run env (handle_block_pairing (some caller) peer) w
      ≡ (respond 204 Response.empty, after_block caller.user_id peer w)
unfolding handle_block_pairing run answer exec block_pairing copy_of after_block ◌>>=◌
block-run env caller peer x w s here = ground (arith, s.store_up w.calls)

module _ (caller peer : Identity) (x : Pairing) (w : World)
    (mine : copy_of caller.user_id peer.user_id w.store.pairings ≡ some x) where
  mine_after :
      copy_of caller.user_id peer.user_id (after_block caller.user_id peer.user_id w).store.pairings
      ≡ some (record x { status = blocked })
  unfolding after_block
  mine_after =
      copy_of-block_pairing caller.user_id peer.user_id caller.user_id peer.user_id x w.store mine
      ∙ simp eq_refl

  theirs_after :
      (y : Pairing)
      → copy_of peer.user_id caller.user_id w.store.pairings ≡ some y
      → caller.user_id ≢ peer.user_id
      → copy_of peer.user_id caller.user_id
          (after_block caller.user_id peer.user_id w).store.pairings
        ≡ some y
  unfolding after_block
  theirs_after y theirs two =
      copy_of-block_pairing caller.user_id peer.user_id peer.user_id caller.user_id x w.store mine
      ∙ rw (ne-eq_false caller.user_id peer.user_id two) theirs

-- A user blocks a peer with whom it holds a copy of a pairing, and no call of the store fails. The
-- block is answered 204. The user's next request for a page to the peer stores, enqueues and pushes
-- nothing, whatever then fails, and its status is 400, 403 or 500.
pub block_stops_own_pages :
    (env env' : Env) (caller peer : Identity) (x : Pairing) (to_peer : CreateBody) (w : World)
    → HasStore env
    → copy_of caller.user_id peer.user_id w.store.pairings ≡ some x
    → to_peer.recipient_id ≡ peer.user_id
    → let (r, w') = run env (handle_block_pairing (some caller) peer.user_id) w in
      let (refused, v) = run env' (handle_create_page (some caller) (some to_peer)) w' in
      (r.status ≡ 204)
      × IsUntouched w' v
      × ((refused.status ≡ 400) ⊎ ((refused.status ≡ 403) ⊎ (refused.status ≡ 500)))
block_stops_own_pages env env' caller peer x to_peer w s mine at_peer =
    let (untouched, refused) =
      create_page_needs_pairing env' caller to_peer (after_block caller.user_id peer.user_id w) (
        barred (record x { status = blocked })
          (ap
              (λ p.
                copy_of caller.user_id p (after_block caller.user_id peer.user_id w).store.pairings)
              at_peer
            ∙ mine_after caller peer x w mine)
          refl) in
    rw (block-run env caller peer.user_id x w s mine) (refl, untouched, refused)

-- Blocking marks the caller's own copy of the pairing alone, and a page is made by the sender's own
-- copy. So after one of two different paired users blocks the other, an acceptable page of the
-- blocked one to the one who blocked is still made and answered 201, if the blocked one's copy is
-- active, the page's identifier and key are new, and no call of the store or the queue fails.
pub block_is_one_sided :
    (env : Env) (caller peer : Identity) (x y : Pairing) (to_caller : CreateBody) (w : World)
    → IsSteady env
    → caller.user_id ≢ peer.user_id
    → copy_of caller.user_id peer.user_id w.store.pairings ≡ some x
    → copy_of peer.user_id caller.user_id w.store.pairings ≡ some y
    → y.status ≡ active
    → to_caller.recipient_id ≡ caller.user_id
    → IsAcceptable to_caller
    → IsNew
        (made_page env peer to_caller
          (run env (handle_block_pairing (some caller) peer.user_id) w).1)
        (run env (handle_block_pairing (some caller) peer.user_id) w).1.store
    → let w' = (run env (handle_block_pairing (some caller) peer.user_id) w).1 in
      (run env (handle_create_page (some peer) (some to_caller)) w').0
      ≡ respond 201 (Response.page (made_page env peer to_caller w'))
block_is_one_sided env caller peer x y to_caller w s two mine theirs live at_caller a =
    rw (block-run env caller peer.user_id x w (IsSteady-HasStore s) mine) λ new.
      ap (λ (r : Response × World). r.0)
        (create_page_created env peer to_caller y (after_block caller.user_id peer.user_id w) s a
          (ap
              (λ p.
                copy_of peer.user_id p (after_block caller.user_id peer.user_id w).store.pairings)
              at_caller
            ∙ theirs_after caller peer x w mine y theirs two)
          live new)
