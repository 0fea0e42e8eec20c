-- ===== src/Store/Fake/Invites.antt =====
-- `AcceptInvite` of the in-memory store: an invite pairs two users, once.
use alertme.Prelude.{
  String, ◌≡◌, ◌≢◌, refl, sym, true, some, lookup, lookup-delete_self, delete, ltb, eq_refl,
  ne-eq_false,
}
use alertme.Model.{Time, User, Invite, Pairing, active}
use alertme.Store.{ok, err, not_found}
use alertme.Store.Fake.{Store, accept_invite, pairing_of, put_pairing}
use alertme.Store.Fake.Pairings.{copy_of, copy_of-put_pairing}

module _ (code : String) (accepter : User) (inv : Invite) (creator : User) (at : Time) where
  abbrev mine : Pairing
  mine = record {
    user_id = accepter.id;
    peer_id = inv.creator_id;
    peer_name = creator.display_name;
    status = active;
    created_at = at;
  }

  abbrev theirs : Pairing
  theirs = record {
    user_id = inv.creator_id;
    peer_id = accepter.id;
    peer_name = accepter.display_name;
    status = active;
    created_at = at;
  }

  -- The store after the invite is accepted.
  abbrev pub joined : Store → Store
  joined s = record s {
    invites = delete code s.invites;
    pairings = put_pairing theirs (put_pairing mine s.pairings);
  }

  accept_invite-run :
      (checked : Time) (s : Store)
      → lookup code s.invites ≡ some inv
      → ltb checked inv.expires_at ≡ true
      → lookup inv.creator_id s.users ≡ some creator
      → accept_invite code accepter checked at s ≡ (ok mine, joined s)
  unfolding accept_invite pairing_of
  accept_invite-run checked s here early known = rw (here, early, known) refl

  theirs-held : (s : Store) → copy_of inv.creator_id accepter.id (joined s).pairings ≡ some theirs
  theirs-held s = simp (copy_of-put_pairing, eq_refl)

  mine-held :
      (s : Store)
      → accepter.id ≢ inv.creator_id
      → copy_of accepter.id inv.creator_id (joined s).pairings ≡ some mine
  mine-held s two =
      rw (copy_of-put_pairing, ne-eq_false inv.creator_id accepter.id (λ e. two (sym e)))
        (simp (copy_of-put_pairing, eq_refl))

  used_up :
      (s : Store) (who : User) (checked later : Time)
      → accept_invite code who checked later (joined s) ≡ (err not_found, joined s)
  unfolding accept_invite
  used_up s who checked later = rw lookup-delete_self refl

  -- A user who accepts another user's invite before its expiry, where the creator has a profile,
  -- is paired with the creator: each of the two holds an active copy with the other's name. The
  -- invite is used up: from then on its acceptance, by whoever and whenever, is answered as that of
  -- an unknown one and changes nothing.
  pub accept_invite_pairs :
      (checked : Time) (s : Store)
      → lookup code s.invites ≡ some inv
      → ltb checked inv.expires_at ≡ true
      → lookup inv.creator_id s.users ≡ some creator
      → accepter.id ≢ inv.creator_id
      → let (r, s') = accept_invite code accepter checked at s in
        (r ≡ ok mine)
        × (copy_of accepter.id inv.creator_id s'.pairings ≡ some mine)
        × (copy_of inv.creator_id accepter.id s'.pairings ≡ some theirs)
        × ((who : User) (checked' later : Time)
            → accept_invite code who checked' later s' ≡ (err not_found, s'))
  accept_invite_pairs checked s here early known two =
      rw (accept_invite-run checked s here early known)
        (refl, mine-held s two, theirs-held s, used_up s)
