-- ===== src/Store/Fake/Pairings.antt =====
-- The pairings of the in-memory store: both users hold a copy.
use alertme.Prelude.{
  String, ⊤, ◌≡◌, refl, sym, ◌∙◌, subst₂, ◌⊎◌, eq_refl, some, [], arith, str_eq, eq_iff, inl, inr,
  Map, lookup, insert, lookup-insert, Bool-cases, Option-cases, if◌then◌else◌, Option, ltb,
}
use alertme.Model.{Time, User, Pairing, blocked}
use alertme.Store.{StoreCmd, ok, err}
use alertme.Store
use alertme.Store.Exec.{exec}
use alertme.Store.Fake
use alertme.Store.Fake.{Store, row, pairing_of, put_pairing, accept_invite, block_pairing}
use alertme.Store.Fake.Timeline.{row-insert}

-- `pairings[user_id][peer_id]`
unfoldable pub copy_of : String → String → Map (Map Pairing) → Option Pairing
copy_of user_id peer_id m = lookup peer_id (row user_id m)

pub copy_of-put_pairing :
    (u p : String) (x : Pairing) (m : Map (Map Pairing))
    → copy_of u p (put_pairing x m) ≡ (
        if str_eq x.user_id u
        then if str_eq x.peer_id p then some x else copy_of u p m
        else copy_of u p m)
unfolding copy_of put_pairing
copy_of-put_pairing u p x m = rw row-insert (
    ground (
      arith,
      lookup-insert x.peer_id p x (row x.user_id m),
      eq_iff x.user_id u,
      eq_iff x.peer_id p,
    ))

-- Each copy is filed under its owner and its peer, and the peer holds one too.
pub record IsMutual (m : Map (Map Pairing)) : Type 0 where
  pub owner : (u p : String) (x : Pairing) → copy_of u p m ≡ some x → x.user_id ≡ u
  pub peer : (u p : String) (x : Pairing) → copy_of u p m ≡ some x → x.peer_id ≡ p
  pub other_copy :
      (u p : String) (x : Pairing)
      → copy_of u p m ≡ some x
      → (y : Pairing) × (copy_of p u m ≡ some y)

pub empty-IsMutual : IsMutual []
unfolding copy_of row lookup
empty-IsMutual = record { owner = λ u p x h. cc; peer = λ u p x h. cc; other_copy = λ u p x h. cc }

abbrev Held : Map (Map Pairing) → String → String → Type 0
Held m u p = (z : Pairing) × (copy_of u p m ≡ some z)

put_pairing-Held :
    (m : Map (Map Pairing)) (x : Pairing) (u p : String) → Held m u p → Held (put_pairing x m) u p
put_pairing-Held m x u p (z, h) = elim (Bool-cases (str_eq x.user_id u)) [
  | inr other ↦ (z, rw (copy_of-put_pairing, other) h)
  | inl same ↦ elim (Bool-cases (str_eq x.peer_id p)) [
    | inl also ↦ (x, rw (copy_of-put_pairing, same, also))
    | inr other ↦ (z, rw (copy_of-put_pairing, same, other) h)
  ]
]

put_pairing-Held_self :
    (m : Map (Map Pairing)) (x : Pairing) → Held (put_pairing x m) x.user_id x.peer_id
put_pairing-Held_self m x = (x, simp (copy_of-put_pairing, eq_refl))

-- A copy that is found after a write is the one written, or was there before.
put_pairing-cases :
    (m : Map (Map Pairing)) (x z : Pairing) (u p : String)
    → copy_of u p (put_pairing x m) ≡ some z
    → ((x.user_id ≡ u) × (x.peer_id ≡ p) × (z ≡ x)) ⊎ (copy_of u p m ≡ some z)
put_pairing-cases m x z u p h =
    ground (arith, copy_of-put_pairing u p x m, eq_iff x.user_id u, eq_iff x.peer_id p)

-- The two copies that `AcceptInvite` writes.
module _ (m : Map (Map Pairing)) (w : IsMutual m) (x y : Pairing) (crossed : y.user_id ≡ x.peer_id)
    (crossed' : y.peer_id ≡ x.user_id) where
  both_owner :
      (u p : String) (z : Pairing)
      → copy_of u p (put_pairing y (put_pairing x m)) ≡ some z
      → (z.user_id ≡ u) × (z.peer_id ≡ p)
  both_owner u p z h = ground (
    arith,
    put_pairing-cases (put_pairing x m) y z u p h,
    put_pairing-cases m x z u p,
    w.owner u p z,
    w.peer u p z,
  )

  both_other :
      (u p : String) (z : Pairing)
      → copy_of u p (put_pairing y (put_pairing x m)) ≡ some z
      → Held (put_pairing y (put_pairing x m)) p u
  both_other u p z h = elim (put_pairing-cases (put_pairing x m) y z u p h) [
    | inl (a, b, c) ↦
        subst₂ (Held (put_pairing y (put_pairing x m))) (sym crossed' ∙ b) (sym crossed ∙ a)
          (put_pairing-Held (put_pairing x m) y x.user_id x.peer_id (put_pairing-Held_self m x))
    | inr old ↦ elim (put_pairing-cases m x z u p old) [
      | inl (a, b, c) ↦
          subst₂ (Held (put_pairing y (put_pairing x m))) (crossed ∙ b) (crossed' ∙ a)
            (put_pairing-Held_self (put_pairing x m) y)
      | inr older ↦
          put_pairing-Held (put_pairing x m) y p u
            (put_pairing-Held m x p u (w.other_copy u p z older))
    ]
  ]

  both-IsMutual : IsMutual (put_pairing y (put_pairing x m))
  both-IsMutual = record {
    owner = λ u p z h. (both_owner u p z h).0;
    peer = λ u p z h. (both_owner u p z h).1;
    other_copy = both_other;
  }

accept_invite-IsMutual :
    (code : String) (u : User) (checked at : Time) (s : Store)
    → IsMutual s.pairings
    → IsMutual (accept_invite code u checked at s).1.pairings
unfolding accept_invite
accept_invite-IsMutual code u checked at s w = elim (Option-cases (lookup code s.invites)) [
  | inl missing ↦ rw missing w
  | inr (inv, e) ↦ rw e (elim (Bool-cases (ltb checked inv.expires_at)) [
    | inr late ↦ rw late w
    | inl valid ↦ rw valid (elim (Option-cases (lookup inv.creator_id s.users)) [
      | inl unknown ↦ rw unknown w
      | inr (creator, known) ↦ rw known (both-IsMutual s.pairings w _ _ refl refl)
    ])
  ])
]

-- Blocking rewrites a copy that is there.
module _ (m : Map (Map Pairing)) (w : IsMutual m) (u p : String) (x : Pairing)
    (here : copy_of u p m ≡ some x) where
  abbrev barred : Pairing
  barred = record x { status = blocked }

  barred_copy :
      (v q : String) (z : Pairing)
      → copy_of v q (put_pairing barred m) ≡ some z
      → (z.user_id ≡ v) × (z.peer_id ≡ q) × Held (put_pairing barred m) q v
  barred_copy v q z h = elim (put_pairing-cases m barred z v q h) [
    | inl (a, b, c) ↦ (
      cc,
      cc,
      subst₂ (Held (put_pairing barred m)) (sym (w.peer u p x here) ∙ b)
          (sym (w.owner u p x here) ∙ a) (put_pairing-Held m barred p u (w.other_copy u p x here)),
    )
    | inr old ↦ (
      w.owner v q z old,
      w.peer v q z old,
      put_pairing-Held m barred q v (w.other_copy v q z old),
    )
  ]

  barred-IsMutual : IsMutual (put_pairing barred m)
  barred-IsMutual = record {
    owner = λ v q z h. (barred_copy v q z h).0;
    peer = λ v q z h. (barred_copy v q z h).1;
    other_copy = λ v q z h. (barred_copy v q z h).2;
  }

  overwritten-IsMutual : IsMutual (insert u (insert p barred (row u m)) m)
  overwritten-IsMutual =
      subst₂ (λ a b. IsMutual (insert a (insert b barred (row a m)) m)) (w.owner u p x here)
        (w.peer u p x here) (unfold put_pairing in barred-IsMutual)

block_pairing-IsMutual :
    (user_id peer_id : String) (s : Store)
    → IsMutual s.pairings
    → IsMutual (block_pairing user_id peer_id s).1.pairings
unfolding block_pairing copy_of
block_pairing-IsMutual u p s w = elim (Option-cases (lookup p (row u s.pairings))) [
  | inl missing ↦ rw missing w
  | inr (x, e) ↦ rw e (overwritten-IsMutual s.pairings w u p x e)
]

abbrev WritesNoPairing : StoreCmd → Type 0
WritesNoPairing (Store.accept_invite code u) = ⊥
WritesNoPairing (Store.block_pairing user_id peer_id) = ⊥
WritesNoPairing c = ⊤

pairings-exec :
    (checked at : Time) (c : StoreCmd) (s : Store)
    → WritesNoPairing c
    → (exec checked at c s).1.pairings ≡ s.pairings
unfolding exec Fake.put_user Fake.put_device Fake.delete_device Fake.create_invite Fake.ack_page
    Fake.get_user Fake.list_devices Fake.get_pairing Fake.list_pairings Fake.create_page
    Fake.append_event Fake.get_page Fake.get_page_by_idempotency_key Fake.list_events
    Fake.list_pages_for Fake.set_page_state
pairings-exec checked at (Store.accept_invite code u) s h = absurd h
pairings-exec checked at (Store.block_pairing user_id peer_id) s h = absurd h
pairings-exec checked at c s h = ground arith

pub exec-IsMutual :
    (checked at : Time) (c : StoreCmd) (s : Store)
    → IsMutual s.pairings
    → IsMutual (exec checked at c s).1.pairings
unfolding exec
exec-IsMutual checked at (Store.accept_invite code u) s w =
    accept_invite-IsMutual code u checked at s w
exec-IsMutual checked at (Store.block_pairing user_id peer_id) s w =
    block_pairing-IsMutual user_id peer_id s w
exec-IsMutual checked at c s w = rw (pairings-exec checked at c s tt) w
