-- ===== src/Store/Fake/Invariant.antt =====
-- What holds of the pages and the idempotency keys of the in-memory store between two calls.
use alertme.Prelude.{
  String, true, ◌≡◌, refl, ◌≢◌, inl, inr, none, some, List, arith, str_eq, eq_iff, lookup, insert,
  lookup-insert, Bool-cases, Option-cases,
}
use alertme.Int.{ℤ}
use alertme.Model.{Time, PageState, Page, acked, is_active}
use alertme.Store.{StoreCmd}
use alertme.Store
use alertme.Store.Contract.{Obeys, IsTransition, IsFresh}
use alertme.Store.Exec.{exec}
use alertme.Store.Fake
use alertme.Store.Fake.{Store, ack, moved, allowed, create_page, ack_page, set_page_state}
use alertme.Store.Fake.Frame.{frame}
use alertme.Store.Fake.Creation.{IsNew, with_page, create_page-cases}

-- An acknowledged page has its time of acknowledgement, and no other page has one.
abbrev pub HasAck : Page → Type 0
HasAck p = (p.state ≡ acked → p.acked_at ≢ none) × (p.state ≢ acked → p.acked_at ≡ none)

pub record IsWellFormed (s : Store) : Type 0 where
  pub filed : (id : String) (p : Page) → lookup id s.pages ≡ some p → p.id ≡ id
  -- each stored page is the one that its key leads to
  pub keyed :
      (id : String) (p : Page)
      → lookup id s.pages ≡ some p
      → lookup p.idempotency_key s.idem ≡ some id
  -- each key leads to a stored page that has it
  pub guarded :
      (key id : String)
      → lookup key s.idem ≡ some id
      → (p : Page) × (lookup id s.pages ≡ some p) × (p.idempotency_key ≡ key)
  pub acks : (id : String) (p : Page) → lookup id s.pages ≡ some p → HasAck p

pub empty-IsWellFormed : IsWellFormed Fake.empty
unfolding Fake.empty lookup
empty-IsWellFormed = record {
  filed = λ id p h. cc;
  keyed = λ id p h. cc;
  guarded = λ key id h. cc;
  acks = λ id p h. cc;
}

-- Only pages and keys matter.
IsWellFormed-same :
    (s t : Store) → t.pages ≡ s.pages → t.idem ≡ s.idem → IsWellFormed s → IsWellFormed t
IsWellFormed-same s t e f w = record {
  filed = λ id p h. w.filed id p (rw e at h);
  keyed = λ id p h. rw f (w.keyed id p (rw e at h));
  guarded = λ key id h. rw e (w.guarded key id (rw f at h));
  acks = λ id p h. w.acks id p (rw e at h);
}

module _ (s : Store) (w : IsWellFormed s) (p : Page) (new : IsNew p s) (fresh : IsFresh p) where
  with_page-filed : (id : String) (q : Page) → lookup id (with_page p s).pages ≡ some q → q.id ≡ id
  with_page-filed id q h =
      ground (arith, lookup-insert p.id id p s.pages, eq_iff p.id id, w.filed id q)

  with_page-keyed :
      (id : String) (q : Page)
      → lookup id (with_page p s).pages ≡ some q
      → lookup q.idempotency_key (with_page p s).idem ≡ some id
  with_page-keyed id q h = ground (
    arith,
    lookup-insert p.id id p s.pages,
    eq_iff p.id id,
    lookup-insert p.idempotency_key q.idempotency_key p.id s.idem,
    eq_iff p.idempotency_key q.idempotency_key,
    w.keyed id q,
    new.new_key,
  )

  with_page-acks : (id : String) (q : Page) → lookup id (with_page p s).pages ≡ some q → HasAck q
  with_page-acks id q h =
      ground
        (arith, lookup-insert p.id id p s.pages, w.acks id q, fresh.is_created, fresh.not_acked)

  with_page-guarded :
      (key id : String)
      → lookup key (with_page p s).idem ≡ some id
      → (q : Page) × (lookup id (with_page p s).pages ≡ some q) × (q.idempotency_key ≡ key)
  with_page-guarded key id h = elim (Bool-cases (str_eq p.idempotency_key key)) [
    | inl same ↦ (
      p,
      ground (
        arith,
        lookup-insert p.idempotency_key key p.id s.idem,
        lookup-insert p.id id p s.pages,
        eq_iff p.id id,
      ),
      (eq_iff p.idempotency_key key).0 same,
    )
    | inr other ↦
        let (q, stored, has) =
          w.guarded key id (ground (arith, lookup-insert p.idempotency_key key p.id s.idem)) in
        (q, ground (arith, lookup-insert p.id id p s.pages, eq_iff p.id id, new.new_id), has)
  ]

  with_page-IsWellFormed : IsWellFormed (with_page p s)
  with_page-IsWellFormed = record {
    filed = with_page-filed;
    keyed = with_page-keyed;
    guarded = with_page-guarded;
    acks = with_page-acks;
  }

-- Overwriting a page, with its identifier and its key kept.
module _ (s : Store) (w : IsWellFormed s) (id : String) (p q : Page)
    (here : lookup id s.pages ≡ some p) (same_id : q.id ≡ p.id)
    (same_key : q.idempotency_key ≡ p.idempotency_key) (ack_of : HasAck q) where
  overwrite-guarded :
      (key i : String)
      → lookup key s.idem ≡ some i
      → (r : Page) × (lookup i (insert id q s.pages) ≡ some r) × (r.idempotency_key ≡ key)
  overwrite-guarded key i h = elim (Bool-cases (str_eq id i)) [
    | inl same ↦ (
      q,
      rw (lookup-insert, same),
      let (r, stored, has) = w.guarded key i h in ground (arith, (eq_iff id i).0 same),
    )
    | inr other ↦
        let (r, stored, has) = w.guarded key i h in (r, rw (lookup-insert, other) stored, has)
  ]

  overwrite-IsWellFormed : IsWellFormed (record s { pages = insert id q s.pages })
  overwrite-IsWellFormed = record {
    filed = λ i r h.
        ground (arith, lookup-insert id i q s.pages, eq_iff id i, w.filed id p here, w.filed i r);
    keyed = λ i r h.
        ground (arith, lookup-insert id i q s.pages, eq_iff id i, w.keyed id p here, w.keyed i r);
    guarded = overwrite-guarded;
    acks = λ i r h. ground (arith, lookup-insert id i q s.pages, eq_iff id i, w.acks i r);
  }

ack-HasAck : (note : String) (at : Time) (p : Page) → HasAck (ack note at p)
unfolding ack
ack-HasAck note at p = (λ e. λ h. cc, λ h. absurd (h refl))

moved-HasAck :
    (from : List PageState) (to : PageState) (attempt : ℤ) (p : Page)
    → IsTransition from to
    → allowed p.state from ≡ true
    → HasAck p
    → HasAck (moved to attempt p)
unfolding moved is_active
moved-HasAck from to attempt p t can h =
    (λ e. absurd (t.not_ack e), λ e. h.1 (λ a. ground (arith, t.leaves p.state can)))

IsWellFormed-create_page :
    (p : Page) (s : Store) → IsFresh p → IsWellFormed s → IsWellFormed (create_page p s).1
IsWellFormed-create_page p s fresh w = elim (create_page-cases p s) [
  | inl lost ↦ rw lost w
  | inr (new, made) ↦ rw made (
      unfold Fake.append_event in
      IsWellFormed-same (with_page p s) _ refl refl (with_page-IsWellFormed s w p new fresh))
]

IsWellFormed-ack_page :
    (id note : String) (at : Time) (s : Store)
    → IsWellFormed s
    → IsWellFormed (ack_page id note at s).1
unfolding ack_page
IsWellFormed-ack_page id note at s w = elim (Option-cases (lookup id s.pages)) [
  | inl missing ↦ rw missing w
  | inr (p, here) ↦ rw here (elim (Bool-cases (is_active p.state)) [
    | inl live ↦ rw live (
        overwrite-IsWellFormed s w id p (ack note at p) here (unfold ack in refl)
          (unfold ack in refl) (ack-HasAck note at p))
    | inr final ↦ rw final w
  ])
]

IsWellFormed-set_page_state :
    (id : String) (from : List PageState) (to : PageState) (attempt : ℤ) (s : Store)
    → IsTransition from to
    → IsWellFormed s
    → IsWellFormed (set_page_state id from to attempt s).1
unfolding set_page_state
IsWellFormed-set_page_state id from to attempt s t w = elim (Option-cases (lookup id s.pages)) [
  | inl missing ↦ rw missing w
  | inr (p, here) ↦ rw here (elim (Bool-cases (allowed p.state from)) [
    | inl can ↦ rw can (
        overwrite-IsWellFormed s w id p (moved to attempt p) here refl refl
          (moved-HasAck from to attempt p t can (w.acks id p here)))
    | inr cannot ↦ rw cannot w
  ])
]

-- Every command that keeps the contract keeps the invariant.
pub exec-IsWellFormed :
    (checked at : Time) (c : StoreCmd) (s : Store)
    → Obeys c
    → IsWellFormed s
    → IsWellFormed (exec checked at c s).1
unfolding exec
exec-IsWellFormed checked at (Store.create_page p) s h w = IsWellFormed-create_page p s h w
exec-IsWellFormed checked at (Store.ack_page id note when) s h w =
    IsWellFormed-ack_page id note when s w
exec-IsWellFormed checked at (Store.set_page_state id from to attempt) s h w =
    IsWellFormed-set_page_state id from to attempt s h w
exec-IsWellFormed checked at c s h w =
    let f = frame checked at c s tt in IsWellFormed-same s (exec checked at c s).1 f.pages f.idem w
