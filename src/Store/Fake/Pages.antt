-- ===== src/Store/Fake/Pages.antt =====
-- The pages of the in-memory store under every command that keeps the contract.
use alertme.Prelude.{
  String, true, ◌≡◌, subst, some, List, arith, str_eq, eq_iff, lookup, insert, lookup-insert,
  Bool-cases, Option-cases, inl, inr,
}
use alertme.Int.{ℤ}
use alertme.Model.{Time, PageState, Page, is_active}
use alertme.Store.{StoreCmd}
use alertme.Store
use alertme.Store.Fake
use alertme.Store.Fake.{Store, ack, moved, allowed, create_page, ack_page, set_page_state}
use alertme.Store.Exec.{exec}
use alertme.Store.Fake.Frame.{frame}
use alertme.Store.Contract.{IsTransition, Obeys, Evolves, Evolves-refl, Evolves-trans}

-- Every page of `s` is still there in `t`, and has evolved.
abbrev pub Later : Store → Store → Type 0
Later s t =
    (id : String) (p : Page)
    → lookup id s.pages ≡ some p
    → (q : Page) × (lookup id t.pages ≡ some q) × Evolves p q

pub Later-refl : (s : Store) → Later s s
Later-refl s id p h = (p, h, Evolves-refl p)

pub Later-trans : (s t u : Store) → Later s t → Later t u → Later s u
Later-trans s t u a b id p h =
    let (q, hq, e) = a id p h in let (r, hr, f) = b id q hq in (r, hr, Evolves-trans p q r e f)

Evolves-ack :
    (note : String) (at : Time) (p : Page) → is_active p.state ≡ true → Evolves p (ack note at p)
unfolding ack is_active
Evolves-ack note at p h = ground arith

Evolves-moved :
    (from : List PageState) (to : PageState) (attempt : ℤ) (p : Page)
    → IsTransition from to
    → allowed p.state from ≡ true
    → Evolves p (moved to attempt p)
unfolding moved
Evolves-moved from to attempt p t h = ground (arith, t.leaves p.state h)

-- Overwriting a page by what it may become.
overwrite : Store → String → Page → Store
overwrite s id q = record s { pages = insert id q s.pages }

same_page :
    (s : Store) (i j : String) {p r : Page}
    → str_eq i j ≡ true
    → lookup i s.pages ≡ some p
    → lookup j s.pages ≡ some r
    → p ≡ r
same_page s i j e hp hr = ground (arith, (eq_iff i j).0 e)

Later-overwrite :
    (s : Store) (id : String) (p q : Page)
    → lookup id s.pages ≡ some p
    → Evolves p q
    → Later s (overwrite s id q)
unfolding overwrite
Later-overwrite s id p q h e j r hr = elim (Bool-cases (str_eq id j)) [
  | inl same ↦
      (q, rw (lookup-insert, same), subst (λ x. Evolves x q) (same_page s id j same h hr) e)
  | inr other ↦ (r, rw (lookup-insert, other) hr, Evolves-refl r)
]

Later-ack_page : (id note : String) (at : Time) (s : Store) → Later s (ack_page id note at s).1
unfolding ack_page overwrite
Later-ack_page id note at s = elim (Option-cases (lookup id s.pages)) [
  | inl missing ↦ rw missing (Later-refl s)
  | inr (p, here) ↦ rw here (go p here)
]
  where
    go : (p : Page) → lookup id s.pages ≡ some p → Later s (Fake.ack_found id note at (some p) s).1
    go p here = elim (Bool-cases (is_active p.state)) [
      | inl live ↦
          rw live (Later-overwrite s id p (ack note at p) here (Evolves-ack note at p live))
      | inr final ↦ rw final (Later-refl s)
    ]

Later-set_page_state :
    (id : String) (from : List PageState) (to : PageState) (attempt : ℤ) (s : Store)
    → IsTransition from to
    → Later s (set_page_state id from to attempt s).1
unfolding set_page_state overwrite
Later-set_page_state id from to attempt s t = elim (Option-cases (lookup id s.pages)) [
  | inl missing ↦ rw missing (Later-refl s)
  | inr (p, here) ↦ rw here (go p here)
]
  where
    go :
        (p : Page)
        → lookup id s.pages ≡ some p
        → Later s (Fake.set_found id from to attempt (some p) s).1
    go p here = elim (Bool-cases (allowed p.state from)) [
      | inl can ↦
          rw can (
            Later-overwrite s id p (moved to attempt p) here
              (Evolves-moved from to attempt p t can))
      | inr cannot ↦ rw cannot (Later-refl s)
    ]

Later-create_page : (p : Page) (s : Store) → Later s (create_page p s).1
unfolding create_page
Later-create_page p s id r hr =
    (r, ground (arith, lookup-insert p.id id p s.pages, eq_iff p.id id), Evolves-refl r)

Later-same : (s t : Store) → t.pages ≡ s.pages → Later s t
Later-same s t e id p h = (p, rw e h, Evolves-refl p)

-- A command that keeps the contract removes no page, and each page that is there evolves: its
-- identity, sender, recipient, message, key and times stay as they are, its state moves only
-- forward, and a page in a final state does not change at all.
pub exec-Later :
    (checked at : Time) (c : StoreCmd) (s : Store) → Obeys c → Later s (exec checked at c s).1
unfolding exec
exec-Later checked at (Store.create_page p) s h = Later-create_page p s
exec-Later checked at (Store.ack_page id note when) s h = Later-ack_page id note when s
exec-Later checked at (Store.set_page_state id from to attempt) s h =
    Later-set_page_state id from to attempt s h
exec-Later checked at c s h = Later-same s (exec checked at c s).1 (frame checked at c s tt).pages
