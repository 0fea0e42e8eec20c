-- ===== src/Store/Fake/Creation.antt =====
-- The two outcomes of `CreatePage` in the in-memory store.
use alertme.Prelude.{◌≡◌, ◌⊎◌, inl, inr, none, lookup, insert, Option-cases}
use alertme.Model.{Page}
use alertme.Store.{err, conflict}
use alertme.Store.Fake.{Store, create_page, created_event, append_event}

-- The store with the page and the guard of its key.
abbrev pub with_page : Page → Store → Store
with_page p s = record s {
  pages = insert p.id p s.pages;
  idem = insert p.idempotency_key p.id s.idem;
}

pub record IsNew (p : Page) (s : Store) : Type 0 where
  pub new_id : lookup p.id s.pages ≡ none
  pub new_key : lookup p.idempotency_key s.idem ≡ none

-- Either the page's identifier and key are both new, and it is written with its event, or the call
-- is a conflict that writes nothing.
pub create_page-cases :
    (p : Page) (s : Store)
    → (create_page p s ≡ (err conflict, s))
      ⊎ (IsNew p s × (create_page p s ≡ append_event (created_event p) (with_page p s)))
unfolding create_page
create_page-cases p s = elim (Option-cases (lookup p.id s.pages)) [
  | inr (q, e) ↦ inl (rw e)
  | inl e ↦ elim (Option-cases (lookup p.idempotency_key s.idem)) [
    | inr (k, f) ↦ inl (rw (e, f))
    | inl f ↦ inr (record { new_id = e; new_key = f }, rw (e, f))
  ]
]
