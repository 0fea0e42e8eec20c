-- ===== src/Store/Fake/Listing.antt =====
-- What `ListPagesFor` of the in-memory store lists.
use alertme.Prelude.{
  ℕ, zero, suc, ◌≤◌, ◌<◌, String, ⊤, Bool, true, ◌≡◌, ◌⊎◌, inl, inr, refl, ap, some, List, [], ◌∷◌,
  arith, str_eq, eq_iff, ltb, length, take, length-take_le, Map, lookup, values, Bool-cases,
}
use alertme.Model.{Time, Page}
use alertme.Store.{ok}
use alertme.Store.Fake.{Store, list_pages_for}
use alertme.Store.Fake.Sort.{is_listed, select, insert_page, newest_first, page_limit}

abbrev pub In : Page → List Page → Type 0
In p [] = ⊥
In p (q ∷ qs) = (p ≡ q) ⊎ In p qs

-- Each page of the list was made at `t` or before, or at `t` or after.
abbrev pub Until : Time → List Page → Type 0
Until t [] = ⊤
Until t (q ∷ qs) = (q.created_at ≤ t) × Until t qs

abbrev pub From : Time → List Page → Type 0
From t [] = ⊤
From t (q ∷ qs) = (t ≤ q.created_at) × From t qs

abbrev pub IsNewestFirst : List Page → Type 0
IsNewestFirst [] = ⊤
IsNewestFirst (p ∷ ps) = Until p.created_at ps × IsNewestFirst ps

Until-weaken : (t u : Time) (l : List Page) → t ≤ u → Until t l → Until u l
Until-weaken t u [] h k = tt
Until-weaken t u (q ∷ qs) h (a, k) = (omega arith, Until-weaken t u qs h k)

Until-insert_page :
    (t : Time) (p : Page) (l : List Page) → p.created_at ≤ t → Until t l → Until t (insert_page p l)
unfolding insert_page
Until-insert_page t p [] h k = (h, tt)
Until-insert_page t p (q ∷ qs) h (a, k) = elim (Bool-cases (ltb p.created_at q.created_at)) [
  | inl later ↦ rw later (a, Until-insert_page t p qs h k)
  | inr not_later ↦ rw not_later (h, (a, k))
]

insert_page-IsNewestFirst :
    (p : Page) (l : List Page) → IsNewestFirst l → IsNewestFirst (insert_page p l)
unfolding insert_page
insert_page-IsNewestFirst p [] h = (tt, tt)
insert_page-IsNewestFirst p (q ∷ qs) (a, k) = elim (Bool-cases (ltb p.created_at q.created_at)) [
  | inl later ↦
      rw later
        (Until-insert_page q.created_at p qs (ground arith) a, insert_page-IsNewestFirst p qs k)
  | inr not_later ↦
      rw not_later
        ((ground arith, Until-weaken q.created_at p.created_at qs (ground arith) a), (a, k))
]

pub newest_first-IsNewestFirst : (l : List Page) → IsNewestFirst (newest_first l)
unfolding newest_first
newest_first-IsNewestFirst [] = tt
newest_first-IsNewestFirst (p ∷ ps) =
    insert_page-IsNewestFirst p (newest_first ps) (newest_first-IsNewestFirst ps)

In-insert_page :
    (p q : Page) (l : List Page)
    → (In p (insert_page q l) → (p ≡ q) ⊎ In p l) × ((p ≡ q) ⊎ In p l → In p (insert_page q l))
unfolding insert_page
In-insert_page p q [] = (λ h. h, λ h. h)
In-insert_page p q (r ∷ rs) =
    let (i, j) = In-insert_page p q rs in
    elim (Bool-cases (ltb q.created_at r.created_at)) [
      | inl later ↦ (λ h. ground (arith, i), λ h. ground (arith, j))
      | inr not_later ↦ rw not_later (λ h. h, λ h. h)
    ]

pub In-newest_first :
    (p : Page) (l : List Page) → (In p (newest_first l) → In p l) × (In p l → In p (newest_first l))
unfolding newest_first
In-newest_first p [] = (λ h. h, λ h. h)
In-newest_first p (q ∷ qs) =
    let (i, j) = In-newest_first p qs in
    let (k, l) = In-insert_page p q (newest_first qs) in
    (λ h. ground (arith, i, k), λ h. ground (arith, j, l))

In-select :
    (keep : Page → Bool) (p : Page) (l : List Page)
    → (In p (select keep l) → (keep p ≡ true) × In p l)
      × ((keep p ≡ true) → In p l → In p (select keep l))
unfolding select
In-select keep p [] = (λ h. absurd h, λ h k. k)
In-select keep p (q ∷ qs) =
    let (i, j) = In-select keep p qs in
    elim (Bool-cases (keep q)) [
      | inl kept ↦ rw kept (
        λ h. elim h [ inl e ↦ (rw e kept, inl e) | inr k ↦ let (a, b) = i k in (a, inr b) ],
        λ h k. elim k [ inl e ↦ inl e | inr m ↦ inr (j h m) ],
      )
      | inr dropped ↦
          rw dropped
            (λ h. let (a, b) = i h in (a, inr b), λ h k. elim k [ inl e ↦ cc | inr m ↦ j h m ])
    ]

In-Until : (t : Time) (p : Page) (l : List Page) → Until t l → In p l → p.created_at ≤ t
In-Until t p [] h m = absurd m
In-Until t p (q ∷ qs) (a, k) (inl e) = rw e a
In-Until t p (q ∷ qs) (a, k) (inr m) = In-Until t p qs k m

-- What a cut of a sorted list leaves out is no newer than anything that it keeps.
pub take-cases :
    (n : ℕ) (p : Page) (l : List Page)
    → IsNewestFirst l
    → In p l
    → In p (take n l) ⊎ ((length (take n l) ≡ n) × From p.created_at (take n l))
take-cases zero p l h m = inr (refl, tt)
take-cases (suc n) p [] h m = absurd m
take-cases (suc n) p (q ∷ qs) (a, h) (inl e) = inl (inl e)
take-cases (suc n) p (q ∷ qs) (a, h) (inr m) = elim (take-cases n p qs h m) [
  | inl kept ↦ inl (inr kept)
  | inr (full, older) ↦ inr (ap suc full, (In-Until q.created_at p qs a m, older))
]

pub In-take : (n : ℕ) (p : Page) (l : List Page) → In p (take n l) → In p l
In-take zero p l m = absurd m
In-take (suc n) p [] m = absurd m
In-take (suc n) p (q ∷ qs) (inl e) = inl e
In-take (suc n) p (q ∷ qs) (inr m) = inr (In-take n p qs m)

Until-take : (n : ℕ) (t : Time) (l : List Page) → Until t l → Until t (take n l)
Until-take zero t l h = tt
Until-take (suc n) t [] h = tt
Until-take (suc n) t (q ∷ qs) (a, h) = (a, Until-take n t qs h)

pub take-IsNewestFirst : (n : ℕ) (l : List Page) → IsNewestFirst l → IsNewestFirst (take n l)
take-IsNewestFirst zero l h = tt
take-IsNewestFirst (suc n) [] h = tt
take-IsNewestFirst (suc n) (q ∷ qs) (a, h) =
    (Until-take n q.created_at qs a, take-IsNewestFirst n qs h)

pub lookup-In : (id : String) (p : Page) (m : Map Page) → lookup id m ≡ some p → In p (values m)
unfolding lookup values
lookup-In id p [] h = cc
lookup-In id p ((key, q) ∷ rest) h = elim (Bool-cases (str_eq key id)) [
  | inl same ↦ inl (ground arith)
  | inr other ↦ inr (lookup-In id p rest (ground arith))
]

-- The user is a party of the page, and the page was made after `since`, if that is given.
pub record IsListed (user : String) (since : Time) (p : Page) : Type 0 where
  pub party : (p.sender_id ≡ user) ⊎ (p.recipient_id ≡ user)
  pub recent : (since ≡ 0) ⊎ (since < p.created_at)

is_listed_iff :
    (user : String) (since : Time) (p : Page)
    → (is_listed user since p ≡ true → IsListed user since p)
      × (IsListed user since p → is_listed user since p ≡ true)
unfolding is_listed
is_listed_iff user since p = (
  λ h. record {
    party = ground (arith, eq_iff p.sender_id user, eq_iff p.recipient_id user);
    recent = ground arith;
  },
  λ l. ground (arith, l.party, l.recent, eq_iff p.sender_id user, eq_iff p.recipient_id user),
)

-- A listing for a user of the pages that a store holds.
pub record IsListing (user : String) (since : Time) (s : Store) (ps : List Page) : Type 0 where
  pub bounded : length ps ≤ page_limit
  pub sorted : IsNewestFirst ps
  pub sound : (p : Page) → In p ps → In p (values s.pages) × IsListed user since p
  -- a page that is to be listed and is left out is one for which a full list of newer ones had no
  -- room
  pub complete :
      (id : String) (p : Page)
      → lookup id s.pages ≡ some p
      → IsListed user since p
      → In p ps ⊎ ((length ps ≡ page_limit) × From p.created_at ps)

module _ (user : String) (since : Time) (s : Store) where
  abbrev out : List Page
  out = newest_first (select (is_listed user since) (values s.pages))

  In-out :
      (p : Page)
      → (In p out → In p (values s.pages) × IsListed user since p)
        × (In p (values s.pages) → IsListed user since p → In p out)
  In-out p =
      let (a, b) = In-newest_first p (select (is_listed user since) (values s.pages)) in
      let (c, d) = In-select (is_listed user since) p (values s.pages) in
      let (e, f) = is_listed_iff user since p in
      (λ h. let (k, m) = c (a h) in (m, e k), λ m k. b (d (f k) m))

  take-IsListing : IsListing user since s (take page_limit out)
  take-IsListing =
      let sorted = newest_first-IsNewestFirst (select (is_listed user since) (values s.pages)) in
      record {
        bounded = length-take_le page_limit out;
        sorted = take-IsNewestFirst page_limit out sorted;
        sound = λ p h. (In-out p).0 (In-take page_limit p out h);
        complete = λ id p h k.
            take-cases page_limit p out sorted ((In-out p).1 (lookup-In id p s.pages h) k);
      }

  whole-IsListing : length out ≤ page_limit → IsListing user since s out
  whole-IsListing short =
      let sorted = newest_first-IsNewestFirst (select (is_listed user since) (values s.pages)) in
      record {
        bounded = short;
        sorted = sorted;
        sound = λ p h. (In-out p).0 h;
        complete = λ id p h k. inl ((In-out p).1 (lookup-In id p s.pages h) k);
      }

  -- `ListPagesFor` leaves the store as it is, and lists at most a hundred pages, newest first: only
  -- stored pages of which the user is the sender or the recipient and which were made after `since`
  -- (at any time for the zero time), and all of those, unless a hundred that are at least as new are
  -- listed.
  pub list_pages_for-IsListing :
      (ps : List Page) × (list_pages_for user since s ≡ (ok ps, s)) × IsListing user since s ps
  unfolding list_pages_for
  list_pages_for-IsListing = elim (Bool-cases (ltb page_limit (length out))) [
    | inl more ↦ (take page_limit out, rw more refl, take-IsListing)
    | inr fits ↦ (out, rw fits refl, whole-IsListing (ground arith))
  ]
