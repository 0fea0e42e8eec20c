-- ===== src/Dynamo/Merge.antt =====
-- The merge of the two indexes' answers in `ListPagesFor` of
-- backend/internal/store/dynamo/store.go.
use alertme.Prelude.{
  ℕ, take, ◌≤◌, zero, suc, ⊤, sym, ◌≢◌, String, ◌≡◌, ◌⊎◌, inl, inr, refl, ap, some, List, [], ◌∷◌,
  arith, str_eq, eq_iff, ltb, length, length-take_le, Map, lookup, insert, lookup-insert,
  lookup-insert_self, values, Bool-cases,
}
use alertme.Model.{Page}
use alertme.Store.Fake.Sort.{insert_page, newest_first, page_limit}
use alertme.Store.Fake.Listing.{
  In, From, IsNewestFirst, newest_first-IsNewestFirst, In-newest_first, take-cases,
  take-IsNewestFirst, In-take, lookup-In,
}
use alertme.Dynamo.Pages.{by_id, merge}

-- Pages of one identifier are one page.
abbrev pub IsAlone : Page → List Page → Type 0
IsAlone p l = (q : Page) → In q l → q.id ≡ p.id → q ≡ p

values-insert :
    (key : String) (v p : Page) (m : Map Page)
    → In p (values (insert key v m))
    → (p ≡ v) ⊎ In p (values m)
unfolding values insert
values-insert key v p [] h = h
values-insert key v p ((held, old) ∷ rest) h = elim (Bool-cases (str_eq held key)) [
  | inl same ↦ ground (arith, same)
  | inr other ↦ ground (arith, other, values-insert key v p rest)
]

In-by_id :
    (m : Map Page) (l : List Page) (p : Page) → In p (values (by_id m l)) → In p (values m) ⊎ In p l
unfolding by_id
In-by_id m [] p h = inl h
In-by_id m (q ∷ qs) p h = elim (In-by_id (insert q.id q m) qs p h) [
  | inr later ↦ inr (inr later)
  | inl now ↦ elim (values-insert q.id q p m now) [ inl e ↦ inr (inl e) | inr old ↦ inl old ]
]

-- A page that is filed stays, and a page of the list is filed.
lookup-by_id_kept :
    (m : Map Page) (l : List Page) (p : Page)
    → lookup p.id m ≡ some p
    → IsAlone p l
    → lookup p.id (by_id m l) ≡ some p
unfolding by_id
lookup-by_id_kept m [] p h alone = h
lookup-by_id_kept m (q ∷ qs) p h alone =
    lookup-by_id_kept (insert q.id q m) qs p
      (elim (Bool-cases (str_eq q.id p.id)) [
        | inl same ↦
            rw (lookup-insert, same) (ap some (alone q (inl refl) ((eq_iff q.id p.id).0 same)))
        | inr other ↦ rw (lookup-insert, other) h
      ])
      (λ r k. alone r (inr k))

lookup-by_id :
    (m : Map Page) (l : List Page) (p : Page)
    → In p l
    → IsAlone p l
    → lookup p.id (by_id m l) ≡ some p
unfolding by_id
lookup-by_id m [] p h alone = absurd h
lookup-by_id m (q ∷ qs) p (inr h) alone =
    lookup-by_id (insert q.id q m) qs p h (λ r k. alone r (inr k))
lookup-by_id m (q ∷ qs) p (inl e) alone =
    lookup-by_id_kept (insert q.id q m) qs p (rw e (lookup-insert_self q.id q m))
      (λ r k. alone r (inr k))

-- No page of the list has the identifier, and no two pages have one identifier.
unfoldable pub HasNo : String → List Page → Type 0
HasNo id [] = ⊤
HasNo id (q ∷ qs) = (q.id ≢ id) × HasNo id qs

unfoldable pub HasDistinctIds : List Page → Type 0
HasDistinctIds [] = ⊤
HasDistinctIds (p ∷ ps) = HasNo p.id ps × HasDistinctIds ps

-- Each page is filed under its identifier, once.
unfoldable IsFiled : Map Page → Type 0
unfolding HasNo
IsFiled [] = ⊤
IsFiled ((key, p) ∷ rest) = (p.id ≡ key) × (HasNo key (values rest) × IsFiled rest)

HasNo-insert :
    (id : String) (q : Page) (m : Map Page)
    → q.id ≢ id
    → HasNo id (values m)
    → HasNo id (values (insert q.id q m))
unfolding HasNo values insert
HasNo-insert id q [] h k = (h, tt)
HasNo-insert id q ((held, old) ∷ rest) h (a, k) = elim (Bool-cases (str_eq held q.id)) [
  | inl same ↦ rw same (h, k)
  | inr other ↦ rw other (a, HasNo-insert id q rest h k)
]

insert-IsFiled : (q : Page) (m : Map Page) → IsFiled m → IsFiled (insert q.id q m)
unfolding IsFiled insert HasNo values
insert-IsFiled q [] h = (refl, (tt, tt))
insert-IsFiled q ((held, old) ∷ rest) (a, (b, h)) = elim (Bool-cases (str_eq held q.id)) [
  | inl same ↦ rw same (sym ((eq_iff held q.id).0 same), (b, h))
  | inr other ↦ rw other (
    a,
    (HasNo-insert held q rest (λ e. ground (arith, eq_iff held q.id)) b, insert-IsFiled q rest h),
  )
]

by_id-IsFiled : (m : Map Page) (l : List Page) → IsFiled m → IsFiled (by_id m l)
unfolding by_id
by_id-IsFiled m [] h = h
by_id-IsFiled m (q ∷ qs) h = by_id-IsFiled (insert q.id q m) qs (insert-IsFiled q m h)

IsFiled-HasDistinctIds : (m : Map Page) → IsFiled m → HasDistinctIds (values m)
unfolding IsFiled HasDistinctIds values
IsFiled-HasDistinctIds [] h = tt
IsFiled-HasDistinctIds ((key, p) ∷ rest) (a, (b, h)) = (rw a b, IsFiled-HasDistinctIds rest h)

HasNo-insert_page :
    (id : String) (p : Page) (l : List Page) → p.id ≢ id → HasNo id l → HasNo id (insert_page p l)
unfolding HasNo insert_page
HasNo-insert_page id p [] h k = (h, tt)
HasNo-insert_page id p (q ∷ qs) h (a, k) = elim (Bool-cases (ltb p.created_at q.created_at)) [
  | inl later ↦ rw later (a, HasNo-insert_page id p qs h k)
  | inr not_later ↦ rw not_later (h, (a, k))
]

HasNo-newest_first : (id : String) (l : List Page) → HasNo id l → HasNo id (newest_first l)
unfolding HasNo newest_first
HasNo-newest_first id [] h = tt
HasNo-newest_first id (p ∷ ps) (a, h) =
    HasNo-insert_page id p (newest_first ps) a (HasNo-newest_first id ps h)

insert_page-HasDistinctIds :
    (p : Page) (l : List Page) → HasNo p.id l → HasDistinctIds l → HasDistinctIds (insert_page p l)
unfolding HasNo HasDistinctIds insert_page
insert_page-HasDistinctIds p [] h k = (tt, tt)
insert_page-HasDistinctIds p (q ∷ qs) (a, h) (b, k) =
    elim (Bool-cases (ltb p.created_at q.created_at)) [
      | inl later ↦
          rw later
            (HasNo-insert_page q.id p qs (λ e. a (sym e)) b, insert_page-HasDistinctIds p qs h k)
      | inr not_later ↦ rw not_later ((a, h), (b, k))
    ]

newest_first-HasDistinctIds : (l : List Page) → HasDistinctIds l → HasDistinctIds (newest_first l)
unfolding HasDistinctIds newest_first
newest_first-HasDistinctIds [] h = tt
newest_first-HasDistinctIds (p ∷ ps) (a, h) =
    insert_page-HasDistinctIds p (newest_first ps) (HasNo-newest_first p.id ps a)
      (newest_first-HasDistinctIds ps h)

HasNo-take : (n : ℕ) (id : String) (l : List Page) → HasNo id l → HasNo id (take n l)
unfolding HasNo
HasNo-take zero id l h = tt
HasNo-take (suc n) id [] h = tt
HasNo-take (suc n) id (q ∷ qs) (a, h) = (a, HasNo-take n id qs h)

take-HasDistinctIds : (n : ℕ) (l : List Page) → HasDistinctIds l → HasDistinctIds (take n l)
unfolding HasDistinctIds HasNo
take-HasDistinctIds zero l h = tt
take-HasDistinctIds (suc n) [] h = tt
take-HasDistinctIds (suc n) (q ∷ qs) (a, h) = (HasNo-take n q.id qs a, take-HasDistinctIds n qs h)

-- The newest pages of two lists.
pub record IsMerge (a b ps : List Page) : Type 0 where
  pub bounded : length ps ≤ page_limit
  pub sorted : IsNewestFirst ps
  pub distinct : HasDistinctIds ps
  pub sound : (p : Page) → In p ps → In p a ⊎ In p b
  pub complete :
      (p : Page)
      → In p a ⊎ In p b
      → IsAlone p a
      → IsAlone p b
      → In p ps ⊎ ((length ps ≡ page_limit) × From p.created_at ps)

module _ (a b : List Page) where
  abbrev merged : List Page
  merged = newest_first (values (by_id (by_id [] a) b))

  merged-HasDistinctIds : HasDistinctIds merged
  unfolding IsFiled
  merged-HasDistinctIds = newest_first-HasDistinctIds (values (by_id (by_id [] a) b)) (
      IsFiled-HasDistinctIds (by_id (by_id [] a) b)
        (by_id-IsFiled (by_id [] a) b (by_id-IsFiled [] a tt)))

  merged_sound : (p : Page) → In p merged → In p a ⊎ In p b
  unfolding values
  merged_sound p h =
      elim (In-by_id (by_id [] a) b p ((In-newest_first p (values (by_id (by_id [] a) b))).0 h)) [
        | inr right ↦ inr right
        | inl filed ↦ elim (In-by_id [] a p filed) [ inl none ↦ absurd none | inr left ↦ inl left ]
      ]

  merged_complete : (p : Page) → In p a ⊎ In p b → IsAlone p a → IsAlone p b → In p merged
  merged_complete p h alone_a alone_b = (In-newest_first p (values (by_id (by_id [] a) b))).1 (
      lookup-In p.id p (by_id (by_id [] a) b) (elim h [
        | inl left ↦ lookup-by_id_kept (by_id [] a) b p (lookup-by_id [] a p left alone_a) alone_b
        | inr right ↦ lookup-by_id (by_id [] a) b p right alone_b
      ]))

  -- The merge in `ListPagesFor` is a list of at most a hundred pages, newest first, in which no two
  -- pages share an identifier. It holds only pages of the two lists, and of each page that is the only
  -- one of its identifier in them, either the page itself or a hundred that are at least as new.
  pub merge-IsMerge : IsMerge a b (merge a b)
  unfolding merge
  merge-IsMerge =
      let sorted = newest_first-IsNewestFirst (values (by_id (by_id [] a) b)) in
      elim (Bool-cases (ltb page_limit (length merged))) [
        | inl more ↦ rw more (record {
          bounded = length-take_le page_limit merged;
          sorted = take-IsNewestFirst page_limit merged sorted;
          distinct = take-HasDistinctIds page_limit merged merged-HasDistinctIds;
          sound = λ p h. merged_sound p (In-take page_limit p merged h);
          complete = λ p h x y. take-cases page_limit p merged sorted (merged_complete p h x y);
        })
        | inr fits ↦ rw fits (record {
          bounded = ground arith;
          sorted = sorted;
          distinct = merged-HasDistinctIds;
          sound = merged_sound;
          complete = λ p h x y. inl (merged_complete p h x y);
        })
      ]
