-- ===== src/Store/Fake/Sort.antt =====
-- The loop, the sort and the cap of `ListPagesFor` in backend/internal/store/fake/store.go.
use alertme.Prelude.{
  ℕ, String, Bool, true, false, not, ◌&&◌, List, [], ◌∷◌, ◌==◌, ltb, str_eq, if◌then◌else◌,
}
use alertme.Model.{Time, Page}

-- The two `continue`s of the loop of `ListPagesFor`.
unfoldable pub is_listed : String → Time → Page → Bool
is_listed user_id since p =
    if not (str_eq p.sender_id user_id) && not (str_eq p.recipient_id user_id)
    then false
    else if not (since == 0) && not (ltb since p.created_at)
    then false
    else true

unfoldable pub select : (Page → Bool) → List Page → List Page
select keep [] = []
select keep (p ∷ ps) = let rest = select keep ps in if keep p then p ∷ rest else rest

-- `sort.Slice` by `CreatedAt.After`. Go leaves the order of equal elements open; this sort is one
-- of the orders that it may give.
unfoldable pub insert_page : Page → List Page → List Page
insert_page p [] = p ∷ []
insert_page p (q ∷ qs) =
    let rest = q ∷ insert_page p qs in if ltb p.created_at q.created_at then rest else p ∷ q ∷ qs

unfoldable pub newest_first : List Page → List Page
unfolding insert_page
newest_first [] = []
newest_first (p ∷ ps) = insert_page p (newest_first ps)

abbrev pub page_limit : ℕ
page_limit = 100
