-- ===== src/Tests/Listing.antt =====
-- Alice's two pages, listed for Bob.
use alertme.Prelude.{◌≡◌, List, [], ◌∷◌, refl, values}
use alertme.Model.{Page}
use alertme.Store.{ok}
use alertme.Store.Fake.{Store, list_pages_for}
use alertme.Store.Fake.Sort.{is_listed, select, newest_first}
use alertme.Store.Fake.Listing.{IsListing, list_pages_for-IsListing}
use alertme.Tests.{page, store_with}

abbrev newer : Page
newer = record page { id = "p2"; idempotency_key = "key-2"; created_at = 8 }

abbrev older : Page
older = record page { id = "p3"; idempotency_key = "key-3"; created_at = 3 }

abbrev three_pages : Store
three_pages = record (store_with page) { pages = ("p1", page) ∷ ("p3", older) ∷ ("p2", newer) ∷ [] }

list_pages_for-IsListing_example :
    (ps : List Page) × (list_pages_for "bob" 2 three_pages ≡ (ok ps, three_pages))
    × IsListing "bob" 2 three_pages ps
list_pages_for-IsListing_example = list_pages_for-IsListing "bob" 2 three_pages

list_pages_for-newest : list_pages_for "bob" 2 three_pages ≡ (ok (newer ∷ older ∷ []), three_pages)
unfolding list_pages_for newest_first select values is_listed
list_pages_for-newest = refl
