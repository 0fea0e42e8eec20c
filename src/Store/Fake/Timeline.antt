-- ===== src/Store/Fake/Timeline.antt =====
-- The rows of the in-memory store (backend/internal/store/fake/store.go): a list under each key, as
-- the timeline of a page.
use alertme.Prelude.{String, ◌≡◌, List, arith, str_eq, Map, insert, lookup-insert, if◌then◌else◌}
use alertme.Store.Fake.{row}

pub row-insert {ℓ} :
    {V : Type ℓ} (k j : String) (l : List V) (m : Map (List V))
    → row j (insert k l m) ≡ (if str_eq k j then l else row j m)
unfolding row
row-insert k j l m = ground (arith, lookup-insert k j l m)
