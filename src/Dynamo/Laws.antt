-- ===== src/Dynamo/Laws.antt =====
-- What DynamoDB and `attributevalue` document of the calls that
-- backend/internal/store/dynamo/store.go makes: an item per key, conditions that are tested before a
-- write, transactions that write all or nothing. A read is eventually consistent, and a call may be
-- past the service's limits: the laws are of reads that find the last write, and of calls within the
-- limits. Throttling, outages and conflicts with the calls of others are left out.
use alertme.Prelude.{
  String, Bool, true, false, not, ◌&&◌, ◌≡◌, ◌⊎◌, ⊤, Option, none, some, List, [], ◌∷◌, str_eq,
  ◌==◌, if◌then◌else◌, Map, lookup,
}
use alertme.Int.{ℤ, pos, negsuc, leb_ℤ}
use alertme.Dynamo.Items.{Value, text, number, Field}
use alertme.Dynamo.Table.{
  Item, Condition, attribute_exists, attribute_not_exists, greater, one_of, both, Write, delete_if,
  put_if, put, condition_failed, transaction_canceled, unavailable, DbResult, done, failed, Table,
  any_failed_check,
}

-- The items by partition key and sort key.
abbrev pub View : Type 0
View = String → String → Option Item

abbrev pub is_zero : Value → Bool
is_zero (text s) = str_eq s ""
is_zero (number (pos n)) = n == 0
is_zero (number (negsuc n)) = false

-- The fields of a struct with zero values.
abbrev pub zero_of : Value → Value
zero_of (text s) = text ""
zero_of (number n) = number (pos 0)

unfoldable pub blank : List Field → List Field
blank [] = []
blank (f ∷ fs) = record f { value = zero_of f.value } ∷ blank fs

-- An item shows a field that it holds, or that it leaves out because it is zero and `omitempty`.
abbrev pub Reads : Item → Field → Type 0
Reads it f =
    (lookup f.tag it ≡ some f.value)
    ⊎ ((lookup f.tag it ≡ none) × ((f.omit_empty ≡ true) × (is_zero f.value ≡ true)))

unfoldable pub Shows : Item → List Field → Type 0
Shows it [] = ⊤
Shows it (f ∷ fs) = Reads it f × Shows it fs

abbrev pub tagged : String → List Field → Bool
tagged tag [] = false
tagged tag (f ∷ fs) = let rest = tagged tag fs in if str_eq f.tag tag then true else rest

unfoldable pub has_distinct_tags : List Field → Bool
has_distinct_tags [] = true
has_distinct_tags (f ∷ fs) = not (tagged f.tag fs) && has_distinct_tags fs

abbrev eq_ℤ : ℤ → ℤ → Bool
eq_ℤ a b = leb_ℤ a b && leb_ℤ b a

abbrev pub eq_value : Value → Value → Bool
eq_value (text a) (text b) = str_eq a b
eq_value (text a) (number b) = false
eq_value (number a) (text b) = false
eq_value (number a) (number b) = eq_ℤ a b

unfoldable pub is_one_of : Value → List Value → Bool
is_one_of v [] = false
is_one_of v (w ∷ ws) = let rest = is_one_of v ws in if eq_value v w then true else rest

abbrev exists : Option Value → Bool
exists none = false
exists (some v) = true

abbrev above : Option Value → ℤ → Bool
above none n = false
above (some (text s)) n = false
above (some (number m)) n = not (leb_ℤ m n)

abbrev among : Option Value → List Value → Bool
among none vs = false
among (some v) vs = is_one_of v vs

-- The attribute of an item that may be missing.
abbrev pub attribute : String → Option Item → Option Value
attribute tag none = none
attribute tag (some it) = lookup tag it

unfoldable pub holds : Condition → Option Item → Bool
holds (attribute_exists tag) o = exists (attribute tag o)
holds (attribute_not_exists tag) o = not (exists (attribute tag o))
holds (greater tag n) o = above (attribute tag o) n
holds (one_of tag vs) o = among (attribute tag o) vs
holds (both c d) o = holds c o && holds d o

-- An expression may not name a reserved word without an alias, and `IN` takes a list that is not
-- empty. The code has an alias for the attribute of `IN`, and for no other attribute of a condition.
unfoldable pub is_valid : (String → Bool) → Condition → Bool
is_valid reserved (attribute_exists tag) = not (reserved tag)
is_valid reserved (attribute_not_exists tag) = not (reserved tag)
is_valid reserved (greater tag n) = not (reserved tag)
is_valid reserved (one_of tag []) = false
is_valid reserved (one_of tag (v ∷ vs)) = true
is_valid reserved (both c d) = is_valid reserved c && is_valid reserved d

unfoldable pub put_at : String → String → Option Item → View → View
put_at pk sk o v p k = if str_eq p pk && str_eq k sk then o else v p k

-- The attributes of an item after `SET`.
abbrev chosen : Option Value → Option Value → Option Value
chosen none old = old
chosen (some new) old = some new

abbrev pub overlaid : Map Value → String → Item → Option Value
overlaid attrs tag it = chosen (lookup tag attrs) (lookup tag it)

-- A key attribute is a text.
abbrev as_key : Option Value → String
as_key none = ""
as_key (some (text s)) = s
as_key (some (number n)) = ""

abbrev pub key_of : Write → String × String
key_of (delete_if pk sk c) = (pk, sk)
key_of (put_if it c) = (as_key (lookup "PK" it), as_key (lookup "SK" it))
key_of (put it) = (as_key (lookup "PK" it), as_key (lookup "SK" it))

abbrev pub allowed_at : Write → Option Item → Bool
allowed_at (delete_if pk sk c) o = holds c o
allowed_at (put_if it c) o = holds c o
allowed_at (put it) o = true

abbrev pub left_at : Write → Option Item
left_at (delete_if pk sk c) = none
left_at (put_if it c) = some it
left_at (put it) = some it

abbrev valid_at : (String → Bool) → Write → Bool
valid_at reserved (delete_if pk sk c) = is_valid reserved c
valid_at reserved (put_if it c) = is_valid reserved c
valid_at reserved (put it) = true

unfoldable pub all_valid : (String → Bool) → List Write → Bool
unfolding is_valid
all_valid reserved [] = true
all_valid reserved (w ∷ ws) = let rest = all_valid reserved ws in valid_at reserved w && rest

unfoldable pub all_allowed : List Write → View → Bool
all_allowed [] v = true
all_allowed (w ∷ ws) v =
    let rest = all_allowed ws v in allowed_at w (v (key_of w).0 (key_of w).1) && rest

unfoldable pub written : List Write → View → View
written [] v = v
written (w ∷ ws) v = written ws (put_at (key_of w).0 (key_of w).1 (left_at w) v)

abbrev same_key : String × String → String × String → Bool
same_key (a, b) (c, d) = str_eq a c && str_eq b d

unfoldable pub names_key : String × String → List Write → Bool
names_key k [] = false
names_key k (w ∷ ws) = let rest = names_key k ws in if same_key (key_of w) k then true else rest

unfoldable pub has_distinct_keys : List Write → Bool
has_distinct_keys [] = true
has_distinct_keys (w ∷ ws) =
    let rest = has_distinct_keys ws in not (names_key (key_of w) ws) && rest

abbrev HasKey : String → String → Item → Type 0
HasKey pk sk it = (lookup "PK" it ≡ some (text pk)) × (lookup "SK" it ≡ some (text sk))

-- An item or an update, by what it leaves in each attribute.
abbrev pub Attributes : Type 0
Attributes = String → Option Value

abbrev pub attributes : Item → Attributes
attributes it tag = lookup tag it

-- The state after a call, by what can be read of it.
abbrev pub Wrote : (t : Table) → (t.State → View) → DbResult ⊤ × t.State → View → Type 0
Wrote t view m v =
    (s : t.State) × ((m ≡ (done tt, s)) × ((pk sk : String) → view s pk sk ≡ v pk sk))

-- What the service documents, with the limits and the consistency of a read as predicates.
pub record TableLaws (t : Table) : Type 1 where
  pub view : t.State → View
  -- the reserved words
  pub reserved : String → Bool
  pub pk_free : reserved "PK" ≡ false
  -- a read of this key, at this state, is of a replica that has its last write
  pub readable : t.State → String → String → Type 0
  -- the keys, items, expressions and transactions within the limits of the service
  pub key_fits : String → String → Type 0
  pub item_fits : Attributes → Type 0
  pub update_fits : Map Value → Condition → Type 0
  pub transaction_fits : List Write → Type 0
  pub marshal :
      (fs : List Field)
      → has_distinct_tags fs ≡ true
      → (it : Item) × ((t.marshal_map fs ≡ some it) × Shows it fs)
  pub unmarshal :
      (it : Item) (fs : List Field)
      → has_distinct_tags fs ≡ true
      → Shows it fs
      → t.unmarshal_map it (blank fs) ≡ some fs
  pub get :
      (pk sk : String) (s : t.State)
      → key_fits pk sk
      → readable s pk sk
      → t.get_item pk sk s ≡ (done (view s pk sk), s)
  pub put_lem :
      (it : Item) (pk sk : String) (s : t.State)
      → HasKey pk sk it
      → key_fits pk sk
      → item_fits (attributes it)
      → Wrote t view (t.put_item it s) (put_at pk sk (some it) (view s))
  pub delete_lem :
      (pk sk : String) (s : t.State)
      → key_fits pk sk
      → Wrote t view (t.delete_item pk sk s) (put_at pk sk none (view s))
  pub update :
      (pk sk : String) (attrs : Map Value) (c : Condition) (it : Item) (s : t.State)
      → key_fits pk sk
      → update_fits attrs c
      → item_fits (λ tag. overlaid attrs tag it)
      → is_valid reserved c ≡ true
      → view s pk sk ≡ some it
      → holds c (some it) ≡ true
      → (new : Item) × (((tag : String) → lookup tag new ≡ overlaid attrs tag it)
          × Wrote t view (t.update_item pk sk attrs c s) (put_at pk sk (some new) (view s)))
  pub refuse :
      (pk sk : String) (attrs : Map Value) (c : Condition) (s : t.State)
      → key_fits pk sk
      → update_fits attrs c
      → is_valid reserved c ≡ true
      → holds c (view s pk sk) ≡ false
      → t.update_item pk sk attrs c s ≡ (failed condition_failed, s)
  pub transact :
      (ws : List Write) (s : t.State)
      → transaction_fits ws
      → has_distinct_keys ws ≡ true
      → all_valid reserved ws ≡ true
      → all_allowed ws (view s) ≡ true
      → Wrote t view (t.transact_write ws s) (written ws (view s))
  pub cancel :
      (ws : List Write) (s : t.State)
      → transaction_fits ws
      → has_distinct_keys ws ≡ true
      → all_valid reserved ws ≡ true
      → all_allowed ws (view s) ≡ false
      → (codes : List (Option String)) × ((t.transact_write ws s
            ≡ (failed (transaction_canceled codes), s))
          × (any_failed_check codes ≡ true))
  -- A transaction may not name an item twice.
  pub repeated :
      (ws : List Write) (s : t.State)
      → has_distinct_keys ws ≡ false
      → t.transact_write ws s ≡ (failed unavailable, s)
  pub invalid :
      (ws : List Write) (s : t.State)
      → all_valid reserved ws ≡ false
      → t.transact_write ws s ≡ (failed unavailable, s)
