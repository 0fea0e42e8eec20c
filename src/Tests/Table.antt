-- ===== src/Tests/Table.antt =====
-- A table in memory that keeps the laws of DynamoDB's, and a layout for times.
use Prim.Native.Char.{code}
use alertme.Prelude.{
  ℕ, zero, suc, String, Bool, true, false, ◌&&◌, ◌≡◌, ◌≢◌, inl, inr, refl, sym, ap, subst, Option,
  none, some, ⊤, List, [], ◌∷◌, ◌==◌, str_eq, eq_refl, eq_iff, if◌then◌else◌, Map, lookup, insert,
  lookup-insert, Bool-cases, arith,
}
use alertme.Int.{pos, negsuc}
use alertme.Model.{Time}
use alertme.Dynamo.Keys.{TimeFormat}
use alertme.Dynamo.Items.{Value, text, number, Field}
use alertme.Dynamo.Items.RoundTrip.{IsTimeFormat}
use alertme.Dynamo.Table.{
  Item, Write, condition_failed, transaction_canceled, unavailable, done, failed, Table,
  any_failed_check,
}
use alertme.Dynamo.Laws.{
  View, is_zero, zero_of, blank, Reads, Shows, tagged, has_distinct_tags, holds, put_at, overlaid,
  all_allowed, all_valid, written, has_distinct_keys, is_valid, TableLaws,
}

-- Times as tallies.
abbrev tally : ℕ → String
tally zero = "Z"
tally (suc n) = String.◌∷◌ "t" (tally n)

abbrev untally : String → Option Time
untally (String.◌∷◌ c s) = if code c == b't' then next (untally s) else some 0
  where
    next : Option Time → Option Time
    next none = none
    next (some n) = some (suc n)
untally s = none

abbrev pub tallies : TimeFormat
tallies = record { rfc3339 = tally; rfc3339_nano = tally; parse_nano = untally }

untally-tally : (n : Time) → untally (tally n) ≡ some n
untally-tally zero = refl
untally-tally (suc n) = rw (untally-tally n) refl

abbrev is_nil : String → Bool
is_nil (String.◌∷◌ c s) = false
is_nil s = true

tally-ne-nil : (n : Time) → tally n ≢ ""
tally-ne-nil zero e = cc
tally-ne-nil (suc n) e = let h = ap is_nil e in cc

pub tallies-IsTimeFormat : IsTimeFormat tallies
tallies-IsTimeFormat = record {
  parse-format = λ t h. untally-tally t;
  format-ne-nil = tally-ne-nil;
}

-- Reading and writing structs.
abbrev left_out : Field → Bool
left_out f = f.omit_empty && is_zero f.value

unfoldable pub marshal : List Field → Item
marshal [] = []
marshal (f ∷ fs) = let rest = marshal fs in if left_out f then rest else insert f.tag f.value rest

unfoldable pub unmarshal : Item → List Field → List Field
unmarshal it [] = []
unmarshal it (f ∷ fs) = record f { value = filled (lookup f.tag it) f.value } ∷ unmarshal it fs
  where
    filled : Option Value → Value → Value
    filled none old = old
    filled (some new) old = new

zero_of-zero : (v : Value) → is_zero v ≡ true → zero_of v ≡ v
zero_of-zero (text s) h = ap text (sym ((eq_iff s "").0 h))
zero_of-zero (number (pos n)) h = ap (λ k. number (pos k)) (ground arith)
zero_of-zero (number (negsuc n)) h = cc

pub unmarshal-blank : (it : Item) (fs : List Field) → Shows it fs → unmarshal it (blank fs) ≡ fs
unfolding unmarshal blank Shows
unmarshal-blank it [] h = refl
unmarshal-blank it (f ∷ fs) (inl a, hs) = rw (a, unmarshal-blank it fs hs) refl
unmarshal-blank it (f ∷ fs) (inr (a, (b, c)), hs) =
    rw (a, zero_of-zero f.value c, unmarshal-blank it fs hs) refl

Reads-insert :
    (tag : String) (v : Value) (it : Item) (g : Field)
    → str_eq g.tag tag ≡ false
    → Reads it g
    → Reads (insert tag v it) g
Reads-insert tag v it g other h = elim h [
  | inl a ↦ inl (rw (lookup-insert, other_way tag g.tag other) a)
  | inr (a, b) ↦ inr (rw (lookup-insert, other_way tag g.tag other) a, b)
]
  where
    other_way : (a b : String) → str_eq b a ≡ false → str_eq a b ≡ false
    other_way a b h = ground (arith, eq_iff a b, eq_iff b a)

Shows-insert :
    (tag : String) (v : Value) (it : Item) (gs : List Field)
    → tagged tag gs ≡ false
    → Shows it gs
    → Shows (insert tag v it) gs
unfolding Shows
Shows-insert tag v it [] h s = tt
Shows-insert tag v it (g ∷ gs) h (s, ss) =
    (Reads-insert tag v it g (ground arith) s, Shows-insert tag v it gs (ground arith) ss)

marshal-absent :
    (tag : String) (fs : List Field) → tagged tag fs ≡ false → lookup tag (marshal fs) ≡ none
unfolding marshal lookup
marshal-absent tag [] h = refl
marshal-absent tag (f ∷ fs) h =
    let rest = marshal-absent tag fs in
    ground (arith, rest, lookup-insert f.tag tag f.value (marshal fs))

marshal-out : (f : Field) (fs : List Field) → left_out f ≡ true → marshal (f ∷ fs) ≡ marshal fs
unfolding marshal
marshal-out f fs h = rw h refl

marshal-in :
    (f : Field) (fs : List Field)
    → left_out f ≡ false
    → marshal (f ∷ fs) ≡ insert f.tag f.value (marshal fs)
unfolding marshal
marshal-in f fs h = rw h refl

pub marshal-Shows : (fs : List Field) → has_distinct_tags fs ≡ true → Shows (marshal fs) fs
unfolding has_distinct_tags Shows
marshal-Shows [] h = tt
marshal-Shows (f ∷ fs) h =
    let rest = marshal-Shows fs (ground arith) in
    let new = marshal-absent f.tag fs (ground arith) in
    elim (Bool-cases (left_out f)) [
      | inl a ↦
          subst (λ it. Shows it (f ∷ fs)) (sym (marshal-out f fs a))
            (inr (new, (ground arith, ground arith)), rest)
      | inr a ↦
          subst (λ it. Shows it (f ∷ fs)) (sym (marshal-in f fs a))
            (
              inl (rw (lookup-insert, eq_refl f.tag) refl),
              Shows-insert f.tag f.value (marshal fs) fs (ground arith) rest,
            )
    ]

-- The table.
abbrev pub is_reserved : String → Bool
is_reserved word = str_eq word "ttl"

pub both_tests : (a b : Bool) → b ≡ false → a && b ≡ false
both_tests true b h = h
both_tests false b h = refl

abbrev set_attributes : Map Value → Item → Item
set_attributes [] it = it
set_attributes ((tag, v) ∷ attrs) it = (tag, v) ∷ set_attributes attrs it

abbrev item_or_new : Option Item → Item
item_or_new none = []
item_or_new (some it) = it

abbrev pub memory : Table
memory = record {
  State = View;
  marshal_map = λ fs. some (marshal fs);
  unmarshal_map = λ it fs. some (unmarshal it fs);
  get_item = λ pk sk v. (done (v pk sk), v);
  put_item = λ it v. (done tt, written (Write.put it ∷ []) v);
  delete_item = λ pk sk v. (done tt, put_at pk sk none v);
  update_item = λ pk sk attrs c v.
      if is_valid is_reserved c && holds c (v pk sk)
      then (done tt, put_at pk sk (some (set_attributes attrs (item_or_new (v pk sk)))) v)
      else (failed condition_failed, v);
  query = λ pk prefix v. (failed unavailable, v);
  query_index = λ index pk bound limit v. (failed unavailable, v);
  transact_write = λ ws v.
      if has_distinct_keys ws && all_valid is_reserved ws
      then if all_allowed ws v
        then (done tt, written ws v)
        else (failed (transaction_canceled (some "ConditionalCheckFailed" ∷ [])), v)
      else (failed unavailable, v);
}

pub lookup-set_attributes :
    (attrs : Map Value) (tag : String) (it : Item)
    → lookup tag (set_attributes attrs it) ≡ overlaid attrs tag it
unfolding lookup
lookup-set_attributes [] tag it = refl
lookup-set_attributes ((k, v) ∷ attrs) tag it = elim (Bool-cases (str_eq k tag)) [
  | inl a ↦ rw a refl
  | inr a ↦ rw a (lookup-set_attributes attrs tag it)
]

unfoldable pub memory_laws : TableLaws memory
unfolding any_failed_check written
memory_laws = record {
  view = λ v. v;
  reserved = is_reserved;
  pk_free = refl;
  readable = λ v pk sk. ⊤;
  key_fits = λ pk sk. ⊤;
  item_fits = λ left. ⊤;
  update_fits = λ attrs c. ⊤;
  transaction_fits = λ ws. ⊤;
  marshal = λ fs h. (marshal fs, (refl, marshal-Shows fs h));
  unmarshal = λ it fs h s. rw (unmarshal-blank it fs s) refl;
  get = λ pk sk v k c. refl;
  put_lem = λ it pk sk v (a, b) k i. (put_at pk sk (some it) v, (rw (a, b) refl, λ p k. refl));
  delete_lem = λ pk sk v k. (_, (refl, λ p k. refl));
  update = λ pk sk attrs c it v k u i valid here met. (
    set_attributes attrs it,
    (
      λ tag. lookup-set_attributes attrs tag it,
      (put_at pk sk (some (set_attributes attrs it)) v, (rw (valid, here, met) refl, λ p k. refl)),
    ),
  );
  refuse = λ pk sk attrs c v k u valid unmet. rw (valid, unmet) refl;
  transact = λ ws v fits distinct valid allowed.
      (written ws v, (rw (distinct, valid, allowed) refl, λ p k. refl));
  cancel = λ ws v fits distinct valid refused.
      (some "ConditionalCheckFailed" ∷ [], (rw (distinct, valid, refused) refl, refl));
  repeated = λ ws v twice. rw twice refl;
  invalid =
      λ ws v wrong. rw (both_tests (has_distinct_keys ws) (all_valid is_reserved ws) wrong) refl;
}
