-- ===== src/Dynamo/Table.antt =====
-- The two libraries that backend/internal/store/dynamo calls, as a parameter: DynamoDB's client and
-- the marshalling of structs by `attributevalue`; and the helpers of store.go over them.
use alertme.Prelude.{
  ℕ, String, Bool, true, false, ⊤, Option, none, some, List, [], ◌∷◌, str_eq, if◌then◌else◌, Map,
}
use alertme.Int.{ℤ}
use alertme.Model.{PageState, state_name}
use alertme.Store.{Err, Result, ok, err, not_found, other}
use alertme.Dynamo.Items.{Value, text, Field}

abbrev pub Item : Type 0
Item = Map Value

-- A condition expression, with the names and values of its placeholders filled in.
pub data Condition : Type 0 where
  attribute_exists attribute_not_exists : String → Condition
  greater : String → ℤ → Condition
  one_of : String → List Value → Condition
  both : Condition → Condition → Condition

-- The items of a transaction.
pub data Write : Type 0 where
  delete_if : String → String → Condition → Write
  put_if : Item → Condition → Write
  put : Item → Write

-- `ConditionalCheckFailedException`, `TransactionCanceledException` with the codes of its reasons, and
-- any other failure.
pub data DbErr : Type 0 where
  condition_failed : DbErr
  transaction_canceled : List (Option String) → DbErr
  unavailable : DbErr

pub data DbResult (A : Type 0) : Type 0 where
  done : A → DbResult A
  failed : DbErr → DbResult A

-- The page indexes by recipient and by sender.
pub data Index : Type 0 where
  gsi1 gsi2 : Index

pub record Table : Type 1 where
  pub State : Type 0
  pub marshal_map : List Field → Option Item
  -- an item read into a struct, whose fields come with the values that they have before
  pub unmarshal_map : Item → List Field → Option (List Field)
  pub get_item : String → String → State → DbResult (Option Item) × State
  pub put_item : Item → State → DbResult ⊤ × State
  pub delete_item : String → String → State → DbResult ⊤ × State
  -- `SET` of some attributes under a condition
  pub update_item : String → String → Map Value → Condition → State → DbResult ⊤ × State
  -- the items of a partition whose sort key begins with a prefix
  pub query : String → String → State → DbResult (List Item) × State
  -- at most so many of an index's partition, from the last sort key downwards, all above a bound if
  -- there is one
  pub query_index : Index → String → Option String → ℕ → State → DbResult (List Item) × State
  pub transact_write : List Write → State → DbResult ⊤ × State

-- `isConditionFailure`
unfoldable pub is_condition_failure : DbErr → Bool
is_condition_failure condition_failed = true
is_condition_failure (transaction_canceled codes) = false
is_condition_failure unavailable = false

abbrev is_failed_check : Option String → Bool
is_failed_check none = false
is_failed_check (some code) = str_eq code "ConditionalCheckFailed"

unfoldable pub any_failed_check : List (Option String) → Bool
any_failed_check [] = false
any_failed_check (code ∷ codes) =
    let rest = any_failed_check codes in if is_failed_check code then true else rest

-- `isTransactConditionFailure`
unfoldable pub is_transact_condition_failure : DbErr → Bool
unfolding any_failed_check
is_transact_condition_failure condition_failed = false
is_transact_condition_failure (transaction_canceled codes) = any_failed_check codes
is_transact_condition_failure unavailable = false

abbrev pub states : List PageState → List Value
states [] = []
states (st ∷ sts) = text (state_name st) ∷ states sts

-- `stateInCondition`
unfoldable pub state_in_condition : String → List PageState → Condition
state_in_condition attr from = one_of attr (states from)

-- A method of the store on a table: the calls that it makes in turn, up to the first error.
abbrev pub Method : Type 0 → Type 0 → Type 0
Method S A = S → Result A × S

abbrev pub return : {S A : Type 0} → Result A → Method S A
return r s = (r, s)

abbrev pub go_on : {S A B : Type 0} → (A → Method S B) → Result A × S → Result B × S
go_on f (ok a, s) = f a s
go_on f (err e, s) = (err e, s)

infixl 5 ◌>>=◌
abbrev pub ◌>>=◌ : {S A B : Type 0} → Method S A → (A → Method S B) → Method S B
◌>>=◌ m f s = go_on f (m s)

abbrev pub answered : {S A : Type 0} → (DbErr → Err) → DbResult A × S → Result A × S
answered f (done a, s) = (ok a, s)
answered f (failed e, s) = (err (f e), s)

-- A call, whose error becomes one of the store's.
abbrev pub db_call : {S A : Type 0} → (DbErr → Err) → (S → DbResult A × S) → Method S A
db_call f c s = answered f (c s)

module _ (t : Table) where
  abbrev pub marshalled : List Field → Result Item
  marshalled r = elim (t.marshal_map r) [ none ↦ err other | some item ↦ ok item ]

  -- `UnmarshalMap` into a new struct, then `toModel`.
  abbrev pub decoded : {A : Type 0} → List Field → (List Field → Result A) → Item → Result A
  decoded rec to_model item = elim (t.unmarshal_map item rec) [
    | none ↦ err other
    | some r ↦ to_model r
  ]

  -- The same for an item that may be missing.
  abbrev pub found : {A : Type 0} → List Field → (List Field → Result A) → Option Item → Result A
  found rec to_model none = err not_found
  found rec to_model (some item) = decoded rec to_model item

  -- The loop over `out.Items`: the first item that cannot be read is the error.
  unfoldable pub decode_all :
      {A : Type 0} → List Field → (List Field → Result A) → List Item → Result (List A)
  decode_all rec to_model [] = ok []
  decode_all rec to_model (item ∷ items) =
      let rest = decode_all rec to_model items in
      elim (decoded rec to_model item) [
        | err e ↦ err e
        | ok a ↦ elim rest [ err e ↦ err e | ok tail ↦ ok (a ∷ tail) ]
      ]

-- An error that is wrapped by `fmt.Errorf` and nothing else.
abbrev pub wrapped : DbErr → Err
wrapped e = other

abbrev pub failed_check_as : Err → (DbErr → Bool) → DbErr → Err
failed_check_as e is_check d = if is_check d then e else other
