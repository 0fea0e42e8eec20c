-- ===== src/Dynamo/Refinement/Pages/Moves.antt =====
-- `AckPage` and `SetPageState` in both stores.
use alertme.Prelude.{
  String, Bool, true, false, ◌≡◌, ◌≢◌, refl, sym, ◌∙◌, ap, ⊤, none, some, List, [], ◌∷◌, Map,
  lookup, insert, lookup-insert, eq_refl, ne-eq_false, Option-cases, Bool-cases, inl, inr,
}
use alertme.Int.{ℤ}
use alertme.Model.{
  Time, Page, PageState, created, pushed, delivered, seen, acked, expired, cancelled, state_name,
  state_eq, is_active,
}
use alertme.Store.{Result, ok, err, not_found, conflict, other}
use alertme.Store.Fake
use alertme.Store.Fake.{Store, allowed}
use alertme.Dynamo.Keys.{TimeFormat, page_pk, sk_meta}
use alertme.Dynamo.Items.{Value, text, number, fmt_time, new_page_record}
use alertme.Dynamo.Table.{
  Item, Table, db_call, failed_check_as, is_condition_failure, states, state_in_condition,
}
use alertme.Dynamo.Entities.{Entity, user, device, pairing, invite, page, guard}
use alertme.Dynamo.Laws.{TableLaws, Shows, holds, is_valid, is_one_of}
use alertme.Dynamo.Pages
use alertme.Dynamo.Pages.{active_states}
use alertme.Dynamo.Refinement.{Represents, record_of}
use alertme.Dynamo.Refinement.Calls.{Simulates, kept}
use alertme.Dynamo.Refinement.Updates.{
  set_fields, FitsUpdate, update-Simulates, refuse-Simulates, no_item, found_item,
}

-- `ErrNotFound` of the in-memory store is `ErrConflict` here.
abbrev pub conflicting : {A S : Type 0} → Result A × S → Result A × S
conflicting (ok a, s) = (ok a, s)
conflicting (err not_found, s) = (err conflict, s)
conflicting (err conflict, s) = (err conflict, s)
conflicting (err other, s) = (err other, s)

is_one_of-states :
    (st : PageState) (from : List PageState)
    → is_one_of (text (state_name st)) (states from) ≡ allowed st from
unfolding is_one_of allowed state_eq
is_one_of-states st [] = refl
is_one_of-states st (f ∷ from) = rw (is_one_of-states st from) refl

state_in_condition-valid :
    (reserved : String → Bool) (st : PageState) (from : List PageState)
    → is_valid reserved (state_in_condition "state" (st ∷ from)) ≡ true
unfolding is_valid state_in_condition
state_in_condition-valid reserved st from = refl

-- What `AckPage` and `SetPageState` set.
abbrev pub ack_fields : TimeFormat → String → Time → Map Value
ack_fields tf note at =
    ("state", text (state_name acked))
    ∷ ("acked_at", text (fmt_time tf at))
    ∷ ("ack_note", text note)
    ∷ []

abbrev pub state_fields : PageState → ℤ → Map Value
state_fields to attempt = ("state", text (state_name to)) ∷ ("attempt", number attempt) ∷ []

allowed-active_states : (st : PageState) → allowed st active_states ≡ is_active st
unfolding allowed state_eq state_name is_active
allowed-active_states created = refl
allowed-active_states pushed = refl
allowed-active_states delivered = refl
allowed-active_states seen = refl
allowed-active_states acked = refl
allowed-active_states expired = refl
allowed-active_states cancelled = refl

abbrev with_changed : Page → String → Store → Store
with_changed q id s = record s { pages = insert id q s.pages }

page-frame :
    (tf : TimeFormat) (q : Page) (id : String) (s : Store) (e : Entity)
    → e ≢ page id
    → record_of tf (with_changed q id s) e ≡ record_of tf s e
unfolding record_of
page-frame tf q id s (user a) h = refl
page-frame tf q id s (device a b) h = refl
page-frame tf q id s (pairing a b) h = refl
page-frame tf q id s (invite c) h = refl
page-frame tf q id s (page j) h =
    rw (lookup-insert, ne-eq_false id j (λ e. h (ap page (sym e)))) refl
page-frame tf q id s (guard k) h = refl

page-record_of :
    (tf : TimeFormat) (q : Page) (id : String) (s : Store)
    → record_of tf (with_changed q id s) (page id) ≡ some (new_page_record tf q)
unfolding record_of
page-record_of tf q id s = rw (lookup-insert, eq_refl id) refl

module _ (tf : TimeFormat) (t : Table) (laws : TableLaws t) where
  -- What the condition says of a page's item.
  in_state :
      (it : Item) (p : Page) (from : List PageState)
      → Shows it (new_page_record tf p)
      → holds (state_in_condition "state" from) (some it) ≡ allowed p.state from
  unfolding Shows new_page_record holds state_in_condition
  in_state it p from (a, (b, (c, (d, (e, (f, (g, h))))))) =
      rw (kept t laws it "state" (text (state_name p.state)) g) (is_one_of-states p.state from)

  -- An update of a page under a condition on its state.
  module _ (id : String) (attrs : Map Value) (st : PageState) (from : List PageState) (x : t.State)
      (s : Store)
      (fit : FitsUpdate t laws tf x
        (page_pk id)
        sk_meta
        attrs
        (state_in_condition "state" (st ∷ from)))
      (r : Represents tf (laws.view x) s) where
    abbrev attempted : Result ⊤ × t.State
    attempted =
        db_call (failed_check_as conflict is_condition_failure)
          (t.update_item (page_pk id) sk_meta attrs (state_in_condition "state" (st ∷ from))) x

    absent : lookup id s.pages ≡ none → Simulates t laws tf attempted (err conflict, s)
    unfolding state_in_condition is_valid holds is_condition_failure record_of
    absent e =
        refuse-Simulates t laws tf (page id) attrs (state_in_condition "state" (st ∷ from))
          (failed_check_as conflict is_condition_failure) x s fit refl
          (rw (no_item t laws tf (page id) x s r (rw e refl)) refl) r

    barred_by :
        (p : Page)
        → lookup id s.pages ≡ some p
        → allowed p.state (st ∷ from) ≡ false
        → Simulates t laws tf attempted (err conflict, s)
    unfolding is_condition_failure record_of
    barred_by p e out =
        let (it, (here, shown)) =
          found_item t laws tf (page id) x s (new_page_record tf p) r (rw e refl) in
        refuse-Simulates t laws tf (page id) attrs (state_in_condition "state" (st ∷ from))
          (failed_check_as conflict is_condition_failure) x s fit
          (state_in_condition-valid laws.reserved st from)
          (rw (here, in_state it p (st ∷ from) shown) out) r

    let_by :
        (p q : Page)
        → lookup id s.pages ≡ some p
        → allowed p.state (st ∷ from) ≡ true
        → set_fields attrs (new_page_record tf p) ≡ new_page_record tf q
        → Simulates t laws tf attempted (ok tt, with_changed q id s)
    unfolding record_of
    let_by p q e within same =
        update-Simulates t laws tf (page id) attrs (state_in_condition "state" (st ∷ from))
          (failed_check_as conflict is_condition_failure) (new_page_record tf p) x s
          (with_changed q id s) fit (rw e refl) (page-record_of tf q id s ∙ ap some (sym same))
          (page-frame tf q id s) (state_in_condition-valid laws.reserved st from)
          (λ it shown. in_state it p (st ∷ from) shown ∙ within) r

  ack-fields :
      (p : Page) (note : String) (at : Time)
      → set_fields (ack_fields tf note at) (new_page_record tf p)
        ≡ new_page_record tf (Fake.ack note at p)
  unfolding set_fields new_page_record lookup Fake.ack fmt_time
  ack-fields p note at = refl

  moved-fields :
      (p : Page) (to : PageState) (attempt : ℤ)
      → set_fields (state_fields to attempt) (new_page_record tf p)
        ≡ new_page_record tf (Fake.moved to attempt p)
  unfolding set_fields new_page_record lookup Fake.moved
  moved-fields p to attempt = refl

  pub ack_page-Simulates :
      (id note : String) (at : Time) (x : t.State) (s : Store)
      → FitsUpdate t laws tf x
          (page_pk id)
          sk_meta
          (ack_fields tf note at)
          (state_in_condition "state" active_states)
      → Represents tf (laws.view x) s
      → Simulates t laws tf
          (Pages.ack_page tf t id note at x)
          (conflicting (Fake.ack_page id note at s))
  unfolding Pages.ack_page Fake.ack_page
  ack_page-Simulates id note at x s fit r = elim (Option-cases (lookup id s.pages)) [
    | inl e ↦ rw e (absent id _ created _ x s fit r e)
    | inr (p, e) ↦ elim (Bool-cases (is_active p.state)) [
      | inl a ↦
          rw (e, a)
            (let_by id _ created _ x s fit r p (Fake.ack note at p) e
              (allowed-active_states p.state ∙ a) (ack-fields p note at))
      | inr a ↦
          rw (e, a) (barred_by id _ created _ x s fit r p e (allowed-active_states p.state ∙ a))
    ]
  ]

  pub set_page_state-Simulates :
      (id : String) (st : PageState) (from : List PageState) (to : PageState) (attempt : ℤ)
      (x : t.State) (s : Store)
      → FitsUpdate t laws tf x
          (page_pk id)
          sk_meta
          (state_fields to attempt)
          (state_in_condition "state" (st ∷ from))
      → Represents tf (laws.view x) s
      → Simulates t laws tf
          (Pages.set_page_state tf t id (st ∷ from) to attempt x)
          (conflicting (Fake.set_page_state id (st ∷ from) to attempt s))
  unfolding Pages.set_page_state Fake.set_page_state
  set_page_state-Simulates id st from to attempt x s fit r =
      elim (Option-cases (lookup id s.pages)) [
        | inl e ↦ rw e (absent id _ st from x s fit r e)
        | inr (p, e) ↦ elim (Bool-cases (allowed p.state (st ∷ from))) [
          | inl a ↦
              rw (e, a)
                (let_by id _ st from x s fit r p (Fake.moved to attempt p) e a
                  (moved-fields p to attempt))
          | inr a ↦ rw (e, a) (barred_by id _ st from x s fit r p e a)
        ]
      ]
