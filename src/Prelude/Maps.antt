-- ===== src/Prelude/Maps.antt =====
-- Go's `map[string]V` as an association list. Reading a nil map and deleting from it behave as on
-- an empty map. Go ranges over a map in an unspecified order; here it is the order of the list.
use Prim.Native.String.{String}
use mathlib.Core.Path.{◌≡◌, refl}
use mathlib.Core.Logic.{◌≢◌}
use mathlib.Core.Bool.{false}
use mathlib.Core.Option.{Option, none, some}
use mathlib.Core.List.{List, [], ◌∷◌}
use native.Mathlib.Omega.{arith}
use text.Mathlib.Text.{◌==◌}
use text.Mathlib.TextEquality.{eq_iff}
use text.Mathlib.TextPositions.{eq_refl}
use alertme.Prelude.Tests.{if◌then◌else◌}

abbrev pub Map {ℓ} : Type ℓ → Type ℓ
Map V = List (String × V)

module _ {ℓ} {V : Type ℓ} where
  -- `v, ok := m[k]`
  unfoldable pub lookup : String → Map V → Option V
  lookup asked [] = none
  lookup asked ((key, val) ∷ rest) = if key == asked then some val else lookup asked rest

  -- `m[k] = v`
  unfoldable pub insert : String → V → Map V → Map V
  insert key new [] = (key, new) ∷ []
  insert key new ((held, old) ∷ rest) =
      if held == key then (held, new) ∷ rest else (held, old) ∷ insert key new rest

  -- `delete(m, k)`
  unfoldable pub delete : String → Map V → Map V
  delete key [] = []
  delete key ((held, old) ∷ entries) =
      let rest = delete key entries in if held == key then rest else (held, old) ∷ rest

  -- the values, as `for _, v := range m` visits them
  unfoldable pub values : Map V → List V
  values [] = []
  values ((key, val) ∷ rest) = val ∷ values rest

  pub lookup-insert :
      (key asked : String) (new : V) (m : Map V)
      → lookup asked (insert key new m) ≡ (if key == asked then some new else lookup asked m)
  unfolding insert lookup
  lookup-insert key asked new [] = refl
  lookup-insert key asked new ((held, old) ∷ rest) =
      let kept = lookup-insert key asked new rest in
      ground (arith, kept, eq_iff held asked, eq_iff held key, eq_iff key asked)

  pub lookup-delete :
      (key asked : String) (m : Map V)
      → lookup asked (delete key m) ≡ (if key == asked then none else lookup asked m)
  unfolding delete lookup
  lookup-delete key asked [] = ground arith
  lookup-delete key asked ((held, old) ∷ rest) =
      let kept = lookup-delete key asked rest in
      ground (arith, kept, eq_iff held asked, eq_iff held key, eq_iff key asked)

  pub lookup-insert_self :
      (key : String) (new : V) (m : Map V) → lookup key (insert key new m) ≡ some new
  lookup-insert_self key new m = simp (lookup-insert, eq_refl)

  pub lookup-delete_self : (key : String) (m : Map V) → lookup key (delete key m) ≡ none
  lookup-delete_self key m = simp (lookup-delete, eq_refl)

pub ne-eq_false : (k j : String) → k ≢ j → (k == j) ≡ false
ne-eq_false k j h = ground (arith, eq_iff k j)

pub ruleset map_laws = (lookup-insert, lookup-delete, eq_refl)
