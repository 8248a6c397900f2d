-- ===== src/Prelude/Dict.antt =====
-- Go's `map[string]V` as an association list. Go fixes no order of iteration; the entries here stand
-- in the order of their first insertion.
use Prim.Native.String.{String}
use mathlib.Core.Path.{◌≡◌, refl}
use mathlib.Core.Logic.{◌≢◌}
use mathlib.Core.Option.{Option, none, some}
use mathlib.Core.List.{List, [], ◌∷◌}
use native.Mathlib.Omega.{arith}
use text.Mathlib.Text.{◌==◌}
use text.Mathlib.TextEquality.{eq_iff}
use text.Mathlib.TextPositions.{eq_refl}
use toska_mesh.Prelude.Tests.{if◌then◌else◌}

abbrev pub Dict {ℓ} : Type ℓ → Type ℓ
Dict V = List (String × V)

module _ {ℓ} {V : Type ℓ} where
  -- `v, ok := d[key]`
  unfoldable pub lookup : String → Dict V → Option V
  lookup key [] = none
  lookup key ((other, v) ∷ d) = if other == key then some v else lookup key d

  -- `d[key] = v`
  unfoldable pub insert : String → V → Dict V → Dict V
  insert key v [] = (key, v) ∷ []
  insert key v ((other, old) ∷ d) =
      if other == key then (key, v) ∷ d else (other, old) ∷ insert key v d

  -- `delete(d, key)`
  unfoldable pub delete : String → Dict V → Dict V
  delete key [] = []
  delete key ((other, old) ∷ d) =
      let rest = delete key d in if other == key then rest else (other, old) ∷ rest

  pub lookup-insert :
      (key other : String) (v : V) (d : Dict V)
      → lookup other (insert key v d) ≡ (if key == other then some v else lookup other d)
  unfolding lookup insert
  lookup-insert key other v [] = refl
  lookup-insert key other v ((first, old) ∷ d) =
      ground
        (arith, eq_iff first other, eq_iff first key, eq_iff key other, lookup-insert key other v d)

  pub lookup-delete :
      (key other : String) (d : Dict V)
      → lookup other (delete key d) ≡ (if key == other then none else lookup other d)
  unfolding lookup delete
  lookup-delete key other [] = ground arith
  lookup-delete key other ((first, old) ∷ d) =
      ground
        (arith, eq_iff key other, eq_iff first key, eq_iff first other, lookup-delete key other d)

  pub lookup-insert_self :
      (key : String) (v : V) (d : Dict V) → lookup key (insert key v d) ≡ some v
  lookup-insert_self key v d = simp (lookup-insert, eq_refl)

  pub lookup-insert_ne :
      (key other : String) (v : V) (d : Dict V)
      → key ≢ other
      → lookup other (insert key v d) ≡ lookup other d
  lookup-insert_ne key other v d h = simp lookup-insert (ground (arith, eq_iff key other))

-- Go's maps have no key twice.
abbrev pub HasDistinctKeys {ℓ} : {V : Type ℓ} → Dict V → Type ℓ
HasDistinctKeys [] = Unit
HasDistinctKeys ((key, v) ∷ d) = (lookup key d ≡ none) × HasDistinctKeys d

pub ruleset dict_laws = (lookup-insert, lookup-delete, eq_refl)

module _ {ℓ} {V : Type ℓ} where
  pub insert-HasDistinctKeys :
      (key : String) (v : V) (d : Dict V) → HasDistinctKeys d → HasDistinctKeys (insert key v d)
  unfolding insert
  insert-HasDistinctKeys key v [] distinct = unfold lookup in (refl, tt)
  insert-HasDistinctKeys key v ((other, old) ∷ d) distinct = ground (
    arith,
    insert-HasDistinctKeys key v d distinct.1,
    lookup-insert key other v d,
    eq_iff other key,
    eq_iff key other,
  )

pub delete-HasDistinctKeys {ℓ} :
    {V : Type ℓ} (key : String) (d : Dict V) → HasDistinctKeys d → HasDistinctKeys (delete key d)
unfolding delete
delete-HasDistinctKeys key [] h = tt
delete-HasDistinctKeys key ((other, v) ∷ d) h =
    ground (arith, delete-HasDistinctKeys key d h.1, lookup-delete key other d)
