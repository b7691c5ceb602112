-- ===== src/Prelude/Tables.antt =====
-- A Go map with string keys, as a list of entries. A lookup reads the first entry of a key, a
-- write replaces it where it stands, and a range over the map visits the entries of the list.
use mathlib.Core.Path.{◌≡◌, refl}
use mathlib.Core.Bool.{Bool, true, false}
use mathlib.Core.Option.{Option, none, some}
use mathlib.Core.List.{List, [], ◌∷◌}
use Prim.Native.String.{String}
use native.Mathlib.Omega.{arith}
use text.Mathlib.Text.{◌==◌}
use text.Mathlib.TextEquality.{eq_iff}
use xiesg0915_work.Prelude.Tests.{if◌then◌else◌}

abbrev pub Table {ℓ} : Type ℓ → Type ℓ
Table V = List (String × V)

module _ {ℓ} {V : Type ℓ} where
  unfoldable pub lookup : String → Table V → Option V
  lookup k [] = none
  lookup k ((j, v) ∷ t) = if j == k then some v else lookup k t

  unfoldable pub put : String → V → Table V → Table V
  put k v [] = (k, v) ∷ []
  put k v ((j, w) ∷ t) = if j == k then (k, v) ∷ t else (j, w) ∷ put k v t

  pub lookup-put :
      (k j : String) (v : V) (t : Table V)
      → lookup j (put k v t) ≡ (if k == j then some v else lookup j t)
  unfolding lookup put
  lookup-put k j v [] = refl
  lookup-put k j v ((i, w) ∷ t) =
      ground (arith, eq_iff k j, eq_iff i k, eq_iff i j, lookup-put k j v t)

  unfoldable pub remove : String → Table V → Table V
  remove k [] = []
  remove k ((j, v) ∷ t) = let rest = remove k t in if j == k then rest else (j, v) ∷ rest

  pub lookup-remove :
      (k j : String) (t : Table V) → lookup j (remove k t) ≡ (if k == j then none else lookup j t)
  unfolding lookup remove
  lookup-remove k j [] = ground arith
  lookup-remove k j ((i, w) ∷ t) =
      ground (arith, eq_iff k j, eq_iff i k, eq_iff i j, lookup-remove k j t)

  abbrev pub values : Table V → List V
  values [] = []
  values ((k, v) ∷ t) = v ∷ values t

  -- What holds of every visited value holds of a value that is looked up.
  abbrev pub has : String → Table V → Bool
  has k t = elim (lookup k t) [ none ↦ false | some v ↦ true ]

  -- A key has one entry at most.
  abbrev pub UniqueKeys : Table V → Type ℓ
  UniqueKeys [] = Unit
  UniqueKeys ((k, v) ∷ t) = (lookup k t ≡ none) × UniqueKeys t

  pub put-UniqueKeys : (k : String) (v : V) (t : Table V) → UniqueKeys t → UniqueKeys (put k v t)
  unfolding lookup put
  put-UniqueKeys k v [] u = (refl, tt)
  put-UniqueKeys k v ((j, w) ∷ t) u =
      ground (arith, eq_iff j k, eq_iff k j, put-UniqueKeys k v t u.1, lookup-put k j v t)
