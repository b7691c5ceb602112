-- ===== src/Prelude/Everywhere.antt =====
-- Predicates on every element of a list or of a table.
use mathlib.Core.Path.{◌≡◌, subst}
use mathlib.Core.Bool.{Bool, true, false}
use mathlib.Core.Option.{some}
use mathlib.Core.List.{List, [], ◌∷◌, ◌++◌}
use mathlib.Core.Logic.{inl, inr}
use Prim.Native.String.{String}
use native.Mathlib.Omega.{arith}
use text.Mathlib.Text.{◌==◌}
use xiesg0915_work.Prelude.Tests.{Bool-cases}
use xiesg0915_work.Prelude.Lists.{All, select}
use xiesg0915_work.Prelude.Tables.{Table, lookup, put, has, values, lookup-put}
use xiesg0915_work.Prelude.Sorting.{insert_sorted, sort_slice}
use text.Mathlib.TextEquality.{eq_iff}

module _ {ℓ κ} {A : Type ℓ} (P : A → Type κ) where
  pub All-append : (xs : List A) (x : A) → All P xs → P x → All P (xs ++ x ∷ [])
  All-append [] x h p = (p, tt)
  All-append (y ∷ ys) x h p = (h.0, All-append ys x h.1 p)

  pub All-select : (q : A → Bool) (xs : List A) → All P xs → All P (select q xs)
  All-select q [] h = tt
  All-select q (x ∷ xs) h = elim (Bool-cases (q x)) [
    | inl e ↦ rw e (h.0, All-select q xs h.1)
    | inr e ↦ rw e (All-select q xs h.1)
  ]

  All-insert_sorted :
      (before : A → A → Bool) (x : A) (xs : List A)
      → P x
      → All P xs
      → All P (insert_sorted before x xs)
  unfolding insert_sorted
  All-insert_sorted before x [] p h = (p, tt)
  All-insert_sorted before x (y ∷ ys) p h = elim (Bool-cases (before y x)) [
    | inl e ↦ rw e (h.0, All-insert_sorted before x ys p h.1)
    | inr e ↦ rw e (p, h)
  ]

  pub All-sort_slice :
      (before : A → A → Bool) (xs : List A) → All P xs → All P (sort_slice before xs)
  unfolding sort_slice
  All-sort_slice before [] h = tt
  All-sort_slice before (x ∷ xs) h =
      All-insert_sorted before x (sort_slice before xs) h.0 (All-sort_slice before xs h.1)

  pub All-put :
      (k : String) (v : A) (t : Table A) → P v → All P (values t) → All P (values (put k v t))
  unfolding put
  All-put k v [] p h = (p, tt)
  All-put k v ((j, w) ∷ t) p h = elim (Bool-cases (j == k)) [
    | inl e ↦ rw e (p, h.1)
    | inr e ↦ rw e (h.0, All-put k v t p h.1)
  ]

  pub All-lookup : (k : String) (v : A) (t : Table A) → All P (values t) → lookup k t ≡ some v → P v
  unfolding lookup
  All-lookup k v [] h e = cc
  All-lookup k v ((j, w) ∷ t) h e = elim (Bool-cases (j == k)) [
    | inl f ↦ found f
    | inr f ↦ All-lookup k v t h.1 (missed f)
  ]
    where
      found : (j == k) ≡ true → P v
      found f = subst P same_value h.0
        where
          same_value : w ≡ v
          same_value = ground arith

      missed : (j == k) ≡ false → lookup k t ≡ some v
      missed f = ground arith

module _ {ℓ κ} {A : Type ℓ} {P Q : A → Type κ} where
  pub All-imply : (xs : List A) → ((x : A) → P x → Q x) → All P xs → All Q xs
  All-imply [] f h = tt
  All-imply (x ∷ xs) f h = (f x h.0, All-imply xs f h.1)

pub select-passes {ℓ} :
    {A : Type ℓ} (q : A → Bool) (xs : List A) → All (λ x. q x ≡ true) (select q xs)
select-passes q [] = tt
select-passes q (x ∷ xs) = elim (Bool-cases (q x)) [
  | inl e ↦ rw e (e, select-passes q xs)
  | inr e ↦ rw e (select-passes q xs)
]

-- A write removes no key.
pub has-put {ℓ} :
    {V : Type ℓ} (k j : String) (v : V) (t : Table V) → has j t ≡ true → has j (put k v t) ≡ true
has-put k j v t h = ground (arith, lookup-put k j v t, eq_iff k j)
