-- ===== src/Prelude/Sorting.antt =====
-- sort.Slice over a test `before`, as an insertion sort. The library's own order of elements that
-- `before` does not tell apart is unspecified; here it is the order of the list.
use mathlib.Core.Bool.{Bool}
use mathlib.Core.List.{List, [], ◌∷◌}
use mathlib.Core.List.{Perm}
use mathlib.Core.List.Perm
use native.Mathlib.Omega.{arith}
use xiesg0915_work.Prelude.Tests.{if◌then◌else◌}

module _ {ℓ} {A : Type ℓ} where
  unfoldable pub insert_sorted : (A → A → Bool) → A → List A → List A
  insert_sorted before x [] = x ∷ []
  insert_sorted before x (y ∷ ys) =
      let rest = insert_sorted before x ys in if before y x then y ∷ rest else x ∷ y ∷ ys

  unfoldable pub sort_slice : (A → A → Bool) → List A → List A
  unfolding insert_sorted
  sort_slice before [] = []
  sort_slice before (x ∷ xs) = insert_sorted before x (sort_slice before xs)

  insert_sorted-perm :
      (before : A → A → Bool) (x : A) (xs : List A) → Perm (insert_sorted before x xs) (x ∷ xs)
  unfolding insert_sorted
  insert_sorted-perm before x [] = Perm.refl _
  insert_sorted-perm before x (y ∷ ys) = ground (
    arith,
    Perm.refl (x ∷ y ∷ ys),
    Perm.trans (Perm.cons y (insert_sorted-perm before x ys)) (Perm.swap x y ys),
  )

  -- Sorting neither adds nor drops an element.
  pub sort_slice-perm : (before : A → A → Bool) (xs : List A) → Perm (sort_slice before xs) xs
  unfolding sort_slice
  sort_slice-perm before [] = Perm.refl _
  sort_slice-perm before (x ∷ xs) =
      Perm.trans (insert_sorted-perm before x (sort_slice before xs))
        (Perm.cons x (sort_slice-perm before xs))
