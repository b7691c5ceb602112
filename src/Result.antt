-- ===== src/Result.antt =====
-- The errors of internal/store/store.go, results, and the methods of a store: a method takes the
-- state and returns its result with the state that it leaves, beside an error too.
use xiesg0915_work.Prelude.{◌≡◌, refl, ◌⊎◌, inl, inr, Bool, true, false, String}

-- An error is told apart by what it wraps (ErrNotFound, ErrConflict, or neither); its text is the
-- format without the arguments.
pub data Error : Type 0 where
  not_found conflict other : String → Error

pub data Result {ℓ} (A : Type ℓ) : Type ℓ where
  ok : A → Result A
  err : Error → Result A

abbrev pub Exec : Type 0 → Type 0 → Type 0
Exec S A = S → Result A × S

module _ {S A : Type 0} where
  abbrev pub pure : A → Exec S A
  pure a s = (ok a, s)

  abbrev pub raise : Error → Exec S A
  raise e s = (err e, s)

  -- A result that does not depend on the state.
  abbrev pub lift : Result A → Exec S A
  lift r s = (r, s)

  -- `r, err := m(); switch on err`: the error is a value that the caller looks at.
  abbrev pub attempt : Exec S A → Exec S (Result A)
  attempt m s = (ok (m s).0, (m s).1)

  -- `_, _ = m()`: the result and the error are dropped.
  abbrev pub ignore : Exec S A → Exec S (Unit {0})
  ignore m s = (ok tt, (m s).1)

-- `if !b { return e }`
abbrev pub require : {S : Type 0} → Bool → Error → Exec S (Unit {0})
require true e s = (ok tt, s)
require false e s = (err e, s)

module _ {S A B : Type 0} where
  abbrev pub continue : Result A → (A → Exec S B) → Exec S B
  continue (ok a) f s = f a s
  continue (err e) f s = (err e, s)

  infixl 5 ◌>>=◌ ◌>>◌
  abbrev pub ◌>>=◌ : Exec S A → (A → Exec S B) → Exec S B
  ◌>>=◌ m f s = continue (m s).0 f (m s).1

  abbrev pub ◌>>◌ : Exec S A → Exec S B → Exec S B
  ◌>>◌ m n = m >>= λ _. n

-- To split on a computed result and keep the equation.
pub Result-cases {ℓ} :
    {A : Type ℓ} (r : Result A) → ((a : A) × (r ≡ ok a)) ⊎ ((e : Error) × (r ≡ err e))
Result-cases (ok a) = inl (a, refl)
Result-cases (err e) = inr (e, refl)
