-- ===== src/Config/Bounds.antt =====
-- The bounds of the configuration.
use Prim.Native.Char.{code}
use xiesg0915_work.Prelude.{
  ℕ, zero, suc, ◌+◌, ◌^◌, ◌≤◌, ◌<◌, String, ◌≡◌, some, arith, ltb, eqb, ◌==◌, Option-cases,
  Bool-cases, inl, inr, sym, ap, ◌∙◌,
}
use xiesg0915_work.Prelude.Strings.{
  ℤ, pos, negsuc, atoi, magnitude, negated, maybe_pos, maybe_negated,
}
use xiesg0915_work.Config.{getenv_int, at_least, load}

-- A number from `least` on and below `most`.
unfoldable pub IsWithin : (least most : ℕ) → ℤ → Type 0
IsWithin least most (pos n) = (least ≤ n) × (n < most)
IsWithin least most (negsuc n) = ⊥

-- A number of the program, which is below `2 ^ 63`.
unfoldable IsInt : ℤ → Type 0
IsInt (pos n) = n < 2 ^ 63
IsInt (negsuc n) = n < 2 ^ 63

magnitude-bounds : (bound : ℕ) (s : String) (n : ℕ) → magnitude bound s ≡ some n → n < bound
magnitude-bounds bound s n h = ground arith

some-pos-IsInt : (n : ℕ) (i : ℤ) → n < 2 ^ 63 → some (pos n) ≡ some i → IsInt i
unfolding IsInt
some-pos-IsInt n (pos k) b h = ground arith
some-pos-IsInt n (negsuc k) b h = absurd (ground arith)

some-negated-IsInt : (n : ℕ) (i : ℤ) → n < 2 ^ 63 + 1 → some (negated n) ≡ some i → IsInt i
unfolding IsInt
some-negated-IsInt zero (pos k) b h = ground arith
some-negated-IsInt zero (negsuc k) b h = absurd (ground arith)
some-negated-IsInt (suc n) (pos k) b h = absurd (ground arith)
some-negated-IsInt (suc n) (negsuc k) b h = ground arith

positive-IsInt : (s : String) (i : ℤ) → maybe_pos (magnitude (2 ^ 63) s) ≡ some i → IsInt i
positive-IsInt s i h = elim (Option-cases (magnitude (2 ^ 63) s)) [
  | inl e ↦ absurd (ground (arith, e))
  | inr (n, e) ↦ some-pos-IsInt n i (magnitude-bounds (2 ^ 63) s n e) (sym (ap maybe_pos e) ∙ h)
]

negative-IsInt : (s : String) (i : ℤ) → maybe_negated (magnitude (2 ^ 63 + 1) s) ≡ some i → IsInt i
negative-IsInt s i h = elim (Option-cases (magnitude (2 ^ 63 + 1) s)) [
  | inl e ↦ absurd (ground (arith, e))
  | inr (n, e) ↦
      some-negated-IsInt n i (magnitude-bounds (2 ^ 63 + 1) s n e) (sym (ap maybe_negated e) ∙ h)
]

atoi-IsInt : (s : String) (i : ℤ) → atoi s ≡ some i → IsInt i
unfolding atoi
atoi-IsInt String.[] i h = absurd (ground arith)
atoi-IsInt (String.◌∷◌ c s) i h = elim (Bool-cases (eqb (code c) b'-')) [
  | inl minus ↦ negative-IsInt s i (ground arith)
  | inr unsigned ↦ elim (Bool-cases (eqb (code c) b'+')) [
    | inl plus ↦ positive-IsInt s i (ground arith)
    | inr digits ↦ positive-IsInt (String.◌∷◌ c s) i (ground arith)
  ]
]

getenv_int-IsInt :
    (getenv : String → String) (k : String) (def : ℤ) → IsInt def → IsInt (getenv_int getenv k def)
unfolding getenv_int
getenv_int-IsInt getenv k def d = elim (Bool-cases (getenv k == "")) [
  | inl e ↦ rw e d
  | inr e ↦ elim (Option-cases (atoi (getenv k))) [
    | inl n ↦ rw e (rw n d)
    | inr (i, n) ↦ rw e (rw n (atoi-IsInt (getenv k) i n))
  ]
]

at_least-IsWithin :
    (least : ℕ) (v : ℤ) → least < 2 ^ 63 → IsInt v → IsWithin least (2 ^ 63) (at_least least v)
unfolding at_least IsInt IsWithin
at_least-IsWithin least (pos n) b h = elim (Bool-cases (ltb n least)) [
  | inl e ↦ rw e (omega arith)
  | inr e ↦ rw e (ground arith)
]
at_least-IsWithin least (negsuc n) b h = (omega arith, b)

-- Whatever the environment, there is a worker at least and a chunk has 4096 bytes at least; neither
-- number is beyond an integer's.
load_bounds :
    (getenv : String → String)
    → IsWithin 1 (2 ^ 63) (load getenv).workers × IsWithin 4096 (2 ^ 63) (load getenv).chunk_bytes
unfolding load IsInt
load_bounds getenv = (
  at_least-IsWithin 1 _ (omega arith) (getenv_int-IsInt getenv "WORKERS" (pos 4) (omega arith)),
  at_least-IsWithin 4096 _ (omega arith)
      (getenv_int-IsInt getenv "CHUNK_BYTES" (pos 4194304) (omega arith)),
)
