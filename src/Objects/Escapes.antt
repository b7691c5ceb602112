-- ===== src/Objects/Escapes.antt =====
-- internal/objectstore/s3.go: keys that the escaping of a URL leaves as they are.
use Prim.Native.Char.{Char, code}
use Prim.Native.String.{◌++◌}
use text.Mathlib.TextLemmas.{nil-append, cons-append}
use text.Mathlib.TextEquality.{Char-path}
use xiesg0915_work.Prelude.{
  String, true, ◌≡◌, ◌≢◌, refl, ap, ◌∙◌, List, [], ◌∷◌, eqb, ◌||◌, arith, Bool-cases, inl, inr,
}
use xiesg0915_work.Prelude.Strings.{split, push}
use xiesg0915_work.Objects.Keys.{split-ne-nil, slash-append}
use xiesg0915_work.Objects.Signed.{in_segment, escape, escape_parts, escape_key}

-- A key of parts that are made of letters, digits and the signs that a URL may hold.
abbrev pub IsPlain : String → Type 0
IsPlain String.[] = Unit
IsPlain (String.◌∷◌ c s) = ((eqb (code c) b'/' || in_segment (code c)) ≡ true) × IsPlain s

escape_parts-push :
    (c : Char) (ps : List String)
    → in_segment (code c) ≡ true
    → escape_parts (push c ps) ≡ String.◌∷◌ c (escape_parts ps)
unfolding escape_parts escape
escape_parts-push c [] h = rw h refl
escape_parts-push c (p ∷ []) h = rw h refl
escape_parts-push c (p ∷ q ∷ ps) h =
    rw h (cons-append c (escape in_segment p) ("/" ++ escape_parts (q ∷ ps)))

escape_parts-slash :
    (ps : List String) → ps ≢ [] → escape_parts (String.[] ∷ ps) ≡ String.◌∷◌ "/" (escape_parts ps)
unfolding escape_parts escape
escape_parts-slash [] h = absurd (h refl)
escape_parts-slash (p ∷ ps) h =
    nil-append ("/" ++ escape_parts (p ∷ ps)) ∙ slash-append (escape_parts (p ∷ ps))

escape_parts-empty : escape_parts (String.[] ∷ []) ≡ String.[]
unfolding escape_parts escape
escape_parts-empty = refl

split-escape : (key : String) → IsPlain key → escape_parts (split b'/' key) ≡ key
unfolding split
split-escape String.[] h = escape_parts-empty
split-escape (String.◌∷◌ c s) h = elim (Bool-cases (eqb (code c) b'/')) [
  | inl e ↦ rw e (
      escape_parts-slash (split b'/' s) (split-ne-nil b'/' s)
      ∙ ap (String.◌∷◌ "/") (split-escape s h.1)
      ∙ ap (λ d. String.◌∷◌ d s) (Char-path "/" c (ground arith)))
  | inr e ↦ rw e (
      escape_parts-push c (split b'/' s) (ground (arith, e, h.0))
      ∙ ap (String.◌∷◌ c) (split-escape s h.1))
]

-- A plain key is its own path in the URL.
pub escape_key-plain : (key : String) → IsPlain key → escape_key key ≡ key
unfolding escape_key
escape_key-plain key h = split-escape key h
