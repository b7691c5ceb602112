-- ===== src/Prelude/Strings.antt =====
-- What the program uses of the packages strings and strconv.
use Prim.Native.Nat.{ℕ, zero, suc, ◌+◌, ◌-◌, ◌*◌, ◌^◌}
use Prim.Native.Char.{Char, code}
use Prim.Native.String.{String}
use mathlib.Core.Bool.{Bool, ◌&&◌, ◌||◌}
use mathlib.Core.Option.{Option, none, some}
use mathlib.Core.List.{List, [], ◌∷◌}
use text.Mathlib.Text.{◌==◌}
use xiesg0915_work.Prelude.Tests.{ltb, leb, eqb, if◌then◌else◌}

-- unicode.IsSpace
unfoldable pub is_space : Char → Bool
is_space c =
    leb 9 (code c) && leb (code c) 13
    || eqb (code c) 32
    || eqb (code c) 0x85
    || eqb (code c) 0xA0
    || eqb (code c) 0x1680
    || leb 0x2000 (code c) && leb (code c) 0x200A
    || eqb (code c) 0x2028
    || eqb (code c) 0x2029
    || eqb (code c) 0x202F
    || eqb (code c) 0x205F
    || eqb (code c) 0x3000

unfoldable pub trim_left : String → String
unfolding is_space
trim_left String.[] = String.[]
trim_left (String.◌∷◌ c s) = if is_space c then trim_left s else String.◌∷◌ c s

unfoldable pub trim_right : String → String
unfolding is_space
trim_right String.[] = String.[]
trim_right (String.◌∷◌ c s) =
    let rest = trim_right s in if is_space c && rest == "" then String.[] else String.◌∷◌ c rest

-- strings.TrimSpace
unfoldable pub trim_space : String → String
unfolding trim_left trim_right
trim_space s = trim_right (trim_left s)

-- A character before the first of the parts.
abbrev pub push : Char → List String → List String
push c [] = String.◌∷◌ c String.[] ∷ []
push c (s ∷ ss) = String.◌∷◌ c s ∷ ss

-- strings.Split at a separator of one character, given by its code; the result has a part at least.
unfoldable pub split : ℕ → String → List String
split sep String.[] = String.[] ∷ []
split sep (String.◌∷◌ c s) =
    let parts = split sep s in if eqb (code c) sep then String.[] ∷ parts else push c parts

-- The digits of a text, read behind those that make `n`; `none` is a syntax error.
unfoldable pub parse_digits : ℕ → String → Option ℕ
parse_digits n String.[] = some n
parse_digits n (String.◌∷◌ c s) =
    if leb b'0' (code c) && leb (code c) b'9'
    then parse_digits (n * 10 + (code c - b'0')) s
    else none

-- A number at least, and one that is not too large.
abbrev pub magnitude : (bound : ℕ) → String → Option ℕ
magnitude bound s =
    if s == ""
    then none
    else elim (parse_digits 0 s) [ none ↦ none | some n ↦ if ltb n bound then some n else none ]

-- An integer of the program.
pub data ℤ : Type 0 where
  pos : ℕ → ℤ
  negsuc : ℕ → ℤ

abbrev pub negated : ℕ → ℤ
negated zero = pos 0
negated (suc n) = negsuc n

abbrev pub maybe_pos : Option ℕ → Option ℤ
maybe_pos none = none
maybe_pos (some n) = some (pos n)

abbrev pub maybe_negated : Option ℕ → Option ℤ
maybe_negated none = none
maybe_negated (some n) = some (negated n)

-- strconv.Atoi for integers of 64 bits: a sign or none, and digits.
unfoldable pub atoi : String → Option ℤ
unfolding parse_digits
atoi String.[] = none
atoi (String.◌∷◌ c s) =
    if eqb (code c) b'-'
    then maybe_negated (magnitude (2 ^ 63 + 1) s)
    else if eqb (code c) b'+'
    then maybe_pos (magnitude (2 ^ 63) s)
    else maybe_pos (magnitude (2 ^ 63) (String.◌∷◌ c s))
