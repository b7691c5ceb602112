-- ===== src/Objects/Paths.antt =====
-- What internal/objectstore/fs.go uses of the package path/filepath, on a system with the
-- separator "/".
use Prim.Native.Char.{code}
use Prim.Native.String.{◌++◌}
use xiesg0915_work.Prelude.{
  String, Bool, false, eqb, ◌||◌, ◌&&◌, List, [], ◌∷◌, ◌==◌, if◌then◌else◌,
}
use xiesg0915_work.Prelude.Strings.{split}

-- The parts read so far, the last one first, after "..".
abbrev pub up : (rooted : Bool) → List String → List String
up rooted [] = if rooted then [] else ".." ∷ []
up rooted (d ∷ ds) = if d == ".." then ".." ∷ d ∷ ds else ds

abbrev pub enter : (rooted : Bool) → List String → String → List String
enter rooted done part =
    if part == "" || part == "." then done else if part == ".." then up rooted done else part ∷ done

unfoldable pub resolve : (rooted : Bool) → List String → List String → List String
resolve rooted done [] = done
resolve rooted done (p ∷ ps) = resolve rooted (enter rooted done p) ps

-- The path of parts of which the last one stands first.
unfoldable pub joined : List String → String
joined [] = ""
joined (p ∷ []) = p
joined (p ∷ q ∷ ps) = joined (q ∷ ps) ++ ("/" ++ p)

-- The path of the parts that Clean keeps.
abbrev pub place : (rooted : Bool) → List String → String
place rooted parts =
    if rooted then "/" ++ joined parts else if joined parts == "" then "." else joined parts

unfoldable pub is_rooted : String → Bool
is_rooted String.[] = false
is_rooted (String.◌∷◌ c s) = eqb (code c) b'/'

-- filepath.Clean
unfoldable pub clean : String → String
unfolding resolve joined split is_rooted
clean p = let rooted = is_rooted p in place rooted (resolve rooted [] (split b'/' p))

-- filepath.Join of two elements
unfoldable pub join : String → String → String
unfolding clean
join a b =
    if a == "" && b == ""
    then ""
    else if a == ""
    then clean b
    else if b == ""
    then clean a
    else clean (a ++ ("/" ++ b))
