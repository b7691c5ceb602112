-- ===== src/Objects/Keys.antt =====
-- Where a key leads to: below the directory of the bucket, whatever the key.
use Prim.Native.Char.{Char, code}
use Prim.Native.String.{◌++◌}
use text.Mathlib.Text.{starts_with}
use xiesg0915_work.Prelude.{
  ℕ, String, Bool, true, false, ◌||◌, ◌≡◌, ◌≢◌, refl, ap, sym, ◌∙◌, List, [], ◌∷◌, ◌==◌, All, eqb,
  eq_iff, arith, some, none, subst, if◌then◌else◌, Bool-cases, inl, inr,
}
use mathlib.Core.List
use mathlib.Core.List.{cons-ne-nil}
use text.Mathlib.TextLemmas.{nil-append, cons-append, cons≢nil}
use xiesg0915_work.Prelude.Strings.{split, push}
use xiesg0915_work.Objects.Paths.{up, enter, resolve, joined, place, is_rooted, clean, join}
use xiesg0915_work.Objects.Filesystem.{Filesystem, dir, path}

pub has_code : ℕ → String → Bool
has_code n String.[] = false
has_code n (String.◌∷◌ c s) = eqb (code c) n || has_code n s

-- A part of a path that names an entry of the directory before it.
pub record IsName (p : String) : Type 0 where
  pub nonempty : p ≢ ""
  pub beyond_dot : p ≢ "."
  pub below : p ≢ ".."
  pub single : has_code b'/' p ≡ false

push-All :
    (n : ℕ) (c : Char) (ps : List String)
    → eqb (code c) n ≡ false
    → All (λ p. has_code n p ≡ false) ps
    → All (λ p. has_code n p ≡ false) (push c ps)
unfolding has_code
push-All n c [] h a = (ground arith, tt)
push-All n c (p ∷ ps) h a = (ground arith, a.1)

split-All : (n : ℕ) (s : String) → All (λ p. has_code n p ≡ false) (split n s)
unfolding split has_code
split-All n String.[] = (refl, tt)
split-All n (String.◌∷◌ c s) = elim (Bool-cases (eqb (code c) n)) [
  | inl e ↦ rw e (refl, split-All n s)
  | inr e ↦ rw e (push-All n c (split n s) e (split-All n s))
]

split-whole : (n : ℕ) (p : String) → has_code n p ≡ false → split n p ≡ p ∷ []
unfolding split has_code
split-whole n String.[] h = refl
split-whole n (String.◌∷◌ c s) h = ground (arith, split-whole n s)

push-append :
    (c : Char) (ps qs : List String) → ps ≢ [] → push c (List.◌++◌ ps qs) ≡ List.◌++◌ (push c ps) qs
push-append c [] qs h = absurd (h refl)
push-append c (p ∷ ps) qs h = refl

push-ne-nil : (c : Char) (ps : List String) → push c ps ≢ []
push-ne-nil c [] = cons-ne-nil _ _
push-ne-nil c (p ∷ ps) = cons-ne-nil _ _

pub split-ne-nil : (n : ℕ) (s : String) → split n s ≢ []
unfolding split
split-ne-nil n String.[] = cons-ne-nil _ _
split-ne-nil n (String.◌∷◌ c s) = elim (Bool-cases (eqb (code c) n)) [
  | inl e ↦ rw e (cons-ne-nil _ _)
  | inr e ↦ rw e (push-ne-nil c (split n s))
]

split-append :
    (n : ℕ) (a : String) (c : Char) (b : String)
    → eqb (code c) n ≡ true
    → split n (a ++ String.◌∷◌ c b) ≡ List.◌++◌ (split n a) (split n b)
unfolding split
split-append n String.[] c b h = ap (split n) (nil-append (String.◌∷◌ c b)) ∙ rw h refl
split-append n (String.◌∷◌ d a) c b h =
    ap (split n) (cons-append d a (String.◌∷◌ c b)) ∙ elim (Bool-cases (eqb (code d) n)) [
      | inl e ↦ rw e (ap (λ ps. String.[] ∷ ps) (split-append n a c b h))
      | inr e ↦ rw e (
          ap (push d) (split-append n a c b h)
          ∙ push-append d (split n a) (split n b) (split-ne-nil n a))
    ]

pub slash-append : (p : String) → "/" ++ p ≡ String.◌∷◌ "/" p
slash-append p = cons-append "/" String.[] p ∙ ap (String.◌∷◌ "/") (nil-append p)

split-slash :
    (a p : String) → split b'/' (a ++ ("/" ++ p)) ≡ List.◌++◌ (split b'/' a) (split b'/' p)
split-slash a p = ap (λ t. split b'/' (a ++ t)) (slash-append p) ∙ split-append b'/' a "/" p refl

resolve-append :
    (rooted : Bool) (done ps qs : List String)
    → resolve rooted done (List.◌++◌ ps qs) ≡ resolve rooted (resolve rooted done ps) qs
unfolding resolve
resolve-append rooted done [] qs = refl
resolve-append rooted done (p ∷ ps) qs = resolve-append rooted (enter rooted done p) ps qs

enter-IsName :
    (rooted : Bool) (done : List String) (p : String) → IsName p → enter rooted done p ≡ p ∷ done
enter-IsName rooted done p h =
    let a = h.nonempty in
    let b = h.beyond_dot in
    let c = h.below in ground (arith, eq_iff p "", eq_iff p ".", eq_iff p "..")

name :
    (p : String)
    → has_code b'/' p ≡ false
    → (p == "" || p == ".") ≡ false
    → (p == "..") ≡ false
    → IsName p
name p h e u = record {
  nonempty = λ same. absurd (ground (arith, eq_iff p ""));
  beyond_dot = λ same. absurd (ground (arith, eq_iff p "."));
  below = λ same. absurd (ground (arith, eq_iff p ".."));
  single = h;
}

up-All : (done : List String) → All IsName done → All IsName (up true done)
up-All [] a = tt
up-All (d ∷ ds) a = elim (Bool-cases (d == "..")) [
  | inl e ↦ absurd (a.0.below ((eq_iff d "..").0 e))
  | inr e ↦ rw e a.1
]

enter-All :
    (done : List String) (p : String)
    → All IsName done
    → has_code b'/' p ≡ false
    → All IsName (enter true done p)
enter-All done p a h = elim (Bool-cases (p == "" || p == ".")) [
  | inl e ↦ rw e a
  | inr e ↦ rw e (elim (Bool-cases (p == "..")) [
    | inl u ↦ rw u (up-All done a)
    | inr u ↦ rw u (name p h e u, a)
  ])
]

resolve-All :
    (done ps : List String)
    → All IsName done
    → All (λ p. has_code b'/' p ≡ false) ps
    → All IsName (resolve true done ps)
unfolding resolve
resolve-All done [] a b = a
resolve-All done (p ∷ ps) a b = resolve-All (enter true done p) ps (enter-All done p a b.0) b.1

resolve-joined :
    (rooted : Bool) (done ps : List String)
    → All IsName ps
    → resolve rooted done (split b'/' (joined ps)) ≡ List.◌++◌ ps done
unfolding resolve joined split
resolve-joined rooted done [] a = refl
resolve-joined rooted done (p ∷ []) a =
    ap (resolve rooted done) (split-whole b'/' p a.0.single) ∙ enter-IsName rooted done p a.0
resolve-joined rooted done (p ∷ q ∷ ps) a =
    ap (resolve rooted done) (split-slash (joined (q ∷ ps)) p)
    ∙ resolve-append rooted done (split b'/' (joined (q ∷ ps))) (split b'/' p)
    ∙ ap (resolve rooted (resolve rooted done (split b'/' (joined (q ∷ ps)))))
        (split-whole b'/' p a.0.single)
    ∙ enter-IsName rooted _ p a.0
    ∙ ap (λ ds. p ∷ ds) (resolve-joined rooted done (q ∷ ps) a.1)

is_rooted-append : (a b : String) → a ≢ "" → is_rooted (a ++ b) ≡ is_rooted a
unfolding is_rooted
is_rooted-append String.[] b h = absurd (h refl)
is_rooted-append (String.◌∷◌ c a) b h = ap is_rooted (cons-append c a b)

-- A path below the directory `d`: the parts of `d`, and then names, of which the last one stands
-- first.
pub record IsBelow (d full : String) : Type 0 where
  pub names : List String
  pub plain : All IsName names
  pub located :
      full ≡ place (is_rooted d) (List.◌++◌ names (resolve (is_rooted d) [] (split b'/' d)))

clean_key :
    (key : String)
    → (names : List String) × All IsName names × (clean ("/" ++ key) ≡ "/" ++ joined names)
unfolding clean is_rooted
clean_key key =
    let parts = split b'/' ("/" ++ key) in
    (
      resolve true [] parts,
      resolve-All [] parts tt (split-All b'/' ("/" ++ key)),
      ap (λ r. place r (resolve r [] parts)) (ap is_rooted (slash-append key)),
    )

parts_below :
    (rooted : Bool) (d : String) (names : List String)
    → All IsName names
    → resolve rooted [] (split b'/' (d ++ ("/" ++ ("/" ++ joined names))))
      ≡ List.◌++◌ names (resolve rooted [] (split b'/' d))
unfolding resolve split
parts_below rooted d names a =
    ap (resolve rooted []) (
      split-slash d ("/" ++ joined names)
      ∙ ap (λ p. List.◌++◌ (split b'/' d) (split b'/' p)) (slash-append (joined names)))
    ∙ resolve-append rooted [] (split b'/' d) (String.[] ∷ split b'/' (joined names))
    ∙ resolve-joined rooted (resolve rooted [] (split b'/' d)) names a

nonempty_test : (s : String) → s ≢ "" → (s == "") ≡ false
nonempty_test s h = ground (arith, eq_iff s "")

join-IsBelow :
    (d : String) (names : List String)
    → d ≢ ""
    → All IsName names
    → IsBelow d (join d ("/" ++ joined names))
unfolding join clean
join-IsBelow d names h a =
    let below = "/" ++ joined names in
    let whole = d ++ ("/" ++ below) in
    record {
      names = names;
      plain = a;
      located =
          rw
            (
              nonempty_test d h,
              nonempty_test below (λ e. cons≢nil (sym (slash-append (joined names)) ∙ e)),
            )
            (ap (λ r. place r (resolve r [] (split b'/' whole)))
                (is_rooted-append d ("/" ++ below) h)
              ∙ ap (place (is_rooted d)) (parts_below (is_rooted d) d names a));
    }

the_path : (b : Bool) (s t : String) → (if b then some s else none) ≡ some t → s ≡ t
the_path true s t e = ground arith
the_path false s t e = absurd (ground arith)

-- The file of an object lies below the directory of its bucket, whatever the key: behind the parts
-- of that directory its path has only names, none of them empty, "." or "..", and none with a
-- separator.
pub path-IsBelow :
    (fs : Filesystem) (key full : String)
    → dir fs ≢ ""
    → path fs key ≡ some full
    → IsBelow (dir fs) full
unfolding path
path-IsBelow fs key full h e =
    let cleaned = clean_key key in
    let joins = join (dir fs) (clean ("/" ++ key)) in
    let same = the_path (starts_with joins (dir fs)) joins full e in
    subst (IsBelow (dir fs)) (ap (join (dir fs)) (sym cleaned.2) ∙ same)
      (join-IsBelow (dir fs) cleaned.0 h cleaned.1)
