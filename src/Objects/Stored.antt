-- ===== src/Objects/Stored.antt =====
-- What Put leaves of the files, and what Get finds.
use Prim.Native.String.{◌++◌}
use text.Mathlib.TextLemmas.{append-nil, append_cancel_left, nil≢cons, cons-append}
use xiesg0915_work.Prelude.{
  String, Bool, true, false, ◌≡◌, ◌≢◌, refl, ap, sym, subst, ◌∙◌, inl, inr, some, ◌==◌, eq_iff,
  eq_refl, lookup, put, remove, lookup-put, lookup-remove, arith, if◌then◌else◌, Option-cases,
  Bool-cases,
}
use xiesg0915_work.Result.{Result, ok, err}
use xiesg0915_work.Objects.{Bytes, Object}
use xiesg0915_work.Objects.Filesystem.{
  Files, Filesystem, Disturbance, path, rename, discard, temporary, write_file, put_object,
  get_object, put_at, read_file, get_at, stat,
}

-- What a Put does to the file at a path: nothing, unless it succeeds and the path is the object's.
unfoldable pub IsAtomic :
    (r : Result Object) → (content : Bytes) → (full j : String) → (before after : Files) → Type 0
IsAtomic (ok obj) content full j before after =
    lookup j after ≡ (if full == j then some content else lookup j before)
IsAtomic (err e) content full j before after = lookup j after ≡ lookup j before

lookup-put-other :
    (k j : String) (v : Bytes) (t : Files) → j ≢ k → lookup j (put k v t) ≡ lookup j t
lookup-put-other k j v t h = ground (arith, eq_iff k j, lookup-put k j v t)

lookup-discard :
    (fails : Bool) (tmp j : String) (t : Files)
    → j ≢ tmp
    → lookup j (discard fails tmp t) ≡ lookup j t
lookup-discard true tmp j t h = refl
lookup-discard false tmp j t h = ground (arith, eq_iff tmp j, lookup-remove tmp j t)

rename-put :
    (tmp full : String) (content : Bytes) (t : Files)
    → lookup tmp t ≡ some content
    → rename tmp full t ≡ put full content (remove tmp t)
rename-put tmp full content t h = rw h refl

lookup-rename :
    (tmp full j : String) (content : Bytes) (t : Files)
    → j ≢ tmp
    → lookup j (rename tmp full (put tmp content t))
      ≡ (if full == j then some content else lookup j t)
lookup-rename tmp full j content t h =
    let written = put tmp content t in
    let found = lookup-put tmp tmp content t ∙ rw (eq_refl tmp) refl in
    ap (lookup j) (rename-put tmp full content written found)
    ∙ lookup-put full j content (remove tmp written)
    ∙ ap (λ o. if full == j then some content else o)
        (lookup-discard false tmp j written h ∙ lookup-put-other tmp j content t h)

write_file-IsAtomic :
    (w : Disturbance) (key full content_type : String) (content : Bytes) (files : Files)
    (j : String)
    → j ≢ temporary w full
    → let out = write_file w key full content_type content files in
      IsAtomic out.0 content full j files out.1
unfolding write_file IsAtomic
write_file-IsAtomic w key full content_type content files j h =
    let tmp = temporary w full in
    let dropped = λ (part : Bytes).
      lookup-discard w.remove_fails tmp j (put tmp part files) h
      ∙ lookup-put-other tmp j part files h in
    elim (Bool-cases w.mkdir_fails) [
      | inl a ↦ rw a refl
      | inr a ↦ elim (Bool-cases w.open_fails) [
        | inl b ↦ rw (a, b) refl
        | inr b ↦ elim (Option-cases w.copied) [
          | inr (part, c) ↦ rw (a, b, c) (dropped part)
          | inl c ↦ elim (Bool-cases w.sync_fails) [
            | inl d ↦ rw (a, b, c, d) (dropped content)
            | inr d ↦ elim (Bool-cases w.rename_fails) [
              | inl e ↦ rw (a, b, c, d, e) (lookup-put-other tmp j content files h)
              | inr e ↦ rw (a, b, c, d, e) (lookup-rename tmp full j content files h)
            ]
          ]
        ]
      ]
    ]

-- Whatever call of the system fails, a Put that returns an error leaves the file at every path but
-- that of its own temporary file as it was; one that succeeds puts its content under the key's path
-- and leaves the others.
pub put_object-IsAtomic :
    (fs : Filesystem) (w : Disturbance) (key full content_type : String) (content : Bytes)
    (files : Files) (j : String)
    → path fs key ≡ some full
    → j ≢ temporary w full
    → let out = put_object fs w key content_type content files in
      IsAtomic out.0 content full j files out.1
unfolding put_object
put_object-IsAtomic fs w key full content_type content files j p h =
    subst
      (λ o.
        let out = put_at w key content_type content o files in
        IsAtomic out.0 content full j files out.1)
      (sym p) (write_file-IsAtomic w key full content_type content files j h)

-- The temporary file is never the object's.
full≢temporary : (w : Disturbance) (full : String) → full ≢ temporary w full
full≢temporary w full e =
    let rest = append_cancel_left full "" (".tmp." ++ w.suffix) (append-nil full ∙ e) in
    nil≢cons (rest ∙ cons-append "." "tmp." w.suffix)

get_object-found :
    (fs : Filesystem) (key full : String) (content : Bytes) (files : Files)
    → path fs key ≡ some full
    → lookup full files ≡ some content
    → get_object fs true key files ≡ ok (content, stat key content)
unfolding get_object
get_object-found fs key full content files p h =
    ap (λ o. get_at true key o files) p ∙ ap (read_file true key) h

succeeded :
    (r : Result Object) (obj : Object) (content : Bytes) (full : String) (before after : Files)
    → r ≡ ok obj
    → IsAtomic r content full full before after
    → lookup full after ≡ some content
unfolding IsAtomic
succeeded r obj content full before after e a =
    subst (λ x. IsAtomic x content full full before after) e a ∙ rw (eq_refl full) refl

-- A Get behind a Put that succeeded finds the content that was put, with its key and its size.
pub put_object-get_object :
    (fs : Filesystem) (w : Disturbance) (key content_type : String) (content : Bytes)
    (files : Files) (obj : Object)
    → (put_object fs w key content_type content files).0 ≡ ok obj
    → get_object fs true key (put_object fs w key content_type content files).1
      ≡ ok (content, stat key content)
unfolding put_object
put_object-get_object fs w key content_type content files obj h =
    elim (Option-cases (path fs key)) [
      | inl n ↦ absurd (cc (sym h ∙ ap (λ o. (put_at w key content_type content o files).0) n))
      | inr (full, p) ↦
          let out = put_object fs w key content_type content files in
          get_object-found fs key full content out.1 p (
            succeeded out.0 obj content full files out.1 h (
              put_object-IsAtomic fs w key full content_type content files full p
                (full≢temporary w full)))
    ]
