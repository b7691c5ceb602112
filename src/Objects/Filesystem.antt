-- ===== src/Objects/Filesystem.antt =====
-- internal/objectstore/fs.go: objects as files. The state is the table of the files by their paths;
-- directories are not kept.
use Prim.Native.Char.{Char, code}
use Prim.Native.String.{◌++◌}
use text.Mathlib.Text.{starts_with}
use xiesg0915_work.Prelude.{
  String, Bool, true, false, not, ◌&&◌, Option, none, some, length, eqb, Table, lookup, put, remove,
  if◌then◌else◌,
}
use xiesg0915_work.Result.{not_found, other, Result, ok, err, Exec}
use xiesg0915_work.Objects.{Bytes, Object}
use xiesg0915_work.Objects.Paths.{clean, join}

abbrev pub Files : Type 0
Files = Table Bytes

pub record Filesystem : Type 0 where
  pub root : String
  pub bucket : String

-- The replacer of safe: what a character leads to, with or without a dot that waits before it.
abbrev pub emitted : (dot : Bool) → Char → String
emitted dot c =
    if eqb (code c) b'.'
    then if dot then "_" else ""
    else (if dot then "." else "") ++ (if eqb (code c) b'/' then "_" else String.◌∷◌ c String.[])

unfoldable pub safe_from : (dot : Bool) → String → String
safe_from dot String.[] = if dot then "." else ""
safe_from dot (String.◌∷◌ c s) = emitted dot c ++ safe_from (eqb (code c) b'.' && not dot) s

unfoldable pub safe : String → String
unfolding safe_from
safe s = safe_from false s

-- The calls of the system that fail, the suffix of the temporary file, what is copied of a content
-- before the copy fails, and crypto/sha256.
pub record Disturbance : Type 0 where
  pub mkdir_fails : Bool
  pub open_fails : Bool
  pub copied : Option Bytes
  pub sync_fails : Bool
  pub remove_fails : Bool
  pub rename_fails : Bool
  pub suffix : String
  pub digest : Bytes → String

-- os.Remove, whose error is dropped, and os.Rename
abbrev pub discard : (fails : Bool) → (tmp : String) → Files → Files
discard fails tmp files = if fails then files else remove tmp files

abbrev pub moved : (tmp full : String) → Files → Option Bytes → Files
moved tmp full files none = files
moved tmp full files (some content) = put full content (remove tmp files)

abbrev pub rename : (tmp full : String) → Files → Files
rename tmp full files = moved tmp full files (lookup tmp files)

abbrev pub temporary : Disturbance → (full : String) → String
temporary w full = full ++ (".tmp." ++ w.suffix)

abbrev pub described : Disturbance → (key content_type : String) → Bytes → Object
described w key content_type content = record {
  key = key;
  size = length content;
  sha256 = w.digest content;
  content_type = content_type;
  last_modified = "";
}

-- Put behind the path: the temporary file is written, synced, and renamed.
unfoldable pub write_file :
    Disturbance → (key full content_type : String) → Bytes → Exec Files Object
write_file w key full content_type content files =
    let tmp = temporary w full in
    if w.mkdir_fails
    then (err (other "mkdir"), files)
    else if w.open_fails
    then (err (other "open"), files)
    else elim w.copied [
      | some part ↦ (err (other "copy"), discard w.remove_fails tmp (put tmp part files))
      | none ↦
          let written = put tmp content files in
          if w.sync_fails
          then (err (other "sync"), discard w.remove_fails tmp written)
          else if w.rename_fails
          then (err (other "rename"), written)
          else (ok (described w key content_type content), rename tmp full written)
    ]

abbrev pub put_at :
    Disturbance → (key content_type : String) → Bytes → Option String → Exec Files Object
put_at w key content_type content none files = (err (other "invalid key"), files)
put_at w key content_type content (some full) files =
    write_file w key full content_type content files

-- What Get says of the object.
abbrev pub stat : (key : String) → Bytes → Object
stat key content = record {
  key = key;
  size = length content;
  sha256 = "";
  content_type = "";
  last_modified = "";
}

abbrev pub read_file : (readable : Bool) → (key : String) → Option Bytes → Result (Bytes × Object)
read_file readable key none = err (not_found "object")
read_file true key (some content) = ok (content, stat key content)
read_file false key (some content) = err (other "open")

abbrev pub get_at :
    (readable : Bool) → (key : String) → Option String → Files → Result (Bytes × Object)
get_at readable key none files = err (other "invalid key")
get_at readable key (some full) files = read_file readable key (lookup full files)

module _ (fs : Filesystem) where
  unfoldable pub dir : String
  unfolding join safe
  dir = join fs.root (safe fs.bucket)

  unfoldable pub path : (key : String) → Option String
  unfolding dir clean join
  path key =
      let full = join dir (clean ("/" ++ key)) in if starts_with full dir then some full else none

  -- Put
  unfoldable pub put_object : Disturbance → (key content_type : String) → Bytes → Exec Files Object
  unfolding path write_file
  put_object w key content_type content = put_at w key content_type content (path key)

  -- Get; `readable` is whether an existing file can be opened and measured.
  unfoldable pub get_object : (readable : Bool) → (key : String) → Files → Result (Bytes × Object)
  unfolding path
  get_object readable key = get_at readable key (path key)
