-- ===== src/Worker/Names.antt =====
-- internal/worker/worker.go: certNumber, sanitize, shortSerial; helpers.go: operatorOf;
-- internal/config/config.go: AllowedDevicePath.
use Prim.Native.Char.{Char, code}
use Prim.Native.String.{◌++◌}
use text.Mathlib.Text.{starts_with}
use xiesg0915_work.Prelude.{
  ℕ, zero, suc, ◌+◌, ◌-◌, String, Bool, false, not, ◌&&◌, ◌||◌, List, [], ◌∷◌, ◌==◌, ltb, leb,
  if◌then◌else◌,
}
use xiesg0915_work.Domain.Entities.{Time, Asset, Disk, ErasureJob}
use xiesg0915_work.Erasure.Stream.{text_length}

-- The library's formats: a time as "20060102" and a number as "%03d".
pub record Formats : Type 0 where
  pub date : Time → String
  pub three_digits : ℕ → String

abbrev is_alphanumeric : Char → Bool
is_alphanumeric c =
    leb b'a' (code c) && leb (code c) b'z'
    || leb b'A' (code c) && leb (code c) b'Z'
    || leb b'0' (code c) && leb (code c) b'9'

-- The loop of sanitize and its cut: at most `room` characters are kept.
unfoldable pub keep_alphanumeric : ℕ → String → String
keep_alphanumeric room String.[] = String.[]
keep_alphanumeric zero (String.◌∷◌ c s) = String.[]
keep_alphanumeric (suc room) (String.◌∷◌ c s) =
    let kept = String.◌∷◌ c (keep_alphanumeric room s) in
    let dropped = keep_alphanumeric (suc room) s in if is_alphanumeric c then kept else dropped

unfoldable pub sanitize : String → String
unfolding keep_alphanumeric
sanitize s = let out = keep_alphanumeric 12 s in if out == "" then "X" else out

unfoldable pub drop_text : ℕ → String → String
drop_text zero s = s
drop_text (suc n) String.[] = String.[]
drop_text (suc n) (String.◌∷◌ c s) = drop_text n s

-- The last eight bytes; a serial number is ASCII.
unfoldable pub short_serial : String → String
unfolding text_length drop_text
short_serial s = if ltb 8 (text_length s) then drop_text (text_length s - 8) s else s

unfoldable pub cert_number : Formats → Asset → Disk → ErasureJob → Time → String
unfolding sanitize short_serial
cert_number f asset disk job t =
    "CERT-"
    ++ (f.date t
        ++ ("-"
            ++ (sanitize asset.tag
                ++ ("-"
                    ++ (sanitize (short_serial disk.serial)
                        ++ ("-" ++ f.three_digits (job.attempt + 1)))))))

unfoldable pub operator_of : ErasureJob → String
operator_of j = if not (j.created_by == "") then j.created_by else "system"

-- AllowedDevicePath over the prefixes as strings.Split and strings.TrimSpace give them.
unfoldable pub allowed_device_path : List String → String → Bool
allowed_device_path [] p = false
allowed_device_path (pref ∷ rest) p =
    not (pref == "") && starts_with p pref || allowed_device_path rest p
