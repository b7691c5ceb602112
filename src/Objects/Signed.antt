-- ===== src/Objects/Signed.antt =====
-- internal/objectstore/s3.go: escaping and the signature of a request (AWS Signature V4).
use Prim.Native.Char.{code}
use Prim.Native.String.{◌++◌}
use xiesg0915_work.Prelude.{
  ℕ, ◌+◌, ◌/◌, ◌%◌, String, Bool, Option, none, some, List, [], ◌∷◌, ◌==◌, ◌&&◌, ◌||◌, eqb, ltb,
  leb, get_elem?, if◌then◌else◌,
}
use xiesg0915_work.Prelude.Strings.{split}
use xiesg0915_work.Objects.{Bytes}

abbrev or_empty : Option String → String
or_empty none = ""
or_empty (some s) = s

-- One byte as net/url escapes it.
abbrev percent : ℕ → String
percent b = "%" ++ (digit (b / 16) ++ digit (b % 16))
  where
    digits : List String
    digits =
        "0" ∷ "1" ∷ "2" ∷ "3" ∷ "4" ∷ "5" ∷ "6" ∷ "7" ∷ "8" ∷ "9" ∷ "A" ∷ "B" ∷ "C" ∷ "D" ∷ "E"
        ∷ "F" ∷ []

    digit : ℕ → String
    digit n = or_empty (get_elem? digits n)

-- The bytes of a character in UTF-8, each escaped.
abbrev percents : ℕ → String
percents n =
    if ltb n 0x80
    then percent n
    else if ltb n 0x800
    then percent (0xC0 + n / 0x40) ++ percent (0x80 + n % 0x40)
    else if ltb n 0x10000
    then percent (0xE0 + n / 0x1000)
      ++ (percent (0x80 + n / 0x40 % 0x40) ++ percent (0x80 + n % 0x40))
    else percent (0xF0 + n / 0x40000)
      ++ (percent (0x80 + n / 0x1000 % 0x40)
          ++ (percent (0x80 + n / 0x40 % 0x40) ++ percent (0x80 + n % 0x40)))

abbrev is_unreserved : ℕ → Bool
is_unreserved n =
    leb b'a' n && leb n b'z'
    || leb b'A' n && leb n b'Z'
    || leb b'0' n && leb n b'9'
    || eqb n b'-'
    || eqb n b'_'
    || eqb n b'.'
    || eqb n b'~'

-- What url.PathEscape, and what (*url.URL).EscapedPath leave as it is.
abbrev pub in_segment : ℕ → Bool
in_segment n =
    is_unreserved n
    || eqb n b'$'
    || eqb n b'&'
    || eqb n b'+'
    || eqb n b'='
    || eqb n b':'
    || eqb n b'@'

abbrev pub in_path : ℕ → Bool
in_path n = in_segment n || eqb n b'/' || eqb n b';' || eqb n b','

unfoldable pub escape : (ℕ → Bool) → String → String
escape keeps String.[] = ""
escape keeps (String.◌∷◌ c s) =
    let rest = escape keeps s in
    if keeps (code c) then String.◌∷◌ c rest else percents (code c) ++ rest

-- The parts of a key, each escaped, joined by "/".
unfoldable pub escape_parts : List String → String
unfolding escape
escape_parts [] = ""
escape_parts (p ∷ []) = escape in_segment p
escape_parts (p ∷ q ∷ ps) = escape in_segment p ++ ("/" ++ escape_parts (q ∷ ps))

unfoldable pub escape_key : String → String
unfolding escape_parts split
escape_key key = escape_parts (split b'/' key)

pub record S3 : Type 0 where
  pub endpoint : String
  pub host : String
  pub key : String
  pub secret : String
  pub bucket : String
  pub region : String

-- A request as it is sent; `path` is the path of its URL with the escapes undone.
pub record SignedRequest : Type 0 where
  pub method : String
  pub url : String
  pub path : String
  pub content_type : String
  pub body : Option Bytes
  pub amz_date : String
  pub content_sha : String
  pub authorization : String

-- The clock's reading in its two formats, crypto/sha256 in hexadecimal digits of a content and of a
-- text, and crypto/hmac, with a text for the bytes of a key and in hexadecimal digits.
pub record Crypto : Type 0 where
  pub amz_date : String
  pub date_stamp : String
  pub digest : Bytes → String
  pub text_digest : String → String
  pub hmac : (key message : String) → String
  pub hmac_hex : (key message : String) → String

-- The digest of no bytes, as the source has it.
abbrev pub empty_sha : String
empty_sha = "e3b0c44298fc1c149afbf4c8996fb92427ae41e4649b934ca495991b7852b855"

-- The headers that are signed stand in their order already. TrimSpace of their values is left out:
-- none of them begins or ends with a space.
abbrev pub signed_headers : String
signed_headers = "content-type;host;x-amz-content-sha256;x-amz-date"

abbrev pub canonical_request : S3 → SignedRequest → String
canonical_request s r =
    r.method
    ++ ("\n"
        ++ (escape in_path r.path
            ++ ("\n\ncontent-type:"
                ++ (r.content_type
                    ++ ("\nhost:"
                        ++ (s.host
                            ++ ("\nx-amz-content-sha256:"
                                ++ (r.content_sha
                                    ++ ("\nx-amz-date:"
                                        ++ (r.amz_date
                                            ++ ("\n\n"
                                                ++ (signed_headers
                                                    ++ ("\n" ++ r.content_sha)))))))))))))

abbrev pub scope : S3 → Crypto → String
scope s x = x.date_stamp ++ ("/" ++ (s.region ++ "/s3/aws4_request"))

abbrev pub string_to_sign : S3 → Crypto → SignedRequest → String
string_to_sign s x r =
    "AWS4-HMAC-SHA256\n"
    ++ (x.amz_date ++ ("\n" ++ (scope s x ++ ("\n" ++ x.text_digest (canonical_request s r)))))

abbrev pub signing_key : S3 → Crypto → String
signing_key s x =
    x.hmac (x.hmac (x.hmac (x.hmac ("AWS4" ++ s.secret) x.date_stamp) s.region) "s3") "aws4_request"

abbrev pub authorization : S3 → Crypto → SignedRequest → String
authorization s x r =
    "AWS4-HMAC-SHA256 Credential="
    ++ (escape in_segment s.key
        ++ ("/"
            ++ (scope s x
                ++ (", SignedHeaders="
                    ++ (signed_headers
                        ++ (", Signature="
                            ++ x.hmac_hex (signing_key s x) (string_to_sign s x r)))))))

-- The headers that are set before the signature.
abbrev pub prepared :
    Crypto → (content_sha : String) → (payload : Bool) → SignedRequest → SignedRequest
prepared x content_sha payload r = record r {
  amz_date = x.amz_date;
  content_sha = if content_sha == "" then empty_sha else content_sha;
  content_type =
      if r.content_type == "" && payload then "application/octet-stream" else r.content_type;
}

unfoldable pub sign :
    S3 → Crypto → (content_sha : String) → (payload : Bool) → SignedRequest → SignedRequest
unfolding escape
sign s x content_sha payload r =
    let r' = prepared x content_sha payload r in record r' { authorization = authorization s x r' }
