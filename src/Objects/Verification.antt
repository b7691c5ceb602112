-- ===== src/Objects/Verification.antt =====
-- internal/objectstore/s3.go: the check of a signed request by a server that knows the secret, from
-- the description of AWS Signature V4, as the server of s3_test.go does it.
use Prim.Native.String.{◌++◌}
use text.Mathlib.TextLemmas.{append_assoc, nil-append}
use xiesg0915_work.Prelude.{String, ◌≡◌, refl, ap, sym, ◌∙◌, List, [], ◌∷◌}
use xiesg0915_work.Objects.Signed.{
  S3, SignedRequest, Crypto, escape, in_path, in_segment, canonical_request, string_to_sign,
  authorization,
}

-- strings.Join with line ends.
abbrev pub lines : List String → String
lines [] = ""
lines (s ∷ []) = s
lines (s ∷ t ∷ ts) = s ++ ("\n" ++ lines (t ∷ ts))

abbrev pub expected_request : S3 → SignedRequest → String
expected_request s r = lines (
    r.method
    ∷ escape in_path r.path
    ∷ ""
    ∷ ("content-type:" ++ r.content_type)
    ∷ ("host:" ++ s.host)
    ∷ ("x-amz-content-sha256:" ++ r.content_sha)
    ∷ ("x-amz-date:" ++ r.amz_date)
    ∷ ""
    ∷ "content-type;host;x-amz-content-sha256;x-amz-date"
    ∷ r.content_sha
    ∷ [])

abbrev pub expected_scope : S3 → Crypto → String
expected_scope s x = x.date_stamp ++ ("/" ++ (s.region ++ "/s3/aws4_request"))

abbrev pub expected_signature : S3 → Crypto → SignedRequest → String
expected_signature s x r =
    let by_date = x.hmac ("AWS4" ++ s.secret) x.date_stamp in
    let by_region = x.hmac by_date s.region in
    let by_service = x.hmac by_region "s3" in
    x.hmac_hex (x.hmac by_service "aws4_request") (
      lines (
        "AWS4-HMAC-SHA256"
        ∷ x.amz_date
        ∷ expected_scope s x
        ∷ x.text_digest (expected_request s r)
        ∷ []))

-- The header Authorization, with the signature that the server computes.
abbrev pub expected : S3 → Crypto → SignedRequest → String
expected s x r =
    "AWS4-HMAC-SHA256 Credential="
    ++ (escape in_segment s.key
        ++ ("/"
            ++ (expected_scope s x
                ++ (", SignedHeaders="
                    ++ ("content-type;host;x-amz-content-sha256;x-amz-date"
                        ++ (", Signature=" ++ expected_signature s x r))))))

-- A line that is a literal before `v`, behind the end of the line before it.
line :
    (name v rest rest' : String)
    → rest ≡ rest'
    → "\n" ++ ((name ++ v) ++ rest) ≡ ("\n" ++ name) ++ (v ++ rest')
line name v rest rest' e =
    ap (λ t. "\n" ++ t) (append_assoc name v rest)
    ∙ sym (append_assoc "\n" name (v ++ rest))
    ∙ ap (λ t. ("\n" ++ name) ++ (v ++ t)) e

-- An empty line.
empty_line :
    (name rest rest' : String)
    → rest ≡ name ++ rest'
    → "\n" ++ ("" ++ rest) ≡ ("\n" ++ name) ++ rest'
empty_line name rest rest' e =
    ap (λ t. "\n" ++ t) (nil-append rest ∙ e) ∙ sym (append_assoc "\n" name rest')

canonical_lem : (s : S3) (r : SignedRequest) → expected_request s r ≡ canonical_request s r
canonical_lem s r =
    ap (λ t. r.method ++ ("\n" ++ (escape in_path r.path ++ t)))
      (empty_line "\ncontent-type:" _ _ (
        line "content-type:" r.content_type _ _ (
          line "host:" s.host _ _ (
            line "x-amz-content-sha256:" r.content_sha _ _
              (line "x-amz-date:" r.amz_date _ _ (empty_line "\n" _ _ refl))))))

to_sign_lem :
    (s : S3) (x : Crypto) (r : SignedRequest)
    → lines (
        "AWS4-HMAC-SHA256"
        ∷ x.amz_date
        ∷ expected_scope s x
        ∷ x.text_digest (expected_request s r)
        ∷ [])
      ≡ string_to_sign s x r
to_sign_lem s x r =
    sym (append_assoc "AWS4-HMAC-SHA256" "\n" _)
    ∙ ap
        (λ c.
          "AWS4-HMAC-SHA256\n"
          ++ (x.amz_date ++ ("\n" ++ (expected_scope s x ++ ("\n" ++ x.text_digest c)))))
        (canonical_lem s r)

-- The header that is sent is the one that the server computes, whatever the request.
pub authorization-expected :
    (s : S3) (x : Crypto) (r : SignedRequest) → authorization s x r ≡ expected s x r
authorization-expected s x r =
    ap
      (λ c.
        "AWS4-HMAC-SHA256 Credential="
        ++ (escape in_segment s.key
            ++ ("/"
                ++ (expected_scope s x
                    ++ (", SignedHeaders="
                        ++ ("content-type;host;x-amz-content-sha256;x-amz-date"
                            ++ (", Signature="
                                ++ x.hmac_hex
                                    (x.hmac
                                      (x.hmac
                                        (x.hmac (x.hmac ("AWS4" ++ s.secret) x.date_stamp) s.region)
                                        "s3")
                                      "aws4_request")
                                    c)))))))
      (sym (to_sign_lem s x r))
