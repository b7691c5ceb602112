-- ===== src/Scenarios/Buckets.antt =====
-- The S3 backend over two servers: one that keeps objects, and one without the bucket that checks
-- digests.
use Prim.Native.String.{◌++◌}
use xiesg0915_work.Prelude.{
  ℕ, ◌≡◌, ◌≢◌, refl, Option, none, some, [], ◌∷◌, ◌==◌, String, Table, lookup, put, if◌then◌else◌,
}
use xiesg0915_work.Result.{Error, err}
use xiesg0915_work.Objects.{Bytes}
use xiesg0915_work.Objects.Signed.{S3, SignedRequest, Crypto, sign}
use xiesg0915_work.Objects.Verification.{expected}
use xiesg0915_work.Objects.Remote.{Response, Peer, url, ensure_bucket, head_bucket}
use xiesg0915_work.Objects.Exchange.{ensure_bucket-refused}

abbrev minio : S3
minio = record {
  endpoint = "http://minio:9000";
  host = "minio:9000";
  key = "access";
  secret = "secret";
  bucket = "decommission";
  region = "us-east-1";
}

abbrev crypto : Crypto
crypto = record {
  amz_date = "20240101T000000Z";
  date_stamp = "20240101";
  digest = λ c. "d";
  text_digest = λ t. t;
  hmac = λ k m. k ++ m;
  hmac_hex = λ k m. k ++ ("/" ++ m);
}

abbrev answer : (status : ℕ) → Bytes → Response
answer status content = record {
  status = status;
  body = content;
  content_type = "";
  content_length = 0;
}

abbrev body_of : Option Bytes → Bytes
body_of none = []
body_of (some c) = c

abbrev kept : Option Bytes → Option Response
kept none = some (answer 404 [])
kept (some c) = some (answer 200 c)

-- A table of contents by their URLs, behind a check of the signature.
keeper : Peer (Table Bytes)
keeper r t =
    if r.authorization == expected minio crypto r
    then (if r.method == "PUT"
        then (some (answer 200 []), put r.url (body_of r.body) t)
        else (kept (lookup r.url t), t))
    else (some (answer 403 []), t)

abbrev objects : Table Bytes → String → Option Bytes
objects t key = lookup (url minio key) t

abbrev archive : Bytes
archive = 1 ∷ 2 ∷ []

-- The object `r2` is there before, and asked for behind a Put of `r1`.
abbrev earlier : Table Bytes
earlier = ("http://minio:9000/decommission/r2", 7 ∷ []) ∷ []

-- It refuses every body, since no digest fits.
strict : Peer (Unit {0})
strict r t = elim r.body [ none ↦ (some (answer 404 []), t) | some c ↦ (some (answer 400 []), t) ]

strict-refuses :
    (r : SignedRequest) (c : Bytes) (u : Unit {0})
    → r.body ≡ some c
    → r.content_sha ≢ crypto.digest c
    → (q : Response) × (u' : Unit {0}) × (strict r u ≡ (some q, u')) × (q.status ≡ 400)
unfolding strict
strict-refuses r c u b n = (answer 400 [], u, rw b refl, refl)

ensure_bucket-refused_example :
    (e : Error) × ((ensure_bucket strict minio crypto (60 ∷ []) tt).0 ≡ err e)
unfolding strict head_bucket sign
ensure_bucket-refused_example =
    ensure_bucket-refused strict minio crypto (60 ∷ []) tt tt (answer 404 []) strict-refuses refl
      refl (λ e. cc)
