-- ===== src/Objects/Exchange.antt =====
-- internal/objectstore/s3.go: what a server that keeps objects, and checks what it is sent, answers.
use xiesg0915_work.Prelude.{String, ◌≡◌, ◌≢◌, refl, ap, some, sym}
use xiesg0915_work.Result.{Error, other, err}
use xiesg0915_work.Objects.{Bytes}
use xiesg0915_work.Objects.Signed.{S3, SignedRequest, Crypto, empty_sha, sign}
use xiesg0915_work.Objects.Verification.{expected}
use xiesg0915_work.Objects.Remote.{
  Response, Peer, received, create_missing, head_bucket, create_bucket, ensure_bucket,
}

-- A request that a server with the secret of `s` accepts: it bears the date, declares the digest
-- `sha` of its body, and its signature is the one that the description asks for, for the path
-- `path` of its URL.
pub record IsAuthentic (s : S3) (x : Crypto) (sha path : String) (r : SignedRequest) : Type 0 where
  pub dated : r.amz_date ≡ x.amz_date
  pub declared : r.content_sha ≡ sha
  pub located : r.path ≡ path
  pub signed : r.authorization ≡ expected s x r

module _ {T : Type 0} (server : Peer T) (s : S3) (x : Crypto) where
  create_bucket-answered :
      (body : Bytes) (t t' : T) (q : Response)
      → server (create_bucket s x body) t ≡ (some q, t')
      → q.status ≡ 400
      → (e : Error) × ((create_missing server s x body t).0 ≡ err e)
  create_bucket-answered body t t' q e h =
      (other "create bucket: status", rw (ap received e) (rw h refl))

  -- The server refuses a request with a body whose digest is not the declared one, as S3 does, and
  -- has no bucket yet. Then EnsureBucket fails to create it, whatever its region, since it declares
  -- the digest of no bytes for the body that it sends.
  pub ensure_bucket-refused :
      (body : Bytes) (t t' : T) (p : Response)
      → ((r : SignedRequest) (c : Bytes) (u : T)
          → r.body ≡ some c
          → r.content_sha ≢ x.digest c
          → (q : Response) × (u' : T) × (server r u ≡ (some q, u')) × (q.status ≡ 400))
      → server (head_bucket s x) t ≡ (some p, t')
      → p.status ≡ 404
      → x.digest body ≢ empty_sha
      → (e : Error) × ((ensure_bucket server s x body t).0 ≡ err e)
  unfolding ensure_bucket create_bucket sign
  ensure_bucket-refused body t t' p strict e h n =
      let refused = strict (create_bucket s x body) body t' refl (λ d. n (sym d)) in
      let failed = create_bucket-answered body t' refused.1 refused.0 refused.2 refused.3 in
      (failed.0, rw (ap received e) (rw h failed.1))
