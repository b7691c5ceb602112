-- ===== src/Objects/Remote.antt =====
-- internal/objectstore/s3.go: the S3 backend, over a server that answers requests in a state of its
-- own.
use Prim.Native.String.{◌++◌}
use xiesg0915_work.Prelude.{
  ℕ, String, Bool, true, false, Option, none, some, ◌==◌, eqb, ◌||◌, length, if◌then◌else◌,
}
use xiesg0915_work.Result.{not_found, other, Result, ok, err, Exec, pure, raise, ◌>>=◌}
use xiesg0915_work.Objects.{Bytes, Object}
use xiesg0915_work.Objects.Signed.{S3, SignedRequest, Crypto, escape_key, sign}

pub record Response : Type 0 where
  pub status : ℕ
  pub body : Bytes
  pub content_type : String
  pub content_length : ℕ

-- What http.Client.Do gives: no response where the connection fails.
abbrev pub Peer : Type 0 → Type 0
Peer T = SignedRequest → T → Option Response × T

abbrev pub received : {T : Type 0} → Option Response × T → Result Response × T
received (none, t) = (err (other "no response"), t)
received (some r, t) = (ok r, t)

abbrev pub send : {T : Type 0} → Peer T → SignedRequest → Exec T Response
send server r t = received (server r t)

abbrev pub request : (method url path content_type : String) → Option Bytes → SignedRequest
request method url path content_type body = record {
  method = method;
  url = url;
  path = path;
  content_type = content_type;
  body = body;
  amz_date = "";
  content_sha = "";
  authorization = "";
}

abbrev pub url : S3 → (key : String) → String
url s key = s.endpoint ++ ("/" ++ (s.bucket ++ ("/" ++ key)))

abbrev pub object_path : S3 → (key : String) → String
object_path s key = "/" ++ (s.bucket ++ ("/" ++ key))

-- The requests of Put and Get.
unfoldable pub put_request : S3 → Crypto → (key content_type : String) → Bytes → SignedRequest
unfolding escape_key sign
put_request s x key content_type content = sign s x (x.digest content) true (
    request "PUT" (url s (escape_key key)) (object_path s key)
      (if content_type == "" then "application/octet-stream" else content_type) (some content))

unfoldable pub get_request : S3 → Crypto → (key : String) → SignedRequest
unfolding escape_key sign
get_request s x key =
    sign s x "" false (request "GET" (url s (escape_key key)) (object_path s key) "" none)

-- What Put says of the object.
abbrev pub sent_object : Crypto → (key content_type : String) → Bytes → Object
sent_object x key content_type content = record {
  key = key;
  size = length content;
  sha256 = x.digest content;
  content_type = if content_type == "" then "application/octet-stream" else content_type;
  last_modified = "";
}

abbrev pub put_reply : Crypto → (key content_type : String) → Bytes → Response → Result Object
put_reply x key content_type content r =
    if eqb r.status 200
    then ok (sent_object x key content_type content)
    else err (other "put: status")

abbrev pub get_reply : (key : String) → Response → Result (Bytes × Object)
get_reply key r =
    if eqb r.status 404
    then err (not_found "object not found")
    else if eqb r.status 200
    then ok (
      r.body,
      record {
        key = key;
        size = r.content_length;
        sha256 = "";
        content_type = r.content_type;
        last_modified = "";
      },
    )
    else err (other "get: status")

-- The location that the creation of a bucket names, as bytes, and its requests.
unfoldable pub head_bucket : S3 → Crypto → SignedRequest
unfolding sign
head_bucket s x =
    sign s x "" false (request "HEAD" (s.endpoint ++ ("/" ++ s.bucket)) ("/" ++ s.bucket) "" none)

unfoldable pub create_bucket : S3 → Crypto → (body : Bytes) → SignedRequest
unfolding sign
create_bucket s x body =
    sign s x "" true
      (request "PUT" (s.endpoint ++ ("/" ++ s.bucket)) ("/" ++ s.bucket) "" (some body))

abbrev pub is_created : Response → Bool
is_created r = eqb r.status 200 || eqb r.status 409

module _ {T : Type 0} (server : Peer T) (s : S3) (x : Crypto) where
  -- Put, of a content that was read in full.
  unfoldable pub put_remote : (key content_type : String) → Bytes → Exec T Object
  put_remote key content_type content =
      send server (put_request s x key content_type content) >>= λ r.
      λ t. (put_reply x key content_type content r, t)

  -- Get
  unfoldable pub get_remote : (key : String) → Exec T (Bytes × Object)
  get_remote key = send server (get_request s x key) >>= λ r. λ t. (get_reply key r, t)

  abbrev pub create_missing : Bytes → Exec T (Unit {0})
  create_missing body = send server (create_bucket s x body) >>= λ r.
      if is_created r then pure tt else raise (other "create bucket: status")

  -- EnsureBucket; `body` are the bytes of the configuration with the region.
  unfoldable pub ensure_bucket : (body : Bytes) → Exec T (Unit {0})
  ensure_bucket body = send server (head_bucket s x) >>= λ r.
      if eqb r.status 200
      then pure tt
      else if eqb r.status 404
      then create_missing body
      else raise (other "head bucket: unexpected status")
