-- ===== src/Api/Request.antt =====
-- internal/api/respond.go and server.go: what the handlers read of a request. The path's
-- identifier and the decoded body are arguments of a handler; a body that is not valid is `none`.
use xiesg0915_work.Prelude.{ℕ, String, Option, none, some, ◌==◌, if◌then◌else◌}
use xiesg0915_work.Prelude.Strings.{ℤ, pos, negsuc, atoi, trim_space}
use xiesg0915_work.Domain.Status.{AssetStatus}
use xiesg0915_work.Api.Reply.{fail, Handler}

-- The header and the query, which give an empty text for a name that is missing.
pub record Request : Type 0 where
  pub header : String → String
  pub query : String → String

unfoldable pub operator : Request → String
unfolding trim_space
operator r =
    let named = trim_space (r.header "X-Operator") in
    if named == "" then trim_space (r.query "operator") else named

-- `if !decode(w, r, &body) { return }`
abbrev pub decode : {A : Type 0} → Option A → (A → Handler) → Handler
decode none f m = (fail 400 "bad_request", m)
decode (some a) f m = f a m

abbrev natural_or : ℕ → Option ℤ → ℕ
natural_or def none = def
natural_or def (some (pos n)) = n
natural_or def (some (negsuc n)) = def

unfoldable pub atoi_default : String → ℕ → ℕ
unfolding atoi
atoi_default v def = if v == "" then def else natural_or def (atoi v)

-- The conversion domain.AssetStatus(s); `none` is a text that no asset has as its status.
unfoldable pub asset_status : String → Option AssetStatus
asset_status s =
    if s == ""
    then some AssetStatus.unset
    else if s == "in_service"
    then some AssetStatus.in_service
    else if s == "pending"
    then some AssetStatus.pending
    else if s == "disk_pulled"
    then some AssetStatus.disk_pulled
    else if s == "erasing"
    then some AssetStatus.erasing
    else if s == "erasure_verified"
    then some AssetStatus.erasure_verified
    else if s == "disposed"
    then some AssetStatus.disposed
    else if s == "scrapped"
    then some AssetStatus.scrapped
    else none
