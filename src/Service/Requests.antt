-- ===== src/Service/Requests.antt =====
-- internal/service/service.go: registration and the decommission requests. The i-th call of the
-- store in a method reads the clock and the random source as `env i` says.
use xiesg0915_work.Prelude.{
  ℕ, ◌+◌, String, Bool, not, ◌||◌, none, some, List, [], ◌∷◌, ◌==◌, leb, if◌then◌else◌,
}
use xiesg0915_work.Result.{
  not_found, conflict, other, Result, ok, err, Exec, pure, raise, attempt, require, ◌>>=◌, ◌>>◌,
}
use xiesg0915_work.Domain.Status.{
  AssetStatus, ApprovalStatus, same_asset_status, same_approval_status,
}
use xiesg0915_work.Domain.Entities.{Asset, DecommissionApproval, Standard}
use xiesg0915_work.Domain.Standards.{get_standard}
use xiesg0915_work.Store.State.{Memory, Env}
use xiesg0915_work.Store.Assets.{zero_asset, create_asset, get_asset, get_asset_by_tag}
use xiesg0915_work.Store.Approvals.{
  create_approval, get_approval, get_active_approval, list_approvals, review_approval,
  withdraw_approval,
}

abbrev pub Envs : Type 0
Envs = ℕ → Env

pub record RegisterInput : Type 0 where
  pub tag : String
  pub hostname : String
  pub vendor : String
  pub model : String
  pub sn : String
  pub room : String
  pub rack : String
  pub owner : String
  pub operator : String

-- The asset that a registration creates.
abbrev pub registration : RegisterInput → Asset
registration i = record zero_asset {
  tag = i.tag;
  hostname = i.hostname;
  vendor = i.vendor;
  model = i.model;
  sn = i.sn;
  room = i.room;
  rack = i.rack;
  owner = i.owner;
  status = AssetStatus.pending;
  registered_by = i.operator;
}

unfoldable pub register_asset : Envs → RegisterInput → Exec Memory Asset
register_asset env i = do
  require (not (i.tag == "")) (conflict "tag is required")
  require (not (i.operator == "")) (conflict "operator is required")
  create_asset (env 0) (registration i)
  get_asset_by_tag i.tag

pub record ApprovalInput : Type 0 where
  pub standard : String
  pub method : String
  pub reason : String
  pub operator : String

-- `switch in.Method { case "reuse", "resale", "destroy": … }`
unfoldable pub known_method : String → Bool
known_method s = s == "reuse" || s == "resale" || s == "destroy"

abbrev pub find_standard : String → Exec Memory Standard
find_standard code m = elim (get_standard code) [
  | none ↦ (err (conflict "unknown erasure standard"), m)
  | some s ↦ (ok s, m)
]

-- No open request of the asset is wanted: finding one is the conflict, another error is passed on.
abbrev pub no_active : Result DecommissionApproval → Exec Memory (Unit {0})
no_active (ok ap) = raise (conflict "asset already has an active approval")
no_active (err (not_found e)) = pure tt
no_active (err (conflict e)) = raise (conflict e)
no_active (err (other e)) = raise (other e)

-- The loop for the next version.
unfoldable pub next_version : ℕ → List DecommissionApproval → ℕ
next_version v [] = v
next_version v (p ∷ ps) = next_version (if leb v p.version then p.version + 1 else v) ps

abbrev pub version_after : Result (List DecommissionApproval) → ℕ
version_after (ok ps) = next_version 1 ps
version_after (err e) = 1

-- The request that a submission creates.
abbrev pub submission :
    String → String → Asset → Standard → ApprovalInput → ℕ → DecommissionApproval
submission id asset_id a std i version = record {
  id = id;
  asset_id = asset_id;
  asset_tag = a.tag;
  standard = std.code;
  method = i.method;
  reason = i.reason;
  applicant = i.operator;
  status = ApprovalStatus.pending;
  reviewer = "";
  review_note = "";
  reviewed_at = none;
  version = version;
  created_at = 0;
  updated_at = 0;
}

unfoldable pub submit_approval : Envs → String → ApprovalInput → Exec Memory DecommissionApproval
unfolding next_version
submit_approval env asset_id i = do
  require (not (i.operator == "")) (conflict "operator is required")
  a ← get_asset asset_id
  require (a.owner == "" || i.operator == a.owner) (conflict "only the asset owner may submit")
  require (same_asset_status a.status AssetStatus.pending) (conflict "asset already in execution")
  std ← find_standard i.standard
  require (known_method i.method) (conflict "method must be reuse|resale|destroy")
  open_one ← attempt (get_active_approval asset_id)
  no_active open_one
  prev ← attempt (list_approvals asset_id)
  create_approval (env 0) (submission (env 0).fresh_id asset_id a std i (version_after prev))
  get_approval (env 0).fresh_id

unfoldable pub review :
    Envs → (approval_id reviewer : String) → Bool → String → Exec Memory DecommissionApproval
review env approval_id reviewer approve note = do
  require (not (reviewer == "")) (conflict "operator is required")
  ap ← get_approval approval_id
  require (same_approval_status ap.status ApprovalStatus.pending)
      (conflict "only pending requests can be reviewed")
  require (not (reviewer == ap.applicant)) (conflict "applicant cannot review their own request")
  require (approve || not (note == "")) (conflict "review note is required when rejecting")
  review_approval (env 0) approval_id
      (if approve then ApprovalStatus.approved else ApprovalStatus.rejected) reviewer note

unfoldable pub withdraw : Envs → (approval_id operator : String) → Exec Memory DecommissionApproval
withdraw env approval_id operator = do
  require (not (operator == "")) (conflict "operator is required")
  ap ← get_approval approval_id
  require (operator == ap.applicant) (conflict "only the applicant may withdraw the request")
  withdraw_approval (env 0) approval_id operator

-- approvedApproval
abbrev pub gate_on : Result DecommissionApproval → Exec Memory DecommissionApproval
gate_on (ok ap) = do
  require (same_approval_status ap.status ApprovalStatus.approved)
      (conflict "execution is allowed only after security review passes")
  pure ap
gate_on (err (not_found e)) = raise (conflict "asset has no approved decommission request")
gate_on (err (conflict e)) = raise (conflict e)
gate_on (err (other e)) = raise (other e)

unfoldable pub approved_approval : String → Exec Memory DecommissionApproval
approved_approval asset_id = do found ← attempt (get_active_approval asset_id); gate_on found
