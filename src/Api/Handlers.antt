-- ===== src/Api/Handlers.antt =====
-- internal/api/server.go: the handlers.
use text.Mathlib.Text.{starts_with}
use xiesg0915_work.Prelude.{
  ℕ, String, Bool, Option, none, some, List, [], ◌∷◌, ◌==◌, ltb, if◌then◌else◌,
}
use xiesg0915_work.Prelude.Strings.{split}
use xiesg0915_work.Result.{not_found, conflict, other, Result, ok, err, Exec, ◌>>=◌, attempt, pure}
use xiesg0915_work.Domain.Standards.{standards}
use xiesg0915_work.Domain.Entities.{
  Time, Disk, Standard, AuditLog, VerifyResult, DecommissionApproval,
}
use xiesg0915_work.Store.State.{Memory}
use xiesg0915_work.Store.Assets.{list_assets}
use xiesg0915_work.Store.Disks.{list_disks}
use xiesg0915_work.Store.Jobs.{list_jobs}
use xiesg0915_work.Store.Approvals.{list_approvals}
use xiesg0915_work.Store.Documents.{AuditFilter, get_certificate, list_audit}
use xiesg0915_work.Objects.{Bytes, Object}
use xiesg0915_work.Service.Requests.{
  Envs, RegisterInput, ApprovalInput, register_asset, submit_approval, review, withdraw,
}
use xiesg0915_work.Service.Execution.{
  DiskInput, DisposalInput, pull_disks, create_erasure_job, scrap_disk, confirm_disposal,
}
use xiesg0915_work.Api.Reply.{
  Payload, Reply, Handler, DiskItem, ApprovalItem, ok_reply, created, fail, respond,
}
use xiesg0915_work.Api.Request.{Request, operator, decode, atoi_default, asset_status}

-- The type Server, and the readings of the clock and the random source. ErrObjectNotFound is
-- `not_found`. `in_some_order` is the order of an iteration over a map.
pub record Server : Type 0 where
  pub backend : String
  pub object : (key : String) → Result (Bytes × Object)
  pub worker : Option ((disk_id operator : String) → Exec Memory VerifyResult)
  pub env : Envs
  pub now : Time
  pub in_some_order : List Standard → List Standard

unfoldable pub last_part : List String → String
last_part [] = ""
last_part (p ∷ []) = p
last_part (p ∷ q ∷ ps) = last_part (q ∷ ps)

-- `key[strings.LastIndex(key, "/")+1:]`
unfoldable pub file_name : String → String
unfolding last_part split
file_name key = last_part (split b'/' key)

-- A result whose error is dropped, which leaves the empty slice.
abbrev pub or_nothing : {A : Type 0} → Result (List A) → List A
or_nothing (ok items) = items
or_nothing (err e) = []

abbrev pub audit_of : (entity_type entity_id : String) → (limit : ℕ) → AuditFilter
audit_of entity_type entity_id limit = record {
  entity_type = entity_type;
  entity_id = entity_id;
  actor = "";
  limit = limit;
  offset = 0;
}

-- The events of one entity.
unfoldable pub events : (entity_type entity_id : String) → (limit : ℕ) → Exec Memory (List AuditLog)
events entity_type entity_id limit = do
  page ← list_audit (audit_of entity_type entity_id limit)
  pure page.0

-- The loops of assetTimeline over the disks and over the requests.
unfoldable pub disk_items : List Disk → Exec Memory (List DiskItem)
unfolding events
disk_items [] = pure []
disk_items (d ∷ ds) = do
  ev ← attempt (events "disk" d.id 200)
  js ← attempt (list_jobs d.id)
  rest ← disk_items ds
  pure (
      record {
        id = d.id;
        serial = d.serial;
        status = d.status;
        events = or_nothing ev;
        jobs = or_nothing js;
      }
      ∷ rest)

unfoldable pub approval_items : List DecommissionApproval → Exec Memory (List ApprovalItem)
unfolding events
approval_items [] = pure []
approval_items (ap ∷ aps) = do
  ev ← attempt (events "approval" ap.id 50)
  rest ← approval_items aps
  pure (record { approval = ap; events = or_nothing ev } ∷ rest)

unfoldable pub timeline : (asset_id : String) → Exec Memory Payload
unfolding events disk_items approval_items
timeline id = do
  logs ← events "asset" id 500
  ds ← list_disks id
  disks ← disk_items ds
  aps ← list_approvals id
  approvals ← approval_items aps
  pure (Payload.timeline logs disks approvals)

-- A status that no asset has selects nothing.
unfoldable pub search_assets : (status tag : String) → (limit offset : ℕ) → Exec Memory Payload
unfolding asset_status
search_assets status tag limit offset m = elim (asset_status status) [
  | none ↦ (ok (Payload.assets [] 0 limit offset), m)
  | some st ↦
      (list_assets (record { status = st; tag = tag; limit = limit; offset = offset }) >>= λ found.
      pure (Payload.assets found.0 found.1 limit offset))
        m
]

abbrev pub sent : (key content_type : String) → Bytes → Object → Reply
sent key content_type content obj =
    let type = if obj.content_type == "" then content_type else obj.content_type in
    let length = if ltb 0 obj.size then some obj.size else none in
    let name = if starts_with type "text/html" then none else some (file_name key) in
    ok_reply (Payload.stream type length name content)

-- streamObject
abbrev pub streamed : (key content_type : String) → Result (Bytes × Object) → Reply
streamed key content_type (ok (content, obj)) = sent key content_type content obj
streamed key content_type (err (not_found e)) = fail 404 "not_found"
streamed key content_type (err (conflict e)) = fail 502 "object_error"
streamed key content_type (err (other e)) = fail 502 "object_error"

module _ (s : Server) (r : Request) where
  abbrev pub health : Handler
  health m = (ok_reply (Payload.health "ok" s.backend s.now), m)

  abbrev pub all_standards : Handler
  all_standards m = (ok_reply (Payload.standards (s.in_some_order standards)), m)

  unfoldable pub register : Option RegisterInput → Handler
  unfolding respond operator
  register body = decode body λ i.
      respond (λ a. created (Payload.asset a))
        (register_asset s.env (record i { operator = operator r }))

  unfoldable pub query_assets : Handler
  unfolding respond search_assets atoi_default
  query_assets = respond ok_reply (
      search_assets (r.query "status") (r.query "tag") (atoi_default (r.query "limit") 100)
        (atoi_default (r.query "offset") 0))

  unfoldable pub pull : (asset_id : String) → Option (List DiskInput) → Handler
  unfolding respond operator
  pull id body = decode body λ disks.
      respond (λ out. created (Payload.pulled out.0 out.1))
        (pull_disks s.env s.now id (operator r) disks)

  unfoldable pub dispose : (asset_id : String) → Option DisposalInput → Handler
  unfolding respond operator
  dispose id body = decode body λ i.
      respond (λ d. created (Payload.disposal d))
        (confirm_disposal s.env id (record i { operator = operator r }))

  unfoldable pub submit : (asset_id : String) → Option ApprovalInput → Handler
  unfolding respond operator
  submit id body = decode body λ i.
      respond (λ a. created (Payload.approval a))
        (submit_approval s.env id (record i { operator = operator r }))

  -- A decision that the body leaves out is not a rejection.
  abbrev pub decide : (approval_id : String) → Option Bool → (note : String) → Handler
  decide id none note m = (fail 400 "bad_request", m)
  decide id (some approve) note m =
      respond (λ a. ok_reply (Payload.approval a)) (review s.env id (operator r) approve note) m

  unfoldable pub review_request : (approval_id : String) → Option (Option Bool × String) → Handler
  unfolding respond operator
  review_request id body = decode body λ b. decide id b.0 b.1

  unfoldable pub withdraw_request : (approval_id : String) → Handler
  unfolding respond operator
  withdraw_request id =
      respond (λ a. ok_reply (Payload.approval a)) (withdraw s.env id (operator r))

  unfoldable pub queue_job : (disk_id : String) → Option String → Handler
  unfolding respond operator
  queue_job id body = decode body λ standard.
      respond (λ j. created (Payload.job j)) (create_erasure_job s.env id standard (operator r))

  unfoldable pub reverify_disk : (disk_id : String) → Handler
  unfolding respond operator
  reverify_disk id m = elim s.worker [
    | none ↦ (fail 503 "no_worker", m)
    | some reverify ↦ respond (λ v. ok_reply (Payload.verification v)) (reverify id (operator r)) m
  ]

  abbrev pub scrap_for : (disk_id reason : String) → Handler
  scrap_for id reason =
      respond (λ _. ok_reply (Payload.status "scrapped")) (scrap_disk s.env id (operator r) reason)

  -- Without content there is no reason to decode.
  unfoldable pub scrap : (disk_id : String) → (has_content : Bool) → Option String → Handler
  unfolding respond operator
  scrap id has_content body =
      if has_content then (decode body λ reason. scrap_for id reason) else scrap_for id ""

  unfoldable pub download_report : (cert_no : String) → Handler
  unfolding respond file_name
  download_report cert_no =
      respond (λ c. streamed c.report_key "application/json" (s.object c.report_key))
        (get_certificate cert_no)

  unfoldable pub download_certificate : (cert_no : String) → Handler
  unfolding respond file_name
  download_certificate cert_no =
      respond (λ c. streamed c.cert_key "text/html; charset=utf-8" (s.object c.cert_key))
        (get_certificate cert_no)

  abbrev pub audit_query : AuditFilter
  audit_query = record {
    entity_type = r.query "entity_type";
    entity_id = r.query "entity_id";
    actor = r.query "actor";
    limit = atoi_default (r.query "limit") 200;
    offset = atoi_default (r.query "offset") 0;
  }

  unfoldable pub query_audit : Handler
  unfolding respond atoi_default
  query_audit =
      respond (λ page. ok_reply (Payload.audit page.0 page.1 audit_query.limit audit_query.offset))
        (list_audit audit_query)
