-- ===== src/Api/Endpoints.antt =====
-- internal/api/server.go: Routes, the endpoints with the handlers that they are bound to.
use xiesg0915_work.Prelude.{String, Bool, Option, List}
use xiesg0915_work.Store.Assets.{get_asset}
use xiesg0915_work.Store.Disks.{get_disk, list_disks}
use xiesg0915_work.Store.Jobs.{get_job, list_jobs, list_runs}
use xiesg0915_work.Store.Approvals.{get_approval, list_approvals}
use xiesg0915_work.Store.Documents.{get_certificate, list_certificates, get_disposal}
use xiesg0915_work.Service.Requests.{RegisterInput, ApprovalInput}
use xiesg0915_work.Service.Execution.{DiskInput, DisposalInput}
use xiesg0915_work.Api.Reply.{Payload, Handler, ok_reply, respond}
use xiesg0915_work.Api.Request.{Request}
use xiesg0915_work.Api.Handlers.{
  Server, health, all_standards, register, query_assets, pull, dispose, submit, review_request,
  withdraw_request, queue_job, reverify_disk, scrap, download_report, download_certificate,
  query_audit, timeline,
}

-- A route with what its path names and the body that the request brings.
pub data Endpoint : Type 0 where
  get_health get_standards get_assets get_certificates get_audit : Endpoint
  post_asset : Option RegisterInput → Endpoint
  get_asset_by_id get_asset_disks get_asset_certificates : (id : String) → Endpoint
  get_asset_disposal get_asset_timeline get_asset_approvals : (id : String) → Endpoint
  post_disks : (id : String) → Option (List DiskInput) → Endpoint
  post_disposal : (id : String) → Option DisposalInput → Endpoint
  post_approval : (id : String) → Option ApprovalInput → Endpoint
  get_approval_by_id : (id : String) → Endpoint
  post_review : (id : String) → Option (Option Bool × String) → Endpoint
  post_withdrawal : (id : String) → Endpoint
  get_disk_by_id get_disk_jobs : (id : String) → Endpoint
  post_job : (id : String) → Option String → Endpoint
  post_reverify : (id : String) → Endpoint
  post_scrap : (id : String) → (has_content : Bool) → Option String → Endpoint
  get_job_by_id get_job_runs : (id : String) → Endpoint
  get_certificate_by_no get_report get_certificate_file : (cert_no : String) → Endpoint

unfoldable pub serve : Server → Request → Endpoint → Handler
unfolding respond timeline query_assets query_audit download_report download_certificate register
    pull dispose submit review_request withdraw_request queue_job reverify_disk scrap
serve s r Endpoint.get_health = health s r
serve s r Endpoint.get_standards = all_standards s r
serve s r Endpoint.get_assets = query_assets s r
serve s r Endpoint.get_certificates =
    respond (λ cs. ok_reply (Payload.certificates cs)) (list_certificates (r.query "asset_id"))
serve s r Endpoint.get_audit = query_audit s r
serve s r (Endpoint.post_asset body) = register s r body
serve s r (Endpoint.get_asset_by_id id) = respond (λ a. ok_reply (Payload.asset a)) (get_asset id)
serve s r (Endpoint.get_asset_disks id) =
    respond (λ ds. ok_reply (Payload.disks ds)) (list_disks id)
serve s r (Endpoint.get_asset_certificates id) =
    respond (λ cs. ok_reply (Payload.certificates cs)) (list_certificates id)
serve s r (Endpoint.get_asset_disposal id) =
    respond (λ d. ok_reply (Payload.disposal d)) (get_disposal id)
serve s r (Endpoint.get_asset_timeline id) = respond ok_reply (timeline id)
serve s r (Endpoint.get_asset_approvals id) =
    respond (λ aps. ok_reply (Payload.approvals aps)) (list_approvals id)
serve s r (Endpoint.post_disks id body) = pull s r id body
serve s r (Endpoint.post_disposal id body) = dispose s r id body
serve s r (Endpoint.post_approval id body) = submit s r id body
serve s r (Endpoint.get_approval_by_id id) =
    respond (λ a. ok_reply (Payload.approval a)) (get_approval id)
serve s r (Endpoint.post_review id body) = review_request s r id body
serve s r (Endpoint.post_withdrawal id) = withdraw_request s r id
serve s r (Endpoint.get_disk_by_id id) = respond (λ d. ok_reply (Payload.disk d)) (get_disk id)
serve s r (Endpoint.get_disk_jobs id) = respond (λ js. ok_reply (Payload.jobs js)) (list_jobs id)
serve s r (Endpoint.post_job id body) = queue_job s r id body
serve s r (Endpoint.post_reverify id) = reverify_disk s r id
serve s r (Endpoint.post_scrap id has_content body) = scrap s r id has_content body
serve s r (Endpoint.get_job_by_id id) = respond (λ j. ok_reply (Payload.job j)) (get_job id)
serve s r (Endpoint.get_job_runs id) = respond (λ rs. ok_reply (Payload.runs rs)) (list_runs id)
serve s r (Endpoint.get_certificate_by_no cert_no) =
    respond (λ c. ok_reply (Payload.certificate c)) (get_certificate cert_no)
serve s r (Endpoint.get_report cert_no) = download_report s r cert_no
serve s r (Endpoint.get_certificate_file cert_no) = download_certificate s r cert_no
