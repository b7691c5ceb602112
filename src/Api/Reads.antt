-- ===== src/Api/Reads.antt =====
-- The endpoints that only read.
use xiesg0915_work.Prelude.{ℕ, String, Bool, true, false, ◌≡◌, refl, List, [], ◌∷◌, ◌∙◌, arith}
use xiesg0915_work.Result.{Result, ok, err, Exec, continue, ◌>>=◌}
use xiesg0915_work.Domain.Entities.{Disk, DecommissionApproval}
use xiesg0915_work.Store.State.{Memory}
use xiesg0915_work.Store.Assets.{get_asset, list_assets}
use xiesg0915_work.Store.Disks.{get_disk, list_disks}
use xiesg0915_work.Store.Jobs.{get_job, list_jobs, list_runs}
use xiesg0915_work.Store.Approvals.{get_approval, list_approvals}
use xiesg0915_work.Store.Documents.{get_certificate, list_certificates, get_disposal, list_audit}
use xiesg0915_work.Api.Request.{Request, atoi_default}
use xiesg0915_work.Api.Handlers.{
  Server, timeline, events, disk_items, approval_items, search_assets,
}
use xiesg0915_work.Api.Endpoints.{Endpoint, serve}

-- `is_read e` is whether Routes binds the endpoint to the method GET.
unfoldable pub is_read : Endpoint → Bool
is_read (Endpoint.post_asset body) = false
is_read (Endpoint.post_disks id body) = false
is_read (Endpoint.post_disposal id body) = false
is_read (Endpoint.post_approval id body) = false
is_read (Endpoint.post_review id body) = false
is_read (Endpoint.post_withdrawal id) = false
is_read (Endpoint.post_job id body) = false
is_read (Endpoint.post_reverify id) = false
is_read (Endpoint.post_scrap id has_content body) = false
is_read _ = true

-- A method that leaves the store as it is.
abbrev IsReader : {A : Type 0} → Exec Memory A → Type 0
IsReader call = (m : Memory) → (call m).1 ≡ m

continue-state :
    {A B : Type 0} (r : Result A) (f : A → Exec Memory B) (m : Memory)
    → ((a : A) → IsReader (f a))
    → (continue r f m).1 ≡ m
continue-state (ok a) f m h = h a m
continue-state (err e) f m h = refl

bind-IsReader :
    {A B : Type 0} (call : Exec Memory A) (f : A → Exec Memory B)
    → IsReader call
    → ((a : A) → IsReader (f a))
    → IsReader (call >>= f)
bind-IsReader call f c h m = continue-state (call m).0 f (call m).1 h ∙ c m

disk_items-IsReader : (ds : List Disk) → IsReader (disk_items ds)
unfolding disk_items events list_audit list_jobs
disk_items-IsReader [] m = refl
disk_items-IsReader (d ∷ ds) m = ground (arith, disk_items-IsReader ds m)

approval_items-IsReader : (aps : List DecommissionApproval) → IsReader (approval_items aps)
unfolding approval_items events list_audit
approval_items-IsReader [] m = refl
approval_items-IsReader (a ∷ aps) m = ground (arith, approval_items-IsReader aps m)

timeline-IsReader : (id : String) → IsReader (timeline id)
unfolding timeline events list_audit list_disks list_approvals
timeline-IsReader id m = grind (arith, disk_items-IsReader, approval_items-IsReader)

search_assets-IsReader :
    (status tag : String) (limit offset : ℕ) → IsReader (search_assets status tag limit offset)
unfolding search_assets list_assets
search_assets-IsReader status tag limit offset m = ground arith

-- The lookups of one entity.
lookups-IsReader :
    (id : String)
    → IsReader (get_asset id)
      × IsReader (get_disk id)
      × IsReader (get_job id)
      × IsReader (get_approval id)
      × IsReader (get_certificate id)
      × IsReader (get_disposal id)
unfolding get_asset get_disk get_job get_approval get_certificate get_disposal
lookups-IsReader id = (
  λ m. ground arith,
  λ m. ground arith,
  λ m. ground arith,
  λ m. ground arith,
  λ m. ground arith,
  λ m. ground arith,
)

-- An endpoint under the method GET leaves the store as it is, whatever the request.
pub serve-read :
    (s : Server) (r : Request) (e : Endpoint) (m : Memory)
    → is_read e ≡ true
    → (serve s r e m).1 ≡ m
unfolding serve is_read list_certificates list_disks list_jobs list_runs list_audit list_approvals
serve-read s r Endpoint.get_health m h = refl
serve-read s r Endpoint.get_standards m h = refl
serve-read s r Endpoint.get_assets m h =
    search_assets-IsReader (r.query "status") (r.query "tag") (atoi_default (r.query "limit") 100)
      (atoi_default (r.query "offset") 0) m
serve-read s r Endpoint.get_certificates m h = refl
serve-read s r Endpoint.get_audit m h = refl
serve-read s r (Endpoint.get_asset_by_id id) m h = (lookups-IsReader id).0 m
serve-read s r (Endpoint.get_asset_disks id) m h = refl
serve-read s r (Endpoint.get_asset_certificates id) m h = refl
serve-read s r (Endpoint.get_asset_disposal id) m h = (lookups-IsReader id).5 m
serve-read s r (Endpoint.get_asset_timeline id) m h = timeline-IsReader id m
serve-read s r (Endpoint.get_asset_approvals id) m h = refl
serve-read s r (Endpoint.get_approval_by_id id) m h = (lookups-IsReader id).3 m
serve-read s r (Endpoint.get_disk_by_id id) m h = (lookups-IsReader id).1 m
serve-read s r (Endpoint.get_disk_jobs id) m h = refl
serve-read s r (Endpoint.get_job_by_id id) m h = (lookups-IsReader id).2 m
serve-read s r (Endpoint.get_job_runs id) m h = refl
serve-read s r (Endpoint.get_certificate_by_no n) m h = (lookups-IsReader n).4 m
serve-read s r (Endpoint.get_report n) m h = (lookups-IsReader n).4 m
serve-read s r (Endpoint.get_certificate_file n) m h = (lookups-IsReader n).4 m
serve-read s r _ m h = absurd (ground arith)
