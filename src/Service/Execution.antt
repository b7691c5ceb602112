-- ===== src/Service/Execution.antt =====
-- internal/service/service.go: pulling disks, queueing wipes, scrapping and the disposal.
use Prim.Native.String.{◌++◌}
use xiesg0915_work.Prelude.{
  ℕ, suc, String, false, not, ◌&&◌, ◌||◌, none, some, List, [], ◌∷◌, ◌==◌, length, eqb,
  if◌then◌else◌,
}
use xiesg0915_work.Result.{
  conflict, Result, ok, err, Exec, pure, raise, attempt, ignore, require, ◌>>=◌, ◌>>◌,
}
use xiesg0915_work.Domain.Status.{
  AssetStatus, DiskStatus, JobStatus, same_asset_status, same_disk_status, same_job_status,
}
use xiesg0915_work.Domain.Entities.{
  Time, Asset, Disk, ErasureJob, ErasureRun, DisposalConfirmation, plain, disks_pulled,
  scrapped_for,
}
use xiesg0915_work.Store.State.{Memory, Env}
use xiesg0915_work.Store.Assets.{get_asset, transition_asset}
use xiesg0915_work.Store.Disks.{create_disk, get_disk, update_disk_status}
use xiesg0915_work.Store.Jobs.{create_job, list_jobs, complete_job}
use xiesg0915_work.Store.Documents.{save_disposal, get_disposal}
use xiesg0915_work.Service.Requests.{Envs, known_method, find_standard, approved_approval}

pub record DiskInput : Type 0 where
  pub serial : String
  pub model : String
  pub kind : String
  pub capacity_gb : ℕ
  pub device_path : String
  pub slot : String

abbrev pub or_default : String → String → String
or_default v def = if v == "" then def else v

-- The disk that a pull creates.
abbrev pub pulled_disk : (id asset_id operator : String) → Time → DiskInput → Disk
pulled_disk id asset_id operator now i = record {
  id = id;
  asset_id = asset_id;
  serial = i.serial;
  model = i.model;
  kind = or_default i.kind "HDD";
  capacity_gb = i.capacity_gb;
  device_path = i.device_path;
  slot = i.slot;
  status = DiskStatus.pulled;
  pulled_by = operator;
  pulled_at = some now;
  created_at = 0;
}

-- The loop over the disks, from call `n` of the store on: a disk that is refused ends it, and those
-- before it stay created.
unfoldable pub create_disks :
    Envs → Time → (asset_id operator : String) → ℕ → List DiskInput → Exec Memory (List Disk)
create_disks env now asset_id operator n [] = pure []
create_disks env now asset_id operator n (i ∷ is) =
    let d = pulled_disk (env n).fresh_id asset_id operator now i in
    require (not (i.serial == "" || i.device_path == ""))
      (conflict "disk serial and device_path are required")
    >>= λ _. create_disk (env n) d >>= λ _.
        create_disks env now asset_id operator (suc n) is >>= λ ds. pure (d ∷ ds)

unfoldable pub pull_disks :
    Envs → Time → (asset_id operator : String) → List DiskInput → Exec Memory (Asset × List Disk)
pull_disks env now asset_id operator disks = do
  require (not (operator == "")) (conflict "operator required")
  require (not (eqb (length disks) 0)) (conflict "at least one disk is required")
  a ← get_asset asset_id
  require (same_asset_status a.status AssetStatus.pending)
      (conflict "can only pull disks while asset is pending")
  approved_approval asset_id
  created ← create_disks env now asset_id operator 0 disks
  a' ←
      transition_asset (env (length disks)) asset_id AssetStatus.disk_pulled operator
        "asset.disk_pull" (disks_pulled (length created))
  pure (a', created)

-- The job that a request creates.
abbrev pub queued_job : (disk_id standard operator : String) → ℕ → ErasureJob
queued_job disk_id standard operator attempt = record {
  id = "";
  disk_id = disk_id;
  standard = standard;
  status = JobStatus.pending;
  attempt = attempt;
  current_pass = 0;
  total_bytes = 0;
  bytes_done = 0;
  error = "";
  created_by = operator;
  locked_by = "";
  locked_at = 0;
  started_at = none;
  finished_at = none;
  created_at = 0;
  updated_at = 0;
}

-- The best effort to move the asset to erasing.
abbrev pub start_erasing : Env → Disk → String → Exec Memory (Unit {0})
start_erasing env d operator =
    if same_disk_status d.status DiskStatus.pulled
    then ignore (
        transition_asset env d.asset_id AssetStatus.erasing operator "asset.erasing"
          (plain "创建首个擦除任务，进入擦除"))
    else pure tt

-- The job that is returned: the newest of the disk's, or the one that was asked for.
abbrev pub newest_or : ErasureJob → Result (List ErasureJob) → ErasureJob
newest_or j (ok (k ∷ ks)) = k
newest_or j (ok []) = j
newest_or j (err e) = j

unfoldable pub create_erasure_job :
    Envs → (disk_id standard operator : String) → Exec Memory ErasureJob
create_erasure_job env disk_id standard operator = do
  require (not (operator == "")) (conflict "operator required")
  std ← find_standard standard
  d ← get_disk disk_id
  require
      (same_disk_status d.status DiskStatus.pulled || same_disk_status d.status DiskStatus.failed)
      (conflict "cannot queue job")
  ap ← approved_approval d.asset_id
  require (ap.standard == std.code) (conflict "standard does not match the approved standard")
  prior ← list_jobs disk_id
  create_job (env 0) (queued_job disk_id std.code operator (length prior))
  start_erasing (env 1) d operator
  all ← attempt (list_jobs disk_id)
  pure (newest_or (queued_job disk_id std.code operator (length prior)) all)

-- The run that the abandoned job of a scrapped disk gets.
abbrev pub scrap_run : Env → String → ErasureRun
scrap_run env reason = record {
  id = "";
  job_id = "";
  attempt = 0;
  started_at = env.now;
  finished_at = env.now;
  resumed = false;
  wrote_bytes = 0;
  verify_mode = "";
  verify_bytes = 0;
  mismatches = 0;
  result = "failed";
  note = "磁盘报废，任务终止：" ++ reason;
}

-- The loop that marks the open jobs of a scrapped disk as failed.
unfoldable pub fail_jobs : Envs → String → ℕ → List ErasureJob → Exec Memory (Unit {0})
fail_jobs env reason n [] = pure tt
fail_jobs env reason n (j ∷ js) =
    (if same_job_status j.status JobStatus.pending || same_job_status j.status JobStatus.running
      then ignore (
          complete_job (env n) j.id JobStatus.failed ("disk scrapped: " ++ reason)
            (scrap_run (env n) reason))
      else pure tt)
    >>= λ _. fail_jobs env reason (suc n) js

-- `jobs, _ := ListJobs(…)`
abbrev pub or_empty : Result (List ErasureJob) → List ErasureJob
or_empty (ok js) = js
or_empty (err e) = []

unfoldable pub scrap_disk : Envs → (disk_id operator reason : String) → Exec Memory (Unit {0})
scrap_disk env disk_id operator reason = do
  require (not (operator == "")) (conflict "operator required")
  d ← get_disk disk_id
  require
      (same_disk_status d.status DiskStatus.failed || same_disk_status d.status DiskStatus.pulled)
      (conflict "only failed/pulled disks can be scrapped")
  update_disk_status (env 0) disk_id DiskStatus.scrapped operator (scrapped_for reason)
  jobs ← attempt (list_jobs disk_id)
  fail_jobs env reason 2 (or_empty jobs)
  a ← get_asset d.asset_id
  if same_asset_status a.status AssetStatus.disk_pulled
        || same_asset_status a.status AssetStatus.erasing
      then ignore (
          transition_asset (env 1) a.id AssetStatus.scrapped operator "asset.scrap"
            (scrapped_for reason))
      else pure tt

pub record DisposalInput : Type 0 where
  pub method : String
  pub receiver : String
  pub receiver_org : String
  pub note : String
  pub operator : String

-- The confirmation that is signed.
abbrev pub confirmation : String → Asset → DisposalInput → DisposalConfirmation
confirmation asset_id a i = record {
  id = "";
  asset_id = asset_id;
  asset_tag = a.tag;
  method = i.method;
  receiver = i.receiver;
  receiver_org = i.receiver_org;
  note = i.note;
  operator = i.operator;
  signed_at = 0;
}

-- The switch on the asset's status.
unfoldable pub ready_for_disposal : AssetStatus → Exec Memory (Unit {0})
ready_for_disposal AssetStatus.erasure_verified = pure tt
ready_for_disposal AssetStatus.scrapped = pure tt
ready_for_disposal AssetStatus.disposed =
    raise (conflict "asset already disposed; signature cannot be overwritten")
ready_for_disposal _ = raise (conflict "asset not ready for disposal")

unfoldable pub confirm_disposal : Envs → String → DisposalInput → Exec Memory DisposalConfirmation
confirm_disposal env asset_id i = do
  require (not (i.operator == "")) (conflict "operator required")
  require (known_method i.method) (conflict "method must be reuse|resale|destroy")
  require (not (i.receiver == "")) (conflict "receiver is required")
  a ← get_asset asset_id
  ready_for_disposal a.status
  ap ← approved_approval asset_id
  require
      (i.method == ap.method
        || same_asset_status a.status AssetStatus.scrapped && i.method == "destroy")
      (conflict "disposal method does not match the approved method")
  save_disposal (env 0) (confirmation asset_id a i)
  get_disposal asset_id
