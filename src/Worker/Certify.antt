-- ===== src/Worker/Certify.antt =====
-- internal/worker/worker.go: issueCertificate and maybeAssetErasureDone. The two documents are
-- rendered by internal/report and stored by internal/objectstore; what the worker sees of them is
-- whether that succeeds and the digest of the report, which is a parameter.
use Prim.Native.String.{◌++◌}
use xiesg0915_work.Prelude.{
  ◌+◌, String, Bool, true, false, ◌&&◌, ◌||◌, Option, none, some, List, [], ◌∷◌, if◌then◌else◌,
}
use xiesg0915_work.Result.{other, Result, ok, err, Exec, pure, raise, attempt, ignore, ◌>>=◌, ◌>>◌}
use xiesg0915_work.Domain.Status.{AssetStatus, DiskStatus, same_disk_status}
use xiesg0915_work.Domain.Entities.{
  Time, Asset, Disk, ErasureJob, Standard, VerifyResult, Certificate, plain,
}
use xiesg0915_work.Store.State.{Memory, Env}
use xiesg0915_work.Store.Assets.{get_asset, transition_asset}
use xiesg0915_work.Store.Disks.{list_disks}
use xiesg0915_work.Store.Jobs.{list_runs}
use xiesg0915_work.Store.Documents.{save_certificate}
use xiesg0915_work.Worker.Names.{Formats, cert_number, operator_of}

-- The switch in the loop over the disks: all of them are verified or scrapped.
unfoldable pub all_done : List Disk → Bool
all_done [] = true
all_done (d ∷ ds) =
    (same_disk_status d.status DiskStatus.verified || same_disk_status d.status DiskStatus.scrapped)
    && all_done ds

-- The list is read after an error only.
abbrev pub done_or_error : Result (List Disk) → Bool
done_or_error (ok ds) = all_done ds
done_or_error (err e) = false

unfoldable pub maybe_asset_erasure_done : Env → (worker asset_id : String) → Exec Memory (Unit {0})
maybe_asset_erasure_done env worker asset_id = do
  disks ← attempt (list_disks asset_id)
  if done_or_error disks
      then ignore (
          transition_asset env asset_id AssetStatus.erasure_verified worker "asset.erasure_verified"
            (plain "全部磁盘处理完成（擦除复验通过或已报废）"))
      else pure tt

-- The certificate of a verified disk, its keys and the digest of its report.
abbrev pub certificate :
    Formats
    → Asset
    → Disk
    → ErasureJob
    → Standard
    → VerifyResult
    → (started finished : Time) → String
    → Certificate
certificate f asset disk job std vr started finished sha =
    let no = cert_number f asset disk job finished in
    record {
      cert_no = no;
      disk_id = disk.id;
      asset_id = asset.id;
      job_id = job.id;
      standard = std.code;
      standard_name = std.name;
      disk_serial = disk.serial;
      disk_model = disk.model;
      capacity_gb = disk.capacity_gb;
      asset_tag = asset.tag;
      passes = std.passes;
      started_at = started;
      finished_at = finished;
      attempts = job.attempt + 1;
      verify_mode = vr.mode;
      verify_bytes = vr.bytes;
      report_key = "reports/" ++ (no ++ ".json");
      cert_key = "reports/" ++ (no ++ ".html");
      report_sha256 = sha;
      operator = operator_of job;
      created_at = 0;
    }

-- Rendering and uploading: `none` where one of them fails.
abbrev pub archived : Option String → Exec Memory String
archived none = raise (other "upload")
archived (some sha) = pure sha

unfoldable pub issue_certificate :
    (save_env done_env : Env)
    → (worker : String) → Formats
    → (archive : String → Option String) → ErasureJob
    → Disk
    → Standard
    → VerifyResult
    → (started finished : Time) → Exec Memory (Unit {0})
issue_certificate save_env done_env worker f archive job disk std vr started finished = do
  asset ← get_asset disk.asset_id
  runs ← list_runs job.id
  sha ← archived (archive (cert_number f asset disk job finished))
  save_certificate save_env (certificate f asset disk job std vr started finished sha)
  maybe_asset_erasure_done done_env worker asset.id
