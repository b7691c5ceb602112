-- ===== src/Scenarios/Workers.antt =====
-- The worker of internal/worker at a small store and a device of four bytes.
use xiesg0915_work.Prelude.{
  true, sort_slice, ℕ, String, false, put, ◌≡◌, ◌≢◌, ◌<◌, ◌⊎◌, refl, inr, none, some, [], ◌∷◌,
  arith, Option, lookup,
}
use xiesg0915_work.Result.{ok}
use xiesg0915_work.Domain.Status.{AssetStatus, DiskStatus, JobStatus, ApprovalStatus}
use xiesg0915_work.Domain.Entities.{VerifyResult, ErasureJob}
use xiesg0915_work.Domain.Standards.{get_standard, nist_clear}
use xiesg0915_work.Store.State.{Memory}
use xiesg0915_work.Store.Jobs.{save_progress, complete_job, list_runs, list_jobs}
use xiesg0915_work.Erasure.Stream.{stream_at}
use xiesg0915_work.Erasure.Device.{Device, RunError}
use xiesg0915_work.Erasure.Engine.{
  Rig, with_defaults, count_mismatches, write_chunk, fill_chunk, checkpoint, write_loop, write_pass,
  write_passes,
}
use xiesg0915_work.Erasure.Verify.{
  verify_only, run, verify, compare_chunk, report_verify, verify_loop, verify_ranges,
}
use xiesg0915_work.Service.Requests.{Envs}
use xiesg0915_work.Service.Execution.{create_erasure_job, scrap_disk}
use xiesg0915_work.Worker.Job.{Setting, from_start, on_progress, settle, finalize, drive, start_run}
use xiesg0915_work.Worker.Outcomes.{settle_unverified, unopened_disk_is_stuck}
use xiesg0915_work.Store.Assets.{get_asset, transition_asset}
use xiesg0915_work.Store.Disks.{get_disk, list_disks, update_disk_status}
use xiesg0915_work.Store.Documents.{save_certificate}
use xiesg0915_work.Domain.Status.{can_transition_asset}
use xiesg0915_work.Worker.Names.{
  allowed_device_path, cert_number, sanitize, short_serial, operator_of,
}
use xiesg0915_work.Worker.Certify.{issue_certificate, maybe_asset_erasure_done, all_done}
use xiesg0915_work.Worker.Reverify.{
  verified_device, record_reverify, reverify_target, reverify, IsJudged, reverify-IsJudged,
}
use xiesg0915_work.Worker.Certified.{LeavesClean, drive-LeavesClean}
use xiesg0915_work.Scenarios.Scenes.{env, drive_of, job_in, store}
use xiesg0915_work.Scenarios.Erasures.{faultless, externals}

abbrev pub setting : Setting
setting = record {
  worker = "w1";
  prefixes = "/dev/" ∷ [];
  chunk_bytes = 3;
  checkpoint_every = 2;
  formats = record { date = λ t. "20260101"; three_digits = λ n. "001" };
  externals = externals;
  world = faultless;
  open_device = λ path. none;
  env = λ i. env;
  progress_env = λ p. env;
  cancelled_at = λ p. none;
  cancelled_after = false;
  archive = λ no. some "sha";
  run_start = 1000;
  finished = 2000;
}

abbrev claimed_job : ErasureJob
claimed_job = job_in JobStatus.running "w1"

abbrev working : Memory
working =
    store AssetStatus.erasing DiskStatus.erasing ApprovalStatus.approved (("j1", claimed_job) ∷ [])

abbrev blank : Device
blank = record { size = 4; bytes = λ i. 7; durable = λ i. 7 }

abbrev rig : Rig (Memory × ℕ)
rig = record { device = blank; state = (working, 0) }

abbrev bad_check : VerifyResult
bad_check = record { mode = "full"; bytes = 4; mismatches = 2; samples = [] }

settle_unverified_example :
    let m' =
      settle setting nist_clear claimed_job
        (drive_of DiskStatus.erasing)
        from_start
        4
        (none, bad_check, rig) in
    (m'.certs ≡ [])
    × ((◌≢◌ {A = Option RunError} none none) × (m'.disks ≡ working.disks)
        ⊎ (◌≡◌ {A = Option RunError} none none)
          × (0 < 2)
          × (lookup "d1" m'.disks ≡ some (drive_of DiskStatus.failed)))
unfolding lookup
settle_unverified_example =
    settle_unverified setting nist_clear claimed_job (drive_of DiskStatus.erasing)
      (drive_of DiskStatus.erasing) from_start 4 none bad_check rig refl (inr (omega arith))

unopened_disk_is_stuck_example :
    let m' = (start_run setting nist_clear claimed_job (drive_of DiskStatus.pulled) working).0 in
    (lookup "d1" m'.disks ≡ some (drive_of DiskStatus.erasing))
    × ((env : Envs) (standard operator : String) (k : ErasureJob)
        → (create_erasure_job env "d1" standard operator m').0 ≢ ok k)
    × ((env : Envs) (operator reason : String) (u : Unit {0})
        → (scrap_disk env "d1" operator reason m').0 ≢ ok u)
unfolding lookup
unopened_disk_is_stuck_example =
    unopened_disk_is_stuck setting nist_clear claimed_job (drive_of DiskStatus.pulled)
      (drive_of DiskStatus.erasing) working claimed_job refl refl refl

issues_certificate :
    let left =
      drive setting nist_clear claimed_job (drive_of DiskStatus.erasing) from_start blank working in
    left.0.certs ≢ []
unfolding drive settle finalize complete_job update_disk_status issue_certificate get_asset
    list_runs save_certificate maybe_asset_erasure_done all_done list_disks transition_asset
    can_transition_asset cert_number sanitize short_serial operator_of run with_defaults
    write_passes write_pass write_loop fill_chunk write_chunk checkpoint stream_at verify
    verify_ranges verify_loop compare_chunk report_verify count_mismatches on_progress save_progress
    lookup put sort_slice
issues_certificate = λ e. cc

drive-LeavesClean_example :
    LeavesClean setting nist_clear claimed_job from_start
      (drive setting nist_clear claimed_job
        (drive_of DiskStatus.erasing)
        from_start
        blank
        working).1
drive-LeavesClean_example =
    drive-LeavesClean setting nist_clear claimed_job (drive_of DiskStatus.erasing) from_start blank
      working refl issues_certificate

-- A wiped disk on which all four bytes are wrong.
abbrev dirty : Setting
dirty = record setting { open_device = λ path. some blank }

abbrev wiped_store : Memory
wiped_store =
    store AssetStatus.erasing DiskStatus.verified ApprovalStatus.approved
      (("j1", job_in JobStatus.verified "w1") ∷ [])

reverify-IsJudged_example :
    IsJudged "d1"
      (drive_of DiskStatus.verified)
      (record { mode = "full"; bytes = 4; mismatches = 4; samples = [] })
      wiped_store
      (reverify dirty true "d1" "carol" wiped_store).1
unfolding reverify reverify_target get_disk list_jobs get_standard allowed_device_path
    verified_device verify_only record_reverify with_defaults stream_at verify verify_ranges
    verify_loop compare_chunk report_verify count_mismatches lookup sort_slice
reverify-IsJudged_example =
    reverify-IsJudged dirty true "d1" "carol" (drive_of DiskStatus.verified) wiped_store
      (record { mode = "full"; bytes = 4; mismatches = 4; samples = [] }) refl refl
