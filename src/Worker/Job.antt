-- ===== src/Worker/Job.antt =====
-- internal/worker/worker.go: runJob and failJob. A run reads the store, drives the engine over the
-- disk's device with progress saved in the store, and settles the job by the engine's result.
use xiesg0915_work.Prelude.{
  ℕ, ◌-◌, String, Bool, true, false, not, ◌||◌, Option, none, some, List, [], lookup, length, ltb,
  if◌then◌else◌,
}
use xiesg0915_work.Result.{Result, ok, err}
use xiesg0915_work.Domain.Status.{DiskStatus, JobStatus, same_job_status}
use xiesg0915_work.Domain.Entities.{
  Time, Disk, ErasureJob, ErasureRun, Standard, VerifyResult, plain, erase_started,
}
use xiesg0915_work.Domain.Standards.{get_standard}
use xiesg0915_work.Store.State.{Memory, Env}
use xiesg0915_work.Store.Disks.{update_disk_status}
use xiesg0915_work.Store.Jobs.{mark_job_running, save_progress, complete_job, record_run}
use xiesg0915_work.Erasure.Device.{
  Device, Fault, fault, cancelled, RunError, Phase, overwriting, verifying, Progress, World,
}
use xiesg0915_work.Erasure.Engine.{Options, Externals, Rig}
use xiesg0915_work.Erasure.Verify.{run}
use xiesg0915_work.Worker.Names.{Formats, allowed_device_path}
use xiesg0915_work.Worker.Certify.{issue_certificate}

-- What one run reads of the world beside the store: the configuration, the readings of the clock
-- and the random source at each call of the store, the faults, and the device behind the path.
pub record Setting : Type 0 where
  pub worker : String
  pub prefixes : List String
  pub chunk_bytes : ℕ
  pub checkpoint_every : ℕ
  pub formats : Formats
  pub externals : Externals
  pub world : World
  pub open_device : String → Option Device
  pub env : ℕ → Env
  pub progress_env : Progress → Env
  pub cancelled_at : Progress → Option Fault
  pub cancelled_after : Bool
  pub archive : String → Option String
  pub run_start : Time
  pub finished : Time

-- What a run leaves: the store, and the device if it was opened.
abbrev pub Left : Type 0
Left = Memory × Option Device

-- The run's record as the worker fills it in.
abbrev pub run_record :
    Setting → (resumed : Bool) → (wrote : ℕ) → VerifyResult → (result note : String) → ErasureRun
run_record s resumed wrote vr result note = record {
  id = "";
  job_id = "";
  attempt = 0;
  started_at = s.run_start;
  finished_at = s.finished;
  resumed = resumed;
  wrote_bytes = wrote;
  verify_mode = vr.mode;
  verify_bytes = vr.bytes;
  mismatches = vr.mismatches;
  result = result;
  note = note;
}

abbrev pub no_check : VerifyResult
no_check = record { mode = ""; bytes = 0; mismatches = 0; samples = [] }

-- failJob: the job fails with the cause; the disk is left as it is.
unfoldable pub fail_job : Setting → ErasureJob → String → Memory → Memory
fail_job s job cause m =
    (complete_job (s.env 2) job.id JobStatus.failed cause
      (record (run_record s false 0 no_check "failed" cause) { started_at = 0 }) m).1

-- Where the run begins: at the checkpoint, if there is one and the job was not queued.
pub record Cursor : Type 0 where
  pub pass : ℕ
  pub offset : ℕ
  pub resumed : Bool

abbrev pub from_start : Cursor
from_start = record { pass = 0; offset = 0; resumed = false }

unfoldable pub cursor : ErasureJob → Memory → Cursor
cursor job m = elim (lookup job.id m.checkpoints) [
  | none ↦ from_start
  | some cp ↦
      if not (same_job_status job.status JobStatus.pending)
      then record { pass = cp.pass; offset = cp.offset; resumed = true }
      else from_start
]

abbrev pub job_status : Phase → JobStatus
job_status overwriting = JobStatus.running
job_status verifying = JobStatus.verifying

abbrev pub wrote_after : Phase → (offset wrote : ℕ) → ℕ
wrote_after overwriting offset wrote = offset
wrote_after verifying offset wrote = wrote

-- `if err := SaveProgress(…); err != nil { return err }; return ctx.Err()`
abbrev pub saved_or : Result (Unit {0}) → Option Fault → Option Fault
saved_or (ok u) ctx = ctx
saved_or (err e) ctx = some Fault.io_error

-- onProgress, over the store and the count of bytes written.
unfoldable pub on_progress :
    Setting → ErasureJob → Progress → Memory × ℕ → Option Fault × (Memory × ℕ)
on_progress s job p (m, wrote) =
    let saved =
      save_progress (s.progress_env p) job.id p.pass p.offset p.total (job_status p.phase) m in
    (saved_or saved.0 (s.cancelled_at p), (saved.1, wrote_after p.phase p.offset wrote))

abbrev pub options : Setting → Standard → ErasureJob → Cursor → Options
options s std job c = record {
  standard = std;
  job_id = job.id;
  chunk_size = s.chunk_bytes;
  checkpoint_step = s.checkpoint_every;
  resume_pass = c.pass;
  resume_offset = c.offset;
}

-- isInterrupted
abbrev pub is_interrupted : RunError → Bool
is_interrupted (fault cancelled) = true
is_interrupted _ = false

-- `case runErr != nil`
unfoldable pub settle_error : Setting → ErasureJob → Cursor → ℕ → RunError → Memory → Memory
unfolding fail_job
settle_error s job c wrote e m =
    if s.cancelled_after || is_interrupted e
    then (record_run (s.env 2)
        (record (run_record s c.resumed wrote no_check "interrupted" "任务中断（断电/停机），已保存断点，等待续做") {
          job_id = job.id;
          attempt = job.attempt;
        })
        m).1
    else fail_job s job "run error" m

-- `case verifyRes.Mismatches > 0`
unfoldable pub settle_mismatch :
    Setting → ErasureJob → Disk → Cursor → ℕ → VerifyResult → Memory → Memory
settle_mismatch s job disk c wrote vr m =
    let completed =
      (complete_job (s.env 2) job.id JobStatus.failed "复验未通过"
        (run_record s c.resumed wrote vr "failed" "复验未通过") m).1 in
    (update_disk_status (s.env 3) disk.id DiskStatus.failed s.worker (plain "复验未通过") completed).1

-- The verification has passed: the disk first, then the job, then the certificate.
unfoldable pub finalize :
    Setting → Standard → ErasureJob → Disk → Cursor → (size : ℕ) → VerifyResult → Memory → Memory
finalize s std job disk c size vr m =
    let saved =
      (save_progress (s.env 2) job.id (length std.passes - 1) size size JobStatus.verified m).1 in
    let marked =
      update_disk_status (s.env 3) disk.id DiskStatus.verified s.worker (plain "擦除复验通过，准备签发证明")
        saved in
    elim marked.0 [
      | err e ↦ marked.1
      | ok u ↦
          let completed =
            (complete_job (s.env 4) job.id JobStatus.verified ""
              (run_record s c.resumed size (record vr { mismatches = 0 }) "verified" "覆写+复验通过")
              marked.1).1 in
          (issue_certificate (s.env 5) (s.env 6) s.worker s.formats s.archive job disk std vr
            s.run_start s.finished completed).1
    ]

-- The switch on the engine's result.
unfoldable pub settle :
    Setting
    → Standard
    → ErasureJob
    → Disk
    → Cursor
    → (size : ℕ) → Option RunError × VerifyResult × Rig (Memory × ℕ)
    → Memory
unfolding settle_error settle_mismatch finalize
settle s std job disk c size (some e, vr, r) = settle_error s job c r.state.1 e r.state.0
settle s std job disk c size (none, vr, r) =
    if ltb 0 vr.mismatches
    then settle_mismatch s job disk c r.state.1 vr r.state.0
    else finalize s std job disk c size vr r.state.0

-- The device is open: its size, the run and its end.
unfoldable pub drive : Setting → Standard → ErasureJob → Disk → Cursor → Device → Memory → Left
unfolding settle fail_job
drive s std job disk c dev m = elim s.world.size_fault [
  | some e ↦ (fail_job s job "size" m, some dev)
  | none ↦
      let out =
        run s.externals s.world (on_progress s job) (options s std job c)
          (record { device = dev; state = (m, 0) }) in
      (settle s std job disk c dev.size out, some out.2.device)
]

-- From MarkJobRunning to the open device; an error of the disk's status is only logged.
unfoldable pub start_run : Setting → Standard → ErasureJob → Disk → Memory → Left
unfolding drive cursor
start_run s std job disk m =
    let c = cursor job m in
    let marked = mark_job_running (s.env 0) job.id job.attempt m in
    elim marked.0 [
      | err e ↦ (marked.1, none)
      | ok u ↦
          let erasing =
            (update_disk_status (s.env 1) disk.id DiskStatus.erasing s.worker
              (erase_started job.id job.attempt c.resumed) marked.1).1 in
          elim (s.open_device disk.device_path) [
            | none ↦ (fail_job s job "open device" erasing, none)
            | some dev ↦ drive s std job disk c dev erasing
          ]
    ]

unfoldable pub run_job : Setting → ErasureJob → Disk → Memory → Left
unfolding start_run
run_job s job disk m = elim (get_standard job.standard) [
  | none ↦ (fail_job s job "unknown erasure standard" m, none)
  | some std ↦
      if allowed_device_path s.prefixes disk.device_path
      then start_run s std job disk m
      else (fail_job s job "device path is not allowed" m, none)
]
