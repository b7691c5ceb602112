-- ===== src/Worker/Outcomes.antt =====
-- How a run of a job ends: when a disk is certified, and what a failed run leaves behind.
use xiesg0915_work.Prelude.{
  ℕ, ◌<◌, String, false, ◌==◌, ◌≡◌, ◌≢◌, refl, ◌∙◌, ap, ◌⊎◌, inl, inr, Option, none, some, List,
  ◌∷◌, drop, lookup, lookup-put, eq_refl, lt→ltb, arith,
}
use xiesg0915_work.Result.{ok}
use xiesg0915_work.Domain.Status.{DiskStatus}
use xiesg0915_work.Domain.Entities.{Detail, Disk, ErasureJob, Standard, PassSpec, VerifyResult}
use xiesg0915_work.Store.State.{Memory, Env}
use xiesg0915_work.Store.Disks.{update_disk_status, get_disk}
use xiesg0915_work.Store.Jobs.{mark_job_running, complete_job, record_run}
use xiesg0915_work.Service.Requests.{Envs}
use xiesg0915_work.Service.Execution.{create_erasure_job, scrap_disk}
use xiesg0915_work.Erasure.Device.{Device, RunError}
use xiesg0915_work.Erasure.Engine.{Rig, with_defaults}
use xiesg0915_work.Erasure.Verify.{run}
use xiesg0915_work.Erasure.Wipe.{ResumeOk}
use xiesg0915_work.Erasure.Sound.{run-verifies}
use xiesg0915_work.Worker.Job.{
  Setting, Cursor, options, on_progress, fail_job, settle_error, settle_mismatch, finalize, settle,
  start_run,
}

pub fail_job-keeps :
    (s : Setting) (job : ErasureJob) (cause : String) (m : Memory)
    → ((fail_job s job cause m).disks ≡ m.disks) × ((fail_job s job cause m).certs ≡ m.certs)
unfolding fail_job complete_job
fail_job-keeps s job cause m = (ground arith, ground arith)

pub settle_error-keeps :
    (s : Setting) (job : ErasureJob) (c : Cursor) (n : ℕ) (e : RunError) (m : Memory)
    → ((settle_error s job c n e m).disks ≡ m.disks)
      × ((settle_error s job c n e m).certs ≡ m.certs)
unfolding settle_error record_run
settle_error-keeps s job c n e m = (
  ground (arith, fail_job-keeps s job "run error" m),
  ground (arith, fail_job-keeps s job "run error" m),
)

settle_mismatch-fails :
    (s : Setting) (job : ErasureJob) (disk d : Disk) (c : Cursor) (n : ℕ) (vr : VerifyResult)
    (m : Memory)
    → lookup disk.id m.disks ≡ some d
    → ((settle_mismatch s job disk c n vr m).certs ≡ m.certs)
      × (lookup disk.id (settle_mismatch s job disk c n vr m).disks
          ≡ some (record d { status = DiskStatus.failed }))
unfolding settle_mismatch complete_job update_disk_status
settle_mismatch-fails s job disk d c n vr m f = (
  ground (arith, f),
  ground (
    arith,
    f,
    lookup-put disk.id disk.id (record d { status = DiskStatus.failed }) m.disks,
    eq_refl disk.id,
  ),
)

-- No certificate without a passed verification: a run that ends with an error issues none and
-- leaves the disks as they are, also where it found mismatches before, and one that ends without an
-- error and found a mismatch issues none and marks its disk as failed.
pub settle_unverified :
    (s : Setting) (std : Standard) (job : ErasureJob) (disk d : Disk) (c : Cursor) (size : ℕ)
    (o : Option RunError) (vr : VerifyResult) (r : Rig (Memory × ℕ))
    → lookup disk.id r.state.0.disks ≡ some d
    → (o ≢ none) ⊎ (0 < vr.mismatches)
    → let m' = settle s std job disk c size (o, vr, r) in
      (m'.certs ≡ r.state.0.certs)
      × ((o ≢ none) × (m'.disks ≡ r.state.0.disks)
          ⊎ (o ≡ none)
            × (0 < vr.mismatches)
            × (lookup disk.id m'.disks ≡ some (record d { status = DiskStatus.failed })))
unfolding settle
settle_unverified s std job disk d c size (some e) vr r f h =
    let kept = settle_error-keeps s job c r.state.1 e r.state.0 in (kept.1, inl ((λ n. cc), kept.0))
settle_unverified s std job disk d c size none vr r f (inl h) = absurd (h refl)
settle_unverified s std job disk d c size none vr r f (inr h) =
    let failed = settle_mismatch-fails s job disk d c r.state.1 vr r.state.0 f in
    rw (lt→ltb 0 vr.mismatches h) (failed.0, inr (refl, h, failed.1))

pub settle_clean :
    (s : Setting) (std : Standard) (job : ErasureJob) (disk : Disk) (c : Cursor) (size : ℕ)
    (o : Option RunError) (vr : VerifyResult) (r : Rig (Memory × ℕ))
    → o ≡ none
    → vr.mismatches ≡ 0
    → settle s std job disk c size (o, vr, r) ≡ finalize s std job disk c size vr r.state.0
unfolding settle
settle_clean s std job disk c size (some e) vr r h z = cc
settle_clean s std job disk c size none vr r h z = ground (arith, z)

-- A run of a standard with a full verification that meets no fault is never judged a failure: it
-- goes on to mark the disk as verified and to issue the certificate. `ResumeOk` is about a
-- resumption inside the last pass only.
settle_after_run :
    (s : Setting) (std : Standard) (job : ErasureJob) (disk : Disk) (c : Cursor) (dev : Device)
    (m : Memory) (p : PassSpec) (ps : List PassSpec)
    → let opt = options s std job c in
      let r : Rig (Memory × ℕ) = record { device = dev; state = (m, 0) } in
      let out = run s.externals s.world (on_progress s job) opt r in
      drop (with_defaults opt).resume_pass (with_defaults opt).standard.passes ≡ p ∷ ps
      → (std.verify_mode == "sample") ≡ false
      → ResumeOk s.externals s.world
          (on_progress s job)
          (with_defaults opt)
          dev.size
          (with_defaults opt).resume_pass
          p
          ps
          r
      → out.0 ≡ none
      → settle s std job disk c dev.size out
        ≡ finalize s std job disk c dev.size out.1 out.2.state.0
settle_after_run s std job disk c dev m p ps e full resume h =
    let r : Rig (Memory × ℕ) = record { device = dev; state = (m, 0) } in
    let opt = options s std job c in
    let out = run s.externals s.world (on_progress s job) opt r in
    settle_clean s std job disk c dev.size out.0 out.1 out.2 h
      (run-verifies s.externals s.world (on_progress s job) opt p ps r e full resume h).0

update_disk_status-lookup :
    (env : Env) (id actor : String) (st : DiskStatus) (x : Detail) (d : Disk) (m : Memory)
    → lookup id m.disks ≡ some d
    → lookup id (update_disk_status env id st actor x m).1.disks ≡ some (record d { status = st })
unfolding update_disk_status
update_disk_status-lookup env id actor st x d m f =
    ground (arith, f, lookup-put id id (record d { status = st }) m.disks, eq_refl id)

mark_job_running-disks :
    (env : Env) (id : String) (n : ℕ) (m : Memory) → (mark_job_running env id n m).1.disks ≡ m.disks
unfolding mark_job_running
mark_job_running-disks env id n m = ground arith

erasing_after :
    (s : Setting) (std : Standard) (job : ErasureJob) (disk d : Disk) (m : Memory) (j : ErasureJob)
    → lookup disk.id m.disks ≡ some d
    → lookup job.id m.jobs ≡ some j
    → s.open_device disk.device_path ≡ none
    → lookup disk.id (start_run s std job disk m).0.disks
      ≡ some (record d { status = DiskStatus.erasing })
unfolding start_run mark_job_running
erasing_after s std job disk d m j f g h =
    rw (g, mark_job_running, start_run)
      (rw h (
        rw (fail_job-keeps s job "open device" _).0 (
          update_disk_status-lookup (s.env 1) disk.id s.worker DiskStatus.erasing _ d _
            (ap (lookup disk.id) (mark_job_running-disks (s.env 0) job.id job.attempt m) ∙ f))))

-- The service refuses to wipe or to scrap a disk that is being erased.
erasing_refused :
    (env : Envs) (m : Memory) (id standard operator reason : String) (d : Disk)
    → lookup id m.disks ≡ some d
    → d.status ≡ DiskStatus.erasing
    → ((j : ErasureJob) → (create_erasure_job env id standard operator m).0 ≢ ok j)
      × ((u : Unit {0}) → (scrap_disk env id operator reason m).0 ≢ ok u)
unfolding create_erasure_job scrap_disk get_disk
erasing_refused env m id standard operator reason d f e =
    (λ j h. ground (arith, f, e), λ u h. ground (arith, f, e))

-- Whenever a run cannot open the device of its disk, the disk is left as being erased, and from
-- there the service neither queues another wipe of it nor scraps it, whoever asks.
pub unopened_disk_is_stuck :
    (s : Setting) (std : Standard) (job : ErasureJob) (disk d : Disk) (m : Memory) (j : ErasureJob)
    → lookup disk.id m.disks ≡ some d
    → lookup job.id m.jobs ≡ some j
    → s.open_device disk.device_path ≡ none
    → let m' = (start_run s std job disk m).0 in
      (lookup disk.id m'.disks ≡ some (record d { status = DiskStatus.erasing }))
      × ((env : Envs) (standard operator : String) (k : ErasureJob)
          → (create_erasure_job env disk.id standard operator m').0 ≢ ok k)
      × ((env : Envs) (operator reason : String) (u : Unit {0})
          → (scrap_disk env disk.id operator reason m').0 ≢ ok u)
unopened_disk_is_stuck s std job disk d m j f g h =
    let m' = (start_run s std job disk m).0 in
    let left = erasing_after s std job disk d m j f g h in
    let d' : Disk = record d { status = DiskStatus.erasing } in
    (
      left,
      λ env standard operator. (erasing_refused env m' disk.id standard operator "" d' left refl).0,
      λ env operator reason. (erasing_refused env m' disk.id "" operator reason d' left refl).1,
    )
