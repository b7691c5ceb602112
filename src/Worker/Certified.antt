-- ===== src/Worker/Certified.antt =====
-- internal/worker/worker.go: what a new certificate says of the device.
use xiesg0915_work.Prelude.{
  ℕ, ◌≡◌, ◌≢◌, refl, ◌∙◌, ◌==◌, false, some, none, inl, inr, Option, ltb, arith, Option-cases,
  Bool-cases,
}
use xiesg0915_work.Domain.Entities.{Disk, ErasureJob, Standard, VerifyResult}
use xiesg0915_work.Store.State.{Memory}
use xiesg0915_work.Store.Jobs.{save_progress, complete_job}
use xiesg0915_work.Store.Disks.{update_disk_status}
use xiesg0915_work.Erasure.Device.{Device, Progress, RunError}
use xiesg0915_work.Erasure.Engine.{Rig, with_defaults}
use xiesg0915_work.Erasure.Verify.{run}
use xiesg0915_work.Erasure.Sound.{IsClean}
use xiesg0915_work.Erasure.Clean.{run-IsClean, run-kept}
use xiesg0915_work.Worker.Job.{
  Setting, Cursor, options, on_progress, settle_mismatch, settle, drive,
}
use xiesg0915_work.Worker.Outcomes.{fail_job-keeps, settle_error-keeps}

on_progress-certs :
    (s : Setting) (job : ErasureJob) (p : Progress) (m : Memory) (n : ℕ)
    → (on_progress s job p (m, n)).1.0.certs ≡ m.certs
unfolding on_progress save_progress
on_progress-certs s job p m n = ground arith

settle_mismatch-certs :
    (s : Setting) (job : ErasureJob) (disk : Disk) (c : Cursor) (n : ℕ) (vr : VerifyResult)
    (m : Memory)
    → (settle_mismatch s job disk c n vr m).certs ≡ m.certs
unfolding settle_mismatch complete_job update_disk_status
settle_mismatch-certs s job disk c n vr m = ground arith

-- Where the certificates have changed, the run has returned no error and no mismatch.
settle-certs :
    (s : Setting) (std : Standard) (job : ErasureJob) (disk : Disk) (c : Cursor) (size : ℕ)
    (o : Option RunError) (vr : VerifyResult) (r : Rig (Memory × ℕ))
    → (settle s std job disk c size (o, vr, r)).certs ≢ r.state.0.certs
    → (o ≡ none) × (vr.mismatches ≡ 0)
unfolding settle
settle-certs s std job disk c size (some e) vr r h =
    absurd (h (settle_error-keeps s job c r.state.1 e r.state.0).1)
settle-certs s std job disk c size none vr r h = elim (Bool-cases (ltb 0 vr.mismatches)) [
  | inl b ↦ absurd (h (rw b (settle_mismatch-certs s job disk c r.state.1 vr r.state.0)))
  | inr b ↦ (refl, ground arith)
]

-- The device that a run of the worker leaves is wiped.
pub record LeavesClean (s : Setting) (std : Standard) (job : ErasureJob) (c : Cursor)
    (left : Option Device) : Type 0 where
  pub device : Device
  pub left_open : left ≡ some device
  pub clean :
      IsClean s.externals s.world (on_progress s job) (with_defaults (options s std job c)) device

-- No certificate without a wiped disk: if a run of the worker for a standard with a full verification
-- changes the certificates of the store, whatever faults it meets and wherever it resumes, then every
-- byte of the device that it leaves is the one that the last pass of the standard writes there.
pub drive-LeavesClean :
    (s : Setting) (std : Standard) (job : ErasureJob) (disk : Disk) (c : Cursor) (dev : Device)
    (m : Memory)
    → (std.verify_mode == "sample") ≡ false
    → (drive s std job disk c dev m).0.certs ≢ m.certs
    → LeavesClean s std job c (drive s std job disk c dev m).1
unfolding drive
drive-LeavesClean s std job disk c dev m full h = elim (Option-cases s.world.size_fault) [
  | inr (e, f) ↦ absurd (h (rw (f, drive) (fail_job-keeps s job "size" m).1))
  | inl f ↦
      let r : Rig (Memory × ℕ) = record { device = dev; state = (m, 0) } in
      let opt = options s std job c in
      let out = run s.externals s.world (on_progress s job) opt r in
      let kept =
        run-kept s.externals s.world (on_progress s job) opt (λ q. q.0.certs ≡ m.certs)
          (λ p q k. on_progress-certs s job p q.0 q.1 ∙ k) r refl in
      let passed =
        settle-certs s std job disk c dev.size out.0 out.1 out.2
          (λ e. h (ground (arith, f, e, kept))) in
      record {
        device = out.2.device;
        left_open = ground (arith, f);
        clean = run-IsClean s.externals s.world (on_progress s job) opt r full passed.0 passed.1;
      }
]
