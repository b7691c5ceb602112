-- ===== src/Worker/Reverify.antt =====
-- internal/worker/worker.go: Reverify, the read-only verification of a disk that was wiped before.
use xiesg0915_work.Prelude.{
  ◌<◌, ◌≡◌, ◌∙◌, subst, ◌⊎◌, inl, inr, String, Bool, ◌||◌, Option, none, some, List, [], ◌∷◌, ltb,
  lookup, lookup-put, eq_refl, ltb→lt, if◌then◌else◌, arith, Bool-cases,
}
use xiesg0915_work.Result.{
  conflict, other, Result, Result-cases, ok, err, Exec, pure, raise, attempt, require, ◌>>=◌, ◌>>◌,
}
use xiesg0915_work.Domain.Status.{DiskStatus, same_disk_status}
use xiesg0915_work.Domain.Entities.{Disk, ErasureJob, Standard, VerifyResult, reverified}
use xiesg0915_work.Domain.Standards.{get_standard}
use xiesg0915_work.Store.State.{Memory, entry}
use xiesg0915_work.Store.Disks.{get_disk, update_disk_status}
use xiesg0915_work.Store.Jobs.{list_jobs}
use xiesg0915_work.Store.Documents.{append_audit}
use xiesg0915_work.Erasure.Device.{Device, Fault, Progress}
use xiesg0915_work.Erasure.Verify.{verify_only}
use xiesg0915_work.Worker.Names.{allowed_device_path}
use xiesg0915_work.Worker.Job.{Setting, from_start, options}

-- A nil progress function.
abbrev unreported : Progress → Unit {0} → Option Fault × Unit {0}
unreported p u = (none, u)

-- `jobs[0]`, which is the newest.
abbrev newest : Result (List ErasureJob) → Exec Memory ErasureJob
newest (ok (j ∷ js)) = pure j
newest (ok []) = raise (other "no erasure job found for disk")
newest (err e) = raise (other "no erasure job found for disk")

abbrev present : {A : Type 0} → String → Option A → Exec Memory A
present cause none = raise (other cause)
present cause (some a) = pure a

-- erasure.Verify on the open device.
unfoldable pub verified_device : Setting → Standard → ErasureJob → Device → Exec Memory VerifyResult
verified_device s std job dev m =
    let out =
      verify_only s.externals s.world unreported (options s std job from_start)
        (record { device = dev; state = tt }) in
    elim out.0 [ some e ↦ (err (other "verify"), m) | none ↦ (ok out.1, m) ]

-- What the result leads to: a mismatch marks the disk as failed, and every result is logged.
unfoldable pub record_reverify :
    Setting → (disk_id operator : String) → VerifyResult → Memory → Memory
record_reverify s disk_id operator res m =
    let detail = reverified res.mode res.bytes res.mismatches in
    let marked =
      if ltb 0 res.mismatches
      then (update_disk_status (s.env 0) disk_id DiskStatus.failed operator detail m).1
      else m in
    (append_audit (s.env 1) (entry operator "disk.reverify" "disk" disk_id detail) marked).1

-- The checks before the verification. `slot` is whether a slot came free before the context ended.
unfoldable pub reverify_target :
    Setting → (slot : Bool) → (disk_id : String) → Exec Memory (Standard × ErasureJob × Device)
reverify_target s slot disk_id = do
  disk ← get_disk disk_id
  require
      (same_disk_status disk.status DiskStatus.verified
        || same_disk_status disk.status DiskStatus.failed)
      (conflict "reverify only after wiping")
  require (allowed_device_path s.prefixes disk.device_path) (other "device path is not allowed")
  jobs ← attempt (list_jobs disk_id)
  last ← newest jobs
  std ← present "unknown erasure standard" (get_standard last.standard)
  require slot (other "cancelled")
  dev ← present "open device" (s.open_device disk.device_path)
  pure (std, last, dev)

unfoldable pub reverify :
    Setting → (slot : Bool) → (disk_id operator : String) → Exec Memory VerifyResult
unfolding reverify_target verified_device record_reverify
reverify s slot disk_id operator m =
    let target = reverify_target s slot disk_id m in
    elim target.0 [
      | err e ↦ (err e, target.1)
      | ok (std, job, dev) ↦
          let seen = verified_device s std job dev target.1 in
          elim seen.0 [
            | err e ↦ (err e, seen.1)
            | ok res ↦ (ok res, record_reverify s disk_id operator res seen.1)
          ]
    ]

reverify_target-state :
    (s : Setting) (slot : Bool) (disk_id : String) (m : Memory)
    → (reverify_target s slot disk_id m).1 ≡ m
unfolding reverify_target get_disk list_jobs
reverify_target-state s slot disk_id m = ground arith

verified_device-state :
    (s : Setting) (std : Standard) (job : ErasureJob) (dev : Device) (m : Memory)
    → (verified_device s std job dev m).1 ≡ m
unfolding verified_device
verified_device-state s std job dev m = ground arith

-- What a verification with the result `res` changes in the store.
pub record IsJudged (disk_id : String) (d : Disk) (res : VerifyResult) (m m' : Memory)
    : Type 0 where
  pub certs : m'.certs ≡ m.certs
  pub jobs : m'.jobs ≡ m.jobs
  pub assets : m'.assets ≡ m.assets
  pub verdict :
      ((res.mismatches ≡ 0) × (m'.disks ≡ m.disks))
      ⊎ ((0 < res.mismatches)
          × (lookup disk_id m'.disks ≡ some (record d { status = DiskStatus.failed })))

record_reverify-IsJudged :
    (s : Setting) (disk_id operator : String) (d : Disk) (res : VerifyResult) (m : Memory)
    → lookup disk_id m.disks ≡ some d
    → IsJudged disk_id d res m (record_reverify s disk_id operator res m)
unfolding record_reverify update_disk_status append_audit
record_reverify-IsJudged s disk_id operator d res m f = record {
  certs = ground arith;
  jobs = ground arith;
  assets = ground arith;
  verdict = elim (Bool-cases (ltb 0 res.mismatches)) [
    | inr b ↦ inl (ground arith, ground (arith, b))
    | inl b ↦ inr (
      ltb→lt 0 res.mismatches b,
      ground (
        arith,
        b,
        f,
        eq_refl disk_id,
        lookup-put disk_id disk_id (record d { status = DiskStatus.failed }) m.disks,
      ),
    )
  ];
}

-- A verification of a wiped disk that returns a result leaves the certificates, the jobs and the
-- assets as they are; without a mismatch it leaves the disks too, and with one it marks its disk as
-- failed.
pub reverify-IsJudged :
    (s : Setting) (slot : Bool) (disk_id operator : String) (d : Disk) (m : Memory)
    (res : VerifyResult)
    → lookup disk_id m.disks ≡ some d
    → (reverify s slot disk_id operator m).0 ≡ ok res
    → IsJudged disk_id d res m (reverify s slot disk_id operator m).1
unfolding reverify
reverify-IsJudged s slot disk_id operator d m res f h =
    let target = reverify_target s slot disk_id m in
    elim (Result-cases target.0) [
      | inr (e, g) ↦ absurd (ground (arith, g))
      | inl (t, g) ↦
          let seen = verified_device s t.0 t.1 t.2 target.1 in
          let same =
            verified_device-state s t.0 t.1 t.2 target.1 ∙ reverify_target-state s slot disk_id m in
          elim (Result-cases seen.0) [
            | inr (e, k) ↦ absurd (ground (arith, g, k))
            | inl (res', k) ↦
                subst (IsJudged disk_id d res m) (ground (arith, g, k, same))
                  (record_reverify-IsJudged s disk_id operator d res m f)
          ]
    ]
