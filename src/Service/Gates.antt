-- ===== src/Service/Gates.antt =====
-- What must have happened before the service lets an operation through.
use xiesg0915_work.Prelude.{
  String, false, ◌≡◌, ◌≢◌, ◌⊎◌, inl, inr, some, List, ◌==◌, eq_iff, lookup, values, arith,
  Option-cases,
}
use xiesg0915_work.Result.{ok, Result-cases}
use xiesg0915_work.Domain.Status.{AssetStatus, DiskStatus, ApprovalStatus}
use xiesg0915_work.Domain.Entities.{Time, Asset, Disk, DecommissionApproval}
use xiesg0915_work.Store.State.{Memory}
use xiesg0915_work.Store.Assets.{get_asset}
use xiesg0915_work.Store.Approvals.{find_active, get_active_approval}
use xiesg0915_work.Service.Requests.{Envs, approved_approval}
use xiesg0915_work.Service.Execution.{DiskInput, pull_disks}

-- The open request of the asset, as the service finds it, is approved.
pub record IsApproved (asset_id : String) (m : Memory) (ap : DecommissionApproval) : Type 0 where
  pub found : find_active asset_id (values m.approvals) ≡ some ap
  pub approved : ap.status ≡ ApprovalStatus.approved

-- The gate reads the store and changes nothing; what passes it is an approved request.
pub approved_approval-state :
    (asset_id : String) (m : Memory) → (approved_approval asset_id m).1 ≡ m
unfolding approved_approval get_active_approval
approved_approval-state asset_id m = ground arith

pub approved_approval-ok :
    (asset_id : String) (m : Memory) (ap : DecommissionApproval)
    → (approved_approval asset_id m).0 ≡ ok ap
    → IsApproved asset_id m ap
unfolding approved_approval get_active_approval
approved_approval-ok asset_id m ap h = record { found = ground arith; approved = ground arith }

-- What lets a disk's wipe be queued.
pub record MayWipe (disk_id standard : String) (m : Memory) : Type 0 where
  pub disk : Disk
  pub stored : lookup disk_id m.disks ≡ some disk
  pub waiting : (disk.status ≡ DiskStatus.pulled) ⊎ (disk.status ≡ DiskStatus.failed)
  pub approval : DecommissionApproval
  pub gate : IsApproved disk.asset_id m approval
  pub standard_approved : approval.standard ≡ standard

-- What lets disks be pulled from an asset.
pub record MayPull (asset_id operator : String) (m : Memory) : Type 0 where
  pub named : operator ≢ ""
  pub asset : Asset
  pub stored : lookup asset_id m.assets ≡ some asset
  pub pending : asset.status ≡ AssetStatus.pending
  pub approval : DecommissionApproval
  pub gate : IsApproved asset_id m approval

pull_checks :
    (env : Envs) (now : Time) (asset_id operator : String) (is : List DiskInput) (m : Memory)
    (out : Asset × List Disk) (a : Asset)
    → lookup asset_id m.assets ≡ some a
    → (pull_disks env now asset_id operator is m).0 ≡ ok out
    → ((operator == "") ≡ false) × (a.status ≡ AssetStatus.pending)
unfolding pull_disks get_asset
pull_checks env now asset_id operator is m out a f h = (ground (arith, f), ground (arith, f))

-- Disks are pulled only by a named operator from an asset that is pending and whose open request
-- security has approved.
pub pull_disks_gate :
    (env : Envs) (now : Time) (asset_id operator : String) (is : List DiskInput) (m : Memory)
    (out : Asset × List Disk)
    → (pull_disks env now asset_id operator is m).0 ≡ ok out
    → MayPull asset_id operator m
unfolding pull_disks get_asset
pull_disks_gate env now asset_id operator is m out h =
    elim (Option-cases (lookup asset_id m.assets)) [
      | inl n ↦ absurd (ground (arith, n))
      | inr (a, f) ↦ elim (Result-cases (approved_approval asset_id m).0) [
        | inr (e, n) ↦ absurd (ground (arith, n, f))
        | inl (ap, e) ↦
            let checks = pull_checks env now asset_id operator is m out a f h in
            record {
              named = λ same. cc (checks.0, (eq_iff operator "").1 same);
              asset = a;
              stored = f;
              pending = checks.1;
              approval = ap;
              gate = approved_approval-ok asset_id m ap e;
            }
      ]
    ]
