-- ===== src/Scenarios/Services.antt =====
-- The gates of internal/service at small stores.
use xiesg0915_work.Prelude.{◌≡◌, false, refl, some, put, [], ◌∷◌, lookup}
use xiesg0915_work.Result.{ok}
use xiesg0915_work.Domain.Status.{AssetStatus, DiskStatus, ApprovalStatus}
use xiesg0915_work.Store.State.{Memory}
use xiesg0915_work.Store.Approvals.{
  find_active, get_approval, get_active_approval, review_approval, withdraw_approval,
}
use xiesg0915_work.Store.Assets.{get_asset, transition_asset}
use xiesg0915_work.Store.Disks.{create_disk}
use xiesg0915_work.Store.Documents.{save_disposal, get_disposal}
use xiesg0915_work.Service.Requests.{review, withdraw, approved_approval, known_method}
use xiesg0915_work.Service.Execution.{
  DiskInput, pull_disks, create_disks, DisposalInput, confirm_disposal, ready_for_disposal,
}
use xiesg0915_work.Service.Gates.{MayPull, pull_disks_gate}
use xiesg0915_work.Service.Disposal.{MayDispose, confirm_disposal_gate}
use xiesg0915_work.Service.Signing.{IsSigned, confirm_disposal-IsSigned}
use xiesg0915_work.Domain.Entities.{DecommissionApproval}
use xiesg0915_work.Service.Reviews.{
  IsReviewed, review_gate, IsWithdrawn, withdraw_gate, withdraw-again,
}
use xiesg0915_work.Domain.Status.{can_transition_asset, can_transition_approval}
use xiesg0915_work.Scenarios.Scenes.{envs, request, store}

abbrev pulled_store : Memory
pulled_store = store AssetStatus.disk_pulled DiskStatus.pulled ApprovalStatus.approved []

abbrev disk_input : DiskInput
disk_input = record {
  serial = "WD-2";
  model = "WD";
  kind = "";
  capacity_gb = 500;
  device_path = "/dev/sdc";
  slot = "2";
}

abbrev approved_store : Memory
approved_store = store AssetStatus.pending DiskStatus.pulled ApprovalStatus.approved []

pull_disks_gate_example : MayPull "a1" "carol" approved_store
unfolding pull_disks create_disks create_disk get_asset approved_approval get_active_approval
    find_active transition_asset can_transition_asset lookup
pull_disks_gate_example =
    pull_disks_gate envs 1000 "a1" "carol" (disk_input ∷ []) approved_store _ refl

abbrev disposal_input : DisposalInput
disposal_input = record {
  method = "resale";
  receiver = "erin";
  receiver_org = "recycler";
  note = "";
  operator = "carol";
}

abbrev erased_store : Memory
erased_store = store AssetStatus.erasure_verified DiskStatus.verified ApprovalStatus.approved []

confirm_disposal_gate_example : MayDispose "a1" "resale" erased_store
unfolding confirm_disposal known_method get_asset ready_for_disposal approved_approval
    get_active_approval find_active save_disposal get_disposal can_transition_asset lookup put
confirm_disposal_gate_example = confirm_disposal_gate envs "a1" disposal_input erased_store _ refl

abbrev requested_store : Memory
requested_store = store AssetStatus.pending DiskStatus.pulled ApprovalStatus.pending []

review_gate_example :
    IsReviewed "p1" "bob" "no" false requested_store
      (record (request ApprovalStatus.rejected) {
        review_note = "no";
        reviewed_at = some 1000;
        updated_at = 1000;
      })
      (review envs "p1" "bob" false "no" requested_store).1
unfolding review get_approval review_approval can_transition_approval lookup
review_gate_example = review_gate envs "p1" "bob" "no" false requested_store _ refl

withdraw_gate_example :
    IsWithdrawn "p1" "alice" approved_store
      (record (request ApprovalStatus.withdrawn) { updated_at = 1000 })
      (withdraw envs "p1" "alice" approved_store).1
unfolding withdraw get_approval withdraw_approval can_transition_approval lookup
withdraw_gate_example = withdraw_gate envs "p1" "alice" approved_store _ refl

confirm_disposal-IsSigned_example :
    let out = confirm_disposal envs "a1" disposal_input erased_store in
    IsSigned "a1" disposal_input erased_store
      (record {
        id = "f1";
        asset_id = "a1";
        asset_tag = "SRV-1";
        method = "resale";
        receiver = "erin";
        receiver_org = "recycler";
        note = "";
        operator = "carol";
        signed_at = 1000;
      })
      out.1
unfolding confirm_disposal known_method get_asset ready_for_disposal approved_approval
    get_active_approval find_active save_disposal get_disposal can_transition_asset lookup put
confirm_disposal-IsSigned_example =
    confirm_disposal-IsSigned envs "a1" disposal_input erased_store _ refl

-- A withdrawn request of an asset whose execution went on under another one.
abbrev withdrawn_store : Memory
withdrawn_store = store AssetStatus.erasing DiskStatus.erasing ApprovalStatus.withdrawn []

withdraw-again_example :
    let out = withdraw envs "p1" "alice" withdrawn_store in
    let a : DecommissionApproval = record (request ApprovalStatus.withdrawn) {
      updated_at = 1000;
    } in
    (out.0 ≡ ok a) × (lookup "p1" out.1.approvals ≡ some a)
unfolding lookup
withdraw-again_example =
    withdraw-again envs "p1" "alice" withdrawn_store (request ApprovalStatus.withdrawn) (λ e. cc)
      refl refl refl
