-- ===== src/Domain/Status.antt =====
-- internal/domain/domain.go and standards.go: the status types and the two transition tables.
-- `unset` is the zero value of the string type, which the source reads as "no status".
use xiesg0915_work.Prelude.{Bool, true, false, String, ◌||◌}

pub data AssetStatus : Type 0 where
  unset in_service pending disk_pulled erasing erasure_verified scrapped disposed : AssetStatus

pub data DiskStatus : Type 0 where
  unset pulled erasing verified failed scrapped : DiskStatus

pub data JobStatus : Type 0 where
  unset pending running verifying verified failed : JobStatus

pub data ApprovalStatus : Type 0 where
  unset pending approved rejected withdrawn : ApprovalStatus

-- The text of a disk status, as it stands in an audit action.
abbrev pub disk_status_text : DiskStatus → String
disk_status_text DiskStatus.unset = ""
disk_status_text DiskStatus.pulled = "pulled"
disk_status_text DiskStatus.erasing = "erasing"
disk_status_text DiskStatus.verified = "verified"
disk_status_text DiskStatus.failed = "failed"
disk_status_text DiskStatus.scrapped = "scrapped"

-- `==` on each of the status types.
abbrev pub same_asset_status : AssetStatus → AssetStatus → Bool
same_asset_status AssetStatus.unset AssetStatus.unset = true
same_asset_status AssetStatus.in_service AssetStatus.in_service = true
same_asset_status AssetStatus.pending AssetStatus.pending = true
same_asset_status AssetStatus.disk_pulled AssetStatus.disk_pulled = true
same_asset_status AssetStatus.erasing AssetStatus.erasing = true
same_asset_status AssetStatus.erasure_verified AssetStatus.erasure_verified = true
same_asset_status AssetStatus.scrapped AssetStatus.scrapped = true
same_asset_status AssetStatus.disposed AssetStatus.disposed = true
same_asset_status _ _ = false

abbrev pub same_disk_status : DiskStatus → DiskStatus → Bool
same_disk_status DiskStatus.unset DiskStatus.unset = true
same_disk_status DiskStatus.pulled DiskStatus.pulled = true
same_disk_status DiskStatus.erasing DiskStatus.erasing = true
same_disk_status DiskStatus.verified DiskStatus.verified = true
same_disk_status DiskStatus.failed DiskStatus.failed = true
same_disk_status DiskStatus.scrapped DiskStatus.scrapped = true
same_disk_status _ _ = false

abbrev pub same_job_status : JobStatus → JobStatus → Bool
same_job_status JobStatus.unset JobStatus.unset = true
same_job_status JobStatus.pending JobStatus.pending = true
same_job_status JobStatus.running JobStatus.running = true
same_job_status JobStatus.verifying JobStatus.verifying = true
same_job_status JobStatus.verified JobStatus.verified = true
same_job_status JobStatus.failed JobStatus.failed = true
same_job_status _ _ = false

abbrev pub same_approval_status : ApprovalStatus → ApprovalStatus → Bool
same_approval_status ApprovalStatus.unset ApprovalStatus.unset = true
same_approval_status ApprovalStatus.pending ApprovalStatus.pending = true
same_approval_status ApprovalStatus.approved ApprovalStatus.approved = true
same_approval_status ApprovalStatus.rejected ApprovalStatus.rejected = true
same_approval_status ApprovalStatus.withdrawn ApprovalStatus.withdrawn = true
same_approval_status _ _ = false

-- The table AssetTransitions, a missing entry read as false.
unfoldable pub asset_transitions : AssetStatus → AssetStatus → Bool
asset_transitions AssetStatus.in_service AssetStatus.pending = true
asset_transitions AssetStatus.pending AssetStatus.disk_pulled = true
asset_transitions AssetStatus.disk_pulled AssetStatus.erasing = true
asset_transitions AssetStatus.disk_pulled AssetStatus.scrapped = true
asset_transitions AssetStatus.erasing AssetStatus.erasure_verified = true
asset_transitions AssetStatus.erasing AssetStatus.scrapped = true
asset_transitions AssetStatus.erasure_verified AssetStatus.disposed = true
asset_transitions AssetStatus.scrapped AssetStatus.disposed = true
asset_transitions _ _ = false

-- The table ApprovalTransitions.
unfoldable pub approval_transitions : ApprovalStatus → ApprovalStatus → Bool
approval_transitions ApprovalStatus.pending ApprovalStatus.approved = true
approval_transitions ApprovalStatus.pending ApprovalStatus.rejected = true
approval_transitions ApprovalStatus.pending ApprovalStatus.withdrawn = true
approval_transitions ApprovalStatus.approved ApprovalStatus.withdrawn = true
approval_transitions _ _ = false

-- `true` where CanTransitionAsset returns nil, `false` where it returns an error.
unfoldable pub can_transition_asset : AssetStatus → AssetStatus → Bool
unfolding asset_transitions
can_transition_asset from to = same_asset_status from to || asset_transitions from to

unfoldable pub can_transition_approval : ApprovalStatus → ApprovalStatus → Bool
unfolding approval_transitions
can_transition_approval from to = same_approval_status from to || approval_transitions from to
