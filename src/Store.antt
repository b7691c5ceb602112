-- ===== src/Store.antt =====
-- internal/store/memory.go: the in-process store and its methods, one child for each group.
pub mod State
pub mod Assets
pub mod Disks
pub mod Jobs
pub mod Acquire
pub mod Documents
pub mod Approvals
pub mod Commands
pub mod AppendOnly
pub mod AssetLife
pub mod ApprovalLife
pub mod SingleApproval
pub mod Keyed
pub mod Claims
pub mod Ledger
