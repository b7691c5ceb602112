-- ===== src/Domain/Entities.antt =====
-- internal/domain/domain.go: the entities. A time is a number of nanoseconds, 0 for the zero time;
-- a pointer to a time is an option.
use xiesg0915_work.Prelude.{ℕ, String, Bool, Option, List, ◌||◌}
use xiesg0915_work.Domain.Status.{
  AssetStatus, DiskStatus, JobStatus, ApprovalStatus, same_approval_status,
}

abbrev pub Time : Type 0
Time = ℕ

pub record Asset : Type 0 where
  pub id : String
  pub tag : String
  pub hostname : String
  pub vendor : String
  pub model : String
  pub sn : String
  pub room : String
  pub rack : String
  pub owner : String
  pub status : AssetStatus
  pub registered_by : String
  pub created_at : Time
  pub updated_at : Time

pub record Disk : Type 0 where
  pub id : String
  pub asset_id : String
  pub serial : String
  pub model : String
  pub kind : String
  pub capacity_gb : ℕ
  pub device_path : String
  pub slot : String
  pub status : DiskStatus
  pub pulled_by : String
  pub pulled_at : Option Time
  pub created_at : Time

pub record PassSpec : Type 0 where
  pub index : ℕ
  pub pattern : String

pub record Standard : Type 0 where
  pub code : String
  pub name : String
  pub description : String
  pub passes : List PassSpec
  pub verify_mode : String

pub record ErasureJob : Type 0 where
  pub id : String
  pub disk_id : String
  pub standard : String
  pub status : JobStatus
  pub attempt : ℕ
  pub current_pass : ℕ
  pub total_bytes : ℕ
  pub bytes_done : ℕ
  pub error : String
  pub created_by : String
  pub locked_by : String
  pub locked_at : Time
  pub started_at : Option Time
  pub finished_at : Option Time
  pub created_at : Time
  pub updated_at : Time

pub record Checkpoint : Type 0 where
  pub job_id : String
  pub pass : ℕ
  pub offset : ℕ
  pub heartbeat_at : Time
  pub updated_at : Time

pub record ErasureRun : Type 0 where
  pub id : String
  pub job_id : String
  pub attempt : ℕ
  pub started_at : Time
  pub finished_at : Time
  pub resumed : Bool
  pub wrote_bytes : ℕ
  pub verify_mode : String
  pub verify_bytes : ℕ
  pub mismatches : ℕ
  pub result : String
  pub note : String

-- One checked range of a sampled verification, and the result of a verification.
pub record SamplePoint : Type 0 where
  pub offset : ℕ
  pub extent : ℕ

pub record VerifyResult : Type 0 where
  pub mode : String
  pub bytes : ℕ
  pub mismatches : ℕ
  pub samples : List SamplePoint

pub record Certificate : Type 0 where
  pub cert_no : String
  pub disk_id : String
  pub asset_id : String
  pub job_id : String
  pub standard : String
  pub standard_name : String
  pub disk_serial : String
  pub disk_model : String
  pub capacity_gb : ℕ
  pub asset_tag : String
  pub passes : List PassSpec
  pub started_at : Time
  pub finished_at : Time
  pub attempts : ℕ
  pub verify_mode : String
  pub verify_bytes : ℕ
  pub report_key : String
  pub cert_key : String
  pub report_sha256 : String
  pub operator : String
  pub created_at : Time

pub record DisposalConfirmation : Type 0 where
  pub id : String
  pub asset_id : String
  pub asset_tag : String
  pub method : String
  pub receiver : String
  pub receiver_org : String
  pub note : String
  pub operator : String
  pub signed_at : Time

pub record DecommissionApproval : Type 0 where
  pub id : String
  pub asset_id : String
  pub asset_tag : String
  pub standard : String
  pub method : String
  pub reason : String
  pub applicant : String
  pub status : ApprovalStatus
  pub reviewer : String
  pub review_note : String
  pub reviewed_at : Option Time
  pub version : ℕ
  pub created_at : Time
  pub updated_at : Time

-- The text of an audit entry: a text of the caller, or a format with its arguments.
pub data Detail : Type 0 where
  plain : String → Detail
  registered : (tag vendor model sn : String) → Detail
  job_created : (disk standard : String) (attempt : ℕ) → Detail
  job_acquired : (worker : String) (status : JobStatus) (pass offset : ℕ) → Detail
  certificate_issued : (disk asset report : String) → Detail
  disposal_signed : (method org receiver : String) → Detail
  approval_submitted : (tag standard method : String) (version : ℕ) → Detail
  approval_reviewed : (tag : String) (to : ApprovalStatus) (note : String) → Detail
  approval_withdrawn : (tag : String) (version : ℕ) → Detail
  disks_pulled : ℕ → Detail
  erase_started : (job : String) (attempt : ℕ) (resumed : Bool) → Detail
  reverified : (mode : String) (bytes mismatches : ℕ) → Detail
  scrapped_for : String → Detail

pub record AuditLog : Type 0 where
  pub id : String
  pub time : Time
  pub actor : String
  pub action : String
  pub entity_type : String
  pub entity_id : String
  pub detail : Detail
  pub request_id : String

-- DecommissionApproval.Active
abbrev pub active : DecommissionApproval → Bool
active a =
    same_approval_status a.status ApprovalStatus.pending
    || same_approval_status a.status ApprovalStatus.approved
