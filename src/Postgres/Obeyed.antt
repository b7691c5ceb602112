-- ===== src/Postgres/Obeyed.antt =====
-- internal/store/pg.go: a relation that every statement of the database obeys.
use xiesg0915_work.Prelude.{ℕ, String, ◌≡◌}
use xiesg0915_work.Domain.Status.{AssetStatus, DiskStatus, ApprovalStatus}
use xiesg0915_work.Domain.Entities.{
  Asset, Disk, ErasureJob, ErasureRun, Certificate, DisposalConfirmation, DecommissionApproval,
  AuditLog,
}
use xiesg0915_work.Store.State.{Env}
use xiesg0915_work.Store.Approvals.{reviewed}
use xiesg0915_work.Postgres.Database.{Database, JobRow}
use xiesg0915_work.Postgres.Statements.{
  insert_asset, update_asset_status, insert_disk, update_disk, insert_certificate, insert_disposal,
  insert_approval, update_approval, insert_audit,
}
use xiesg0915_work.Postgres.Queue.{insert_job, claim_job, update_job, upsert_checkpoint, insert_run}
use xiesg0915_work.Postgres.Approvals.{withdrawn}
use xiesg0915_work.Postgres.Moves.{Preorder, Leads}

-- A change of a job's row that leaves the job and its disk.
abbrev pub IsSameJob : (JobRow → JobRow) → Type 0
IsSameJob change =
    (r : JobRow) → ((change r).job.id ≡ r.job.id) × ((change r).job.disk_id ≡ r.job.disk_id)

-- Every statement leaves a related database.
pub record Obeyed (R : Database → Database → Type 0) : Type 0 where
  pub preorder : Preorder R
  pub insert_asset : (env : Env) (a : Asset) (db : Database) → Leads R db (insert_asset env a db)
  pub update_asset :
      (env : Env) (id : String) (to : AssetStatus) (db : Database)
      → Leads R db (update_asset_status env id to db)
  pub insert_disk : (env : Env) (d : Disk) (db : Database) → Leads R db (insert_disk env d db)
  pub update_disk :
      (id : String) (s : DiskStatus) (db : Database) → Leads R db (update_disk id s db)
  pub insert_job : (env : Env) (j : ErasureJob) (db : Database) → Leads R db (insert_job env j db)
  pub claim_job :
      (env : Env) (w : String) (s : ℕ) (db : Database) → Leads R db (claim_job env w s db)
  pub update_job :
      (id : String) (change : JobRow → JobRow) (db : Database)
      → IsSameJob change
      → Leads R db (update_job id change db)
  pub upsert_checkpoint :
      (env : Env) (id : String) (p o : ℕ) (db : Database)
      → Leads R db (upsert_checkpoint env id p o db)
  pub insert_run : (env : Env) (r : ErasureRun) (db : Database) → Leads R db (insert_run env r db)
  pub insert_certificate :
      (env : Env) (c : Certificate) (db : Database) → Leads R db (insert_certificate env c db)
  pub insert_disposal :
      (env : Env) (d : DisposalConfirmation) (db : Database) → Leads R db (insert_disposal env d db)
  pub insert_approval :
      (env : Env) (a : DecommissionApproval) (db : Database) → Leads R db (insert_approval env a db)
  pub review :
      (env : Env) (id : String) (to : ApprovalStatus) (reviewer note : String) (db : Database)
      → Leads R db (update_approval id (reviewed env to reviewer note) db)
  pub withdraw :
      (env : Env) (id : String) (db : Database) → Leads R db (update_approval id (withdrawn env) db)
  pub insert_audit : (env : Env) (l : AuditLog) (db : Database) → Leads R db (insert_audit env l db)
