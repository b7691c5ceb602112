-- ===== src/Postgres/Integrity.antt =====
-- migrations/*.sql: the foreign keys and the unique index on open requests, as an invariant of the
-- database.
use xiesg0915_work.Prelude.{
  String, true, ◌≡◌, List, [], ◌∷◌, ◌++◌, All, All-imply, All-append, All-put, Table, has, has-put,
  put, lookup, values,
}
use xiesg0915_work.Domain.Entities.{
  Asset, Disk, Checkpoint, ErasureRun, Certificate, DisposalConfirmation, DecommissionApproval,
  AuditLog,
}
use xiesg0915_work.Store.SingleApproval.{IsSingle}
use xiesg0915_work.Postgres.Database.{Database, JobRow, new_database}

-- Every row names a row of the other table.
abbrev pub Refers {ℓ κ} : {V : Type ℓ} {W : Type κ} → (V → String) → List V → Table W → Type 0
Refers key rows t = All (λ v. has (key v) t ≡ true) rows

Refers-put :
    {V W : Type 0} (key : V → String) (rows : List V) (k : String) (w : W) (t : Table W)
    → Refers key rows t
    → Refers key rows (put k w t)
Refers-put key rows k w t h = All-imply rows (λ v e. has-put k (key v) w t e) h

pub record IsSound (db : Database) : Type 0 where
  pub disk_asset : Refers (λ (d : Disk). d.asset_id) (values db.disks) db.assets
  pub job_disk : Refers (λ (r : JobRow). r.job.disk_id) (values db.jobs) db.disks
  pub checkpoint_job : Refers (λ (c : Checkpoint). c.job_id) (values db.checkpoints) db.jobs
  pub run_job : Refers (λ (r : ErasureRun). r.job_id) db.runs db.jobs
  pub cert_disk : Refers (λ (c : Certificate). c.disk_id) (values db.certs) db.disks
  pub cert_asset : Refers (λ (c : Certificate). c.asset_id) (values db.certs) db.assets
  pub cert_job : Refers (λ (c : Certificate). c.job_id) (values db.certs) db.jobs
  pub disposal_asset :
      Refers (λ (d : DisposalConfirmation). d.asset_id) (values db.disposals) db.assets
  pub approval_asset :
      Refers (λ (a : DecommissionApproval). a.asset_id) (values db.approvals) db.assets
  pub single : IsSingle db.approvals

-- A row is put into one table, and what it names is there.
pub put_assets-IsSound :
    (k : String) (v : Asset) (db : Database)
    → IsSound db
    → IsSound (record db { assets = put k v db.assets })
put_assets-IsSound k v db s = record {
  disk_asset = Refers-put _ _ k v db.assets s.disk_asset;
  job_disk = s.job_disk;
  checkpoint_job = s.checkpoint_job;
  run_job = s.run_job;
  cert_disk = s.cert_disk;
  cert_asset = Refers-put _ _ k v db.assets s.cert_asset;
  cert_job = s.cert_job;
  disposal_asset = Refers-put _ _ k v db.assets s.disposal_asset;
  approval_asset = Refers-put _ _ k v db.assets s.approval_asset;
  single = s.single;
}

pub put_disks-IsSound :
    (k : String) (v : Disk) (db : Database)
    → IsSound db
    → has v.asset_id db.assets ≡ true
    → IsSound (record db { disks = put k v db.disks })
put_disks-IsSound k v db s h1 = record {
  disk_asset = All-put _ k v db.disks h1 s.disk_asset;
  job_disk = Refers-put _ _ k v db.disks s.job_disk;
  checkpoint_job = s.checkpoint_job;
  run_job = s.run_job;
  cert_disk = Refers-put _ _ k v db.disks s.cert_disk;
  cert_asset = s.cert_asset;
  cert_job = s.cert_job;
  disposal_asset = s.disposal_asset;
  approval_asset = s.approval_asset;
  single = s.single;
}

pub put_jobs-IsSound :
    (k : String) (v : JobRow) (db : Database)
    → IsSound db
    → has v.job.disk_id db.disks ≡ true
    → IsSound (record db { jobs = put k v db.jobs })
put_jobs-IsSound k v db s h1 = record {
  disk_asset = s.disk_asset;
  job_disk = All-put _ k v db.jobs h1 s.job_disk;
  checkpoint_job = Refers-put _ _ k v db.jobs s.checkpoint_job;
  run_job = Refers-put _ _ k v db.jobs s.run_job;
  cert_disk = s.cert_disk;
  cert_asset = s.cert_asset;
  cert_job = Refers-put _ _ k v db.jobs s.cert_job;
  disposal_asset = s.disposal_asset;
  approval_asset = s.approval_asset;
  single = s.single;
}

pub put_checkpoints-IsSound :
    (k : String) (v : Checkpoint) (db : Database)
    → IsSound db
    → has v.job_id db.jobs ≡ true
    → IsSound (record db { checkpoints = put k v db.checkpoints })
put_checkpoints-IsSound k v db s h1 = record {
  disk_asset = s.disk_asset;
  job_disk = s.job_disk;
  checkpoint_job = All-put _ k v db.checkpoints h1 s.checkpoint_job;
  run_job = s.run_job;
  cert_disk = s.cert_disk;
  cert_asset = s.cert_asset;
  cert_job = s.cert_job;
  disposal_asset = s.disposal_asset;
  approval_asset = s.approval_asset;
  single = s.single;
}

pub put_certs-IsSound :
    (k : String) (v : Certificate) (db : Database)
    → IsSound db
    → has v.disk_id db.disks ≡ true
    → has v.asset_id db.assets ≡ true
    → has v.job_id db.jobs ≡ true
    → IsSound (record db { certs = put k v db.certs })
put_certs-IsSound k v db s h1 h2 h3 = record {
  disk_asset = s.disk_asset;
  job_disk = s.job_disk;
  checkpoint_job = s.checkpoint_job;
  run_job = s.run_job;
  cert_disk = All-put _ k v db.certs h1 s.cert_disk;
  cert_asset = All-put _ k v db.certs h2 s.cert_asset;
  cert_job = All-put _ k v db.certs h3 s.cert_job;
  disposal_asset = s.disposal_asset;
  approval_asset = s.approval_asset;
  single = s.single;
}

pub put_disposals-IsSound :
    (k : String) (v : DisposalConfirmation) (db : Database)
    → IsSound db
    → has v.asset_id db.assets ≡ true
    → IsSound (record db { disposals = put k v db.disposals })
put_disposals-IsSound k v db s h1 = record {
  disk_asset = s.disk_asset;
  job_disk = s.job_disk;
  checkpoint_job = s.checkpoint_job;
  run_job = s.run_job;
  cert_disk = s.cert_disk;
  cert_asset = s.cert_asset;
  cert_job = s.cert_job;
  disposal_asset = All-put _ k v db.disposals h1 s.disposal_asset;
  approval_asset = s.approval_asset;
  single = s.single;
}

pub put_approvals-IsSound :
    (k : String) (v : DecommissionApproval) (db : Database)
    → IsSound db
    → has v.asset_id db.assets ≡ true
    → IsSingle (put k v db.approvals)
    → IsSound (record db { approvals = put k v db.approvals })
put_approvals-IsSound k v db s h1 h2 = record {
  disk_asset = s.disk_asset;
  job_disk = s.job_disk;
  checkpoint_job = s.checkpoint_job;
  run_job = s.run_job;
  cert_disk = s.cert_disk;
  cert_asset = s.cert_asset;
  cert_job = s.cert_job;
  disposal_asset = s.disposal_asset;
  approval_asset = All-put _ k v db.approvals h1 s.approval_asset;
  single = h2;
}

pub add_run-IsSound :
    (r : ErasureRun) (db : Database)
    → IsSound db
    → has r.job_id db.jobs ≡ true
    → IsSound (record db { runs = db.runs ++ r ∷ [] })
add_run-IsSound r db s h = record {
  disk_asset = s.disk_asset;
  job_disk = s.job_disk;
  checkpoint_job = s.checkpoint_job;
  run_job = All-append _ db.runs r s.run_job h;
  cert_disk = s.cert_disk;
  cert_asset = s.cert_asset;
  cert_job = s.cert_job;
  disposal_asset = s.disposal_asset;
  approval_asset = s.approval_asset;
  single = s.single;
}

pub audit-IsSound :
    (ls : List AuditLog) (db : Database) → IsSound db → IsSound (record db { audit = ls })
audit-IsSound ls db s = record {
  disk_asset = s.disk_asset;
  job_disk = s.job_disk;
  checkpoint_job = s.checkpoint_job;
  run_job = s.run_job;
  cert_disk = s.cert_disk;
  cert_asset = s.cert_asset;
  cert_job = s.cert_job;
  disposal_asset = s.disposal_asset;
  approval_asset = s.approval_asset;
  single = s.single;
}

pub new_database-IsSound : IsSound new_database
unfolding lookup
new_database-IsSound = record {
  disk_asset = tt;
  job_disk = tt;
  checkpoint_job = tt;
  run_job = tt;
  cert_disk = tt;
  cert_asset = tt;
  cert_job = tt;
  disposal_asset = tt;
  approval_asset = tt;
  single = λ i j a b hi hj e oa ob. cc;
}
