-- ===== src/Postgres/History.antt =====
-- What the database never changes or removes, and how its assets and requests move on, over any
-- calls of the methods of internal/store/pg.go.
use xiesg0915_work.Prelude.{ℕ, String, ◌≡◌, refl, Option, none, some, lookup}
use xiesg0915_work.Domain.Status.{DiskStatus}
use xiesg0915_work.Domain.Entities.{Disk}
use xiesg0915_work.Store.State.{Env}
use xiesg0915_work.Store.Ledger.{Evolves, Evolves-refl, LedgerStore}
use xiesg0915_work.Postgres.Database.{Database, JobRow}
use xiesg0915_work.Postgres.Statements.{update_disk}
use xiesg0915_work.Postgres.Queue.{best, claim_job, update_job}
use xiesg0915_work.Postgres.Commands.{Call, apply}
use xiesg0915_work.Postgres.Moves.{Leads, guarded-Leads}
use xiesg0915_work.Postgres.Obeyed.{Obeyed, IsSameJob}
use xiesg0915_work.Postgres.Methods.{perform-Moves}
use xiesg0915_work.Postgres.Ledger.{ledger, Grows, grows}
use xiesg0915_work.Postgres.Growing.{
  insert_approval-Grows, insert_asset-Grows, insert_audit-Grows, insert_certificate-Grows,
  insert_disk-Grows, insert_disposal-Grows, insert_job-Grows, insert_run-Grows,
  reviewed-IsSameRequest, update_approval-Grows, update_asset-Grows, upsert_checkpoint-Grows,
  withdrawn-IsSameRequest,
}

update_disk-Grows :
    (id : String) (t : DiskStatus) (db : Database) → Leads Grows db (update_disk id t db)
unfolding update_disk
update_disk-Grows id t db = updated (lookup id db.disks) refl
  where
    updated : (o : Option Disk) → lookup id db.disks ≡ o → Leads Grows db (update_disk id t db)
    updated none e =
        rw (e, update_disk) (guarded-Leads grows _ db _ _ (λ p. Evolves-refl (ledger db)))
    updated (some d) e =
        rw (e, update_disk) (guarded-Leads grows _ db _ _ (λ p. Evolves-refl (ledger db)))

update_job-Grows :
    (id : String) (change : JobRow → JobRow) (db : Database)
    → IsSameJob change
    → Leads Grows db (update_job id change db)
unfolding update_job
update_job-Grows id change db h = updated (lookup id db.jobs) refl
  where
    updated : (o : Option JobRow) → lookup id db.jobs ≡ o → Leads Grows db (update_job id change db)
    updated none e = rw (e, update_job) (record { reached = Evolves-refl (ledger db) })
    updated (some d) e = rw (e, update_job) (record { reached = Evolves-refl (ledger db) })

claim_job-Grows :
    (env : Env) (w : String) (n : ℕ) (db : Database) → Leads Grows db (claim_job env w n db)
unfolding claim_job
claim_job-Grows env w n db = updated (best env w n db) refl
  where
    updated : (o : Option JobRow) → best env w n db ≡ o → Leads Grows db (claim_job env w n db)
    updated none e = rw (e, claim_job) (record { reached = tt })
    updated (some d) e = rw (e, claim_job) (record { reached = Evolves-refl (ledger db) })

obeyed : Obeyed Grows
obeyed = record {
  preorder = grows;
  insert_asset = insert_asset-Grows;
  update_asset = update_asset-Grows;
  insert_disk = insert_disk-Grows;
  update_disk = update_disk-Grows;
  insert_job = insert_job-Grows;
  claim_job = claim_job-Grows;
  update_job = update_job-Grows;
  upsert_checkpoint = upsert_checkpoint-Grows;
  insert_run = insert_run-Grows;
  insert_certificate = insert_certificate-Grows;
  insert_disposal = insert_disposal-Grows;
  insert_approval = insert_approval-Grows;
  review = λ env id to reviewer note db.
      update_approval-Grows id _ db (reviewed-IsSameRequest env to reviewer note);
  withdraw = λ env id db. update_approval-Grows id _ db (withdrawn-IsSameRequest env);
  insert_audit = insert_audit-Grows;
}

-- A call of any method, whatever becomes of its connection and whatever it returns, lets the
-- ledger evolve.
pub apply-Evolves : (c : Call) (db : Database) → Evolves (ledger db) (ledger (apply c db))
unfolding apply
apply-Evolves c db = (perform-Moves obeyed c.wire c.env c.command).leaves db

-- The database admits every call.
abbrev pub postgres_store : LedgerStore Database Call
postgres_store = record {
  step = apply;
  ledger = ledger;
  Admits = λ c db. Unit;
  evolves = λ c db h. apply-Evolves c db;
}
