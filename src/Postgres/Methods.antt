-- ===== src/Postgres/Methods.antt =====
-- internal/store/pg.go: what holds of every statement holds of every method.
use xiesg0915_work.Prelude.{
  ℕ, String, ◌≡◌, refl, Option, none, some, lookup, inl, inr, Bool-cases, arith,
}
use xiesg0915_work.Result.{Exec}
use xiesg0915_work.Domain.Status.{AssetStatus, DiskStatus, JobStatus, ApprovalStatus}
use xiesg0915_work.Domain.Entities.{
  Asset, Disk, ErasureJob, ErasureRun, Certificate, DisposalConfirmation, DecommissionApproval,
  AuditLog, Detail,
}
use xiesg0915_work.Store.State.{Env}
use xiesg0915_work.Store.Commands.{Command}
use xiesg0915_work.Postgres.Database.{Database, JobRow, Fault, Answer, done, fault, raw, Wire}
use xiesg0915_work.Postgres.Statements.{insert_audit, is_job_status}
use xiesg0915_work.Postgres.Queue.{claim_job, update_job_status, select_attempt}
use xiesg0915_work.Postgres.Assets
use xiesg0915_work.Postgres.Assets.{fetch, returned}
use xiesg0915_work.Postgres.Jobs
use xiesg0915_work.Postgres.Jobs.{claim_of, disk_of, picked}
use xiesg0915_work.Postgres.Documents
use xiesg0915_work.Postgres.Approvals
use xiesg0915_work.Postgres.Approvals.{locked, not_started, withdrawn, asset_of}
use xiesg0915_work.Postgres.Commands.{perform, outcome}
use xiesg0915_work.Postgres.Moves.{
  Moves, Leads, execute-Moves, >>=-Moves, require-Moves, fetch-Moves, returned-Moves, pure-Moves,
  transaction-Moves, still-Moves,
}
use xiesg0915_work.Postgres.Obeyed.{IsSameJob, Obeyed}

ruleset moves = (
  transaction-Moves, >>=-Moves, execute-Moves, require-Moves, fetch-Moves, returned-Moves,
  pure-Moves,
)

module _ {R : Database → Database → Type 0} (s : Obeyed R) where
  audited : (env : Env) (l : AuditLog) → Moves R (Assets.append_audit_tx env l)
  audited env l = execute-Moves s.preorder raw (insert_audit env l) (s.insert_audit env l)

  create_asset-Moves : (w : Wire) (env : Env) (a : Asset) → Moves R (Assets.create_asset w env a)
  unfolding Assets.create_asset
  create_asset-Moves w env a = search (moves, s.preorder, audited, s.insert_asset)

  transition_asset-Moves :
      (w : Wire) (env : Env) (id : String) (to : AssetStatus) (actor action : String) (d : Detail)
      → Moves R (Assets.transition_asset w env id to actor action d)
  unfolding Assets.transition_asset
  transition_asset-Moves w env id to actor action d =
      search (moves, s.preorder, audited, s.update_asset)

  create_disk-Moves : (w : Wire) (env : Env) (d : Disk) → Moves R (Assets.create_disk w env d)
  unfolding Assets.create_disk
  create_disk-Moves w env d = search (moves, s.preorder, s.insert_disk)

  update_disk_status-Moves :
      (w : Wire) (env : Env) (id : String) (t : DiskStatus) (actor : String) (d : Detail)
      → Moves R (Assets.update_disk_status w env id t actor d)
  unfolding Assets.update_disk_status
  update_disk_status-Moves w env id t actor d = search (moves, s.preorder, audited, s.update_disk)

  create_job-Moves : (w : Wire) (env : Env) (j : ErasureJob) → Moves R (Jobs.create_job w env j)
  unfolding Jobs.create_job
  create_job-Moves w env j = search (moves, s.preorder, audited, s.insert_job)

  disk_of-Moves : (id : String) → Moves R (disk_of id)
  disk_of-Moves id = still-Moves s.preorder (disk_of id) unwritten
    where
      unwritten : (db : Database) → (disk_of id db).1 ≡ db
      unwritten db = ground arith

  claim_of-Moves : (env : Env) (worker : String) (j : ErasureJob) → Moves R (claim_of env worker j)
  claim_of-Moves env worker j = search (moves, s.preorder, audited, disk_of-Moves)

  picked-lem :
      (env : Env) (worker : String) (db : Database) (x : Answer (ErasureJob × Database))
      → Leads R db x
      → R db (picked env worker db x).1
  picked-lem env worker db (done (j, db')) h =
      s.preorder.transitive db db' _ h.reached ((claim_of-Moves env worker j).leaves db')
  picked-lem env worker db (fault Fault.no_rows) h = s.preorder.reflexive db
  picked-lem env worker db (fault _) h = s.preorder.reflexive db

  acquire_next_job-Moves :
      (w : Wire) (env : Env) (worker : String) (n : ℕ)
      → Moves R (Jobs.acquire_next_job w env worker n)
  unfolding Jobs.acquire_next_job
  acquire_next_job-Moves w env worker n = transaction-Moves s.preorder w _ (record {
    leaves =
        λ db. picked-lem env worker db (claim_job env worker n db) (s.claim_job env worker n db);
  })

  update_job_status-Leads :
      (id : String) (t : JobStatus) (change : JobRow → JobRow) (db : Database)
      → IsSameJob change
      → Leads R db (update_job_status id t change db)
  unfolding update_job_status
  update_job_status-Leads id t change db h = elim (Bool-cases (is_job_status t)) [
    | inl e ↦ rw e (s.update_job id change db h)
    | inr e ↦ record { reached = rw e tt }
  ]

  select_attempt-Leads : (id : String) (db : Database) → Leads R db (select_attempt id db)
  unfolding select_attempt
  select_attempt-Leads id db = attempt_of (lookup id db.jobs) refl
    where
      attempt_of : (o : Option JobRow) → lookup id db.jobs ≡ o → Leads R db (select_attempt id db)
      attempt_of none e = record { reached = rw (e, select_attempt) tt }
      attempt_of (some r) e = record { reached = rw (e, select_attempt) (s.preorder.reflexive db) }

  mark_job_running-Moves :
      (w : Wire) (env : Env) (id : String) (n : ℕ) → Moves R (Jobs.mark_job_running w env id n)
  unfolding Jobs.mark_job_running
  mark_job_running-Moves w env id n = search (moves, s.preorder, s.update_job)

  save_progress-Moves :
      (w : Wire) (env : Env) (id : String) (p o t : ℕ) (st : JobStatus)
      → Moves R (Jobs.save_progress w env id p o t st)
  unfolding Jobs.save_progress
  save_progress-Moves w env id p o t st =
      search (moves, s.preorder, update_job_status-Leads, s.upsert_checkpoint)

  complete_job-Moves :
      (w : Wire) (env : Env) (id : String) (st : JobStatus) (msg : String) (r : ErasureRun)
      → Moves R (Jobs.complete_job w env id st msg r)
  unfolding Jobs.complete_job
  complete_job-Moves w env id st msg r =
      search (moves, s.preorder, update_job_status-Leads, select_attempt-Leads, s.insert_run)

  record_run-Moves : (w : Wire) (env : Env) (r : ErasureRun) → Moves R (Jobs.record_run w env r)
  unfolding Jobs.record_run
  record_run-Moves w env r = search (moves, s.preorder, s.insert_run)

  save_certificate-Moves :
      (w : Wire) (env : Env) (c : Certificate) → Moves R (Documents.save_certificate w env c)
  unfolding Documents.save_certificate
  save_certificate-Moves w env c = search (moves, s.preorder, audited, s.insert_certificate)

  save_disposal-Moves :
      (w : Wire) (env : Env) (d : DisposalConfirmation) → Moves R (Documents.save_disposal w env d)
  unfolding Documents.save_disposal
  save_disposal-Moves w env d =
      search (moves, s.preorder, audited, s.insert_disposal, s.update_asset)

  append_audit-Moves :
      (w : Wire) (env : Env) (l : AuditLog) → Moves R (Documents.append_audit w env l)
  unfolding Documents.append_audit
  append_audit-Moves w env l = search (moves, s.preorder, s.insert_audit)

  create_approval-Moves :
      (w : Wire) (env : Env) (a : DecommissionApproval)
      → Moves R (Approvals.create_approval w env a)
  unfolding Approvals.create_approval
  create_approval-Moves w env a = search (moves, s.preorder, audited, s.insert_approval)

  locked-Moves : (id : String) → Moves R (locked id)
  locked-Moves id = still-Moves s.preorder (locked id) unwritten
    where
      unwritten : (db : Database) → (locked id db).1 ≡ db
      unwritten db = ground arith

  not_started-Moves : (a : DecommissionApproval) → Moves R (not_started a)
  not_started-Moves a = still-Moves s.preorder (not_started a) unwritten
    where
      unwritten : (db : Database) → (not_started a db).1 ≡ db
      unwritten db = ground arith

  review_approval-Moves :
      (w : Wire) (env : Env) (id : String) (to : ApprovalStatus) (reviewer note : String)
      → Moves R (Approvals.review_approval w env id to reviewer note)
  unfolding Approvals.review_approval
  review_approval-Moves w env id to reviewer note =
      search (moves, s.preorder, audited, locked-Moves, s.review) depth 14

  withdraw_approval-Moves :
      (w : Wire) (env : Env) (id actor : String)
      → Moves R (Approvals.withdraw_approval w env id actor)
  unfolding Approvals.withdraw_approval
  withdraw_approval-Moves w env id actor =
      search (moves, s.preorder, audited, locked-Moves, not_started-Moves, s.withdraw) depth 14

  outcome-Moves : {A : Type 0} (m : Exec Database A) → Moves R m → Moves R (outcome m)
  outcome-Moves m h = record { leaves = h.leaves }

  -- A call of any method of the interface leaves a related database.
  pub perform-Moves : (w : Wire) (env : Env) (c : Command) → Moves R (perform w env c)
  unfolding perform
  perform-Moves w env (Command.create_asset a) = outcome-Moves _ (create_asset-Moves w env a)
  perform-Moves w env (Command.transition_asset id to actor action d) =
      outcome-Moves _ (transition_asset-Moves w env id to actor action d)
  perform-Moves w env (Command.create_disk d) = outcome-Moves _ (create_disk-Moves w env d)
  perform-Moves w env (Command.update_disk_status id t actor d) =
      outcome-Moves _ (update_disk_status-Moves w env id t actor d)
  perform-Moves w env (Command.create_job j) = outcome-Moves _ (create_job-Moves w env j)
  perform-Moves w env (Command.acquire_next_job worker n) =
      outcome-Moves _ (acquire_next_job-Moves w env worker n)
  perform-Moves w env (Command.mark_job_running id n) =
      outcome-Moves _ (mark_job_running-Moves w env id n)
  perform-Moves w env (Command.save_progress id p o t st) =
      outcome-Moves _ (save_progress-Moves w env id p o t st)
  perform-Moves w env (Command.complete_job id st msg r) =
      outcome-Moves _ (complete_job-Moves w env id st msg r)
  perform-Moves w env (Command.record_run r) = outcome-Moves _ (record_run-Moves w env r)
  perform-Moves w env (Command.save_certificate c) =
      outcome-Moves _ (save_certificate-Moves w env c)
  perform-Moves w env (Command.save_disposal d) = outcome-Moves _ (save_disposal-Moves w env d)
  perform-Moves w env (Command.append_audit l) = outcome-Moves _ (append_audit-Moves w env l)
  perform-Moves w env (Command.create_approval a) = outcome-Moves _ (create_approval-Moves w env a)
  perform-Moves w env (Command.review_approval id to r n) =
      outcome-Moves _ (review_approval-Moves w env id to r n)
  perform-Moves w env (Command.withdraw_approval id a) =
      outcome-Moves _ (withdraw_approval-Moves w env id a)
