-- ===== src/Postgres/Jobs.antt =====
-- internal/store/pg.go: the methods on jobs, their checkpoints and their runs.
use xiesg0915_work.Prelude.{
  ℕ, String, Bool, ◌||◌, Option, none, some, List, [], ◌∷◌, ◌==◌, lookup, values, select,
  sort_slice, ltb,
}
use xiesg0915_work.Result.{Error, Result, ok, err, Exec, pure, raise, ◌>>=◌, ◌>>◌}
use xiesg0915_work.Domain.Status.{JobStatus}
use xiesg0915_work.Domain.Entities.{
  Disk, ErasureJob, Checkpoint, ErasureRun, job_created, job_acquired,
}
use xiesg0915_work.Store.State.{Env, entry}
use xiesg0915_work.Store.Jobs.{earlier_run}
use xiesg0915_work.Store.Acquire.{Claim}
use xiesg0915_work.Postgres.Database.{
  Database, JobRow, Fault, Answer, done, fault, map_err, raw, execute, Wire, transaction,
}
use xiesg0915_work.Postgres.Statements.{insert_audit}
use xiesg0915_work.Postgres.Queue.{
  insert_job, scan_job, claim_job, update_job, update_job_status, marked_running, progressed,
  finished, upsert_checkpoint, select_attempt, insert_run,
}
use xiesg0915_work.Postgres.Assets.{fetch, append_audit_tx}

-- The identifier, the status, the pass and the offset of the argument are not used.
unfoldable pub create_job : Wire → Env → ErasureJob → Exec Database (Unit {0})
unfolding transaction insert_job insert_audit
create_job wire env j = transaction wire (do
  id ← execute map_err (insert_job env j)
  append_audit_tx env
      (entry j.created_by "job.create" "job" id (job_created j.disk_id j.standard j.attempt)))

-- A row that is scanned.
abbrev pub scanned : {A : Type 0} → (Fault → Error) → Answer A → Exec Database A
scanned to_error (done a) = pure a
scanned to_error (fault f) = raise (to_error f)

unfoldable pub get_job : Wire → String → Exec Database ErasureJob
unfolding transaction map_err scan_job
get_job wire id db =
    transaction wire
      (do r ← execute map_err (fetch (lookup id db.jobs)); scanned map_err (scan_job r)) db

-- The loop over the rows ends at the first that cannot be scanned.
unfoldable pub scan_jobs : List JobRow → Answer (List ErasureJob)
unfolding scan_job
scan_jobs [] = done []
scan_jobs (r ∷ rs) = elim (scan_job r) [
  | fault f ↦ fault f
  | done j ↦ elim (scan_jobs rs) [ fault f ↦ fault f | done js ↦ done (j ∷ js) ]
]

abbrev pub newer_row : JobRow → JobRow → Bool
newer_row a b = ltb b.job.created_at a.job.created_at

unfoldable pub list_jobs : Wire → String → Exec Database (List ErasureJob)
unfolding transaction scan_jobs sort_slice
list_jobs wire disk_id db =
    transaction wire
      (scanned raw (
        scan_jobs (
          sort_slice newer_row
            (select (λ (r : JobRow). disk_id == "" || r.job.disk_id == disk_id) (values db.jobs)))))
      db

-- SELECT FROM disks WHERE id
abbrev pub disk_of : String → Exec Database Disk
disk_of id db = execute raw (fetch (lookup id db.disks)) db

-- The claim of a picked job: its disk, and the audit entry.
abbrev pub claim_of : Env → (worker : String) → ErasureJob → Exec Database (Option Claim)
claim_of env worker j = do
  d ← disk_of j.disk_id
  append_audit_tx env (
      entry worker "job.acquire" "job" j.id
        (job_acquired worker j.status j.current_pass j.bytes_done))
  pure (some (record { job = j; disk = d }))

-- No row is no error here; any other fault is.
abbrev pub picked :
    Env
    → (worker : String) → Database
    → Answer (ErasureJob × Database)
    → Result (Option Claim) × Database
picked env worker db (done (j, db')) = claim_of env worker j db'
picked env worker db (fault Fault.no_rows) = (ok none, db)
picked env worker db (fault f) = (err (raw f), db)

unfoldable pub acquire_next_job : Wire → Env → String → ℕ → Exec Database (Option Claim)
unfolding transaction claim_job insert_audit
acquire_next_job wire env worker stale_after_sec =
    transaction wire (λ db. picked env worker db (claim_job env worker stale_after_sec db))

-- A job that is not stored is no error.
unfoldable pub mark_job_running : Wire → Env → String → ℕ → Exec Database (Unit {0})
unfolding transaction update_job
mark_job_running wire env job_id attempt =
    transaction wire (execute map_err (update_job job_id (marked_running env attempt)))

unfoldable pub save_progress :
    Wire → Env → String → (pass offset total : ℕ) → JobStatus → Exec Database (Unit {0})
unfolding transaction update_job_status upsert_checkpoint
save_progress wire env job_id pass offset total status = transaction wire (do
  execute map_err (update_job_status job_id status (progressed env pass offset total status))
  execute map_err (upsert_checkpoint env job_id pass offset))

unfoldable pub complete_job :
    Wire → Env → String → JobStatus → String → ErasureRun → Exec Database (Unit {0})
unfolding transaction update_job_status select_attempt insert_run
complete_job wire env job_id status message run = transaction wire (do
  execute map_err (update_job_status job_id status (finished env status message))
  attempt ← execute raw (select_attempt job_id)
  execute map_err (insert_run env (record run { job_id = job_id; attempt = attempt })))

-- The identifier of the argument is not used.
unfoldable pub record_run : Wire → Env → ErasureRun → Exec Database (Unit {0})
unfolding transaction insert_run
record_run wire env run = transaction wire (execute map_err (insert_run env run))

unfoldable pub list_runs : Wire → String → Exec Database (List ErasureRun)
unfolding transaction sort_slice
list_runs wire job_id db =
    transaction wire
      (pure (sort_slice earlier_run (select (λ (r : ErasureRun). r.job_id == job_id) db.runs))) db

unfoldable pub get_checkpoint : Wire → String → Exec Database Checkpoint
unfolding transaction
get_checkpoint wire job_id db =
    transaction wire (execute map_err (fetch (lookup job_id db.checkpoints))) db
