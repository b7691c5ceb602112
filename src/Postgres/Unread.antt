-- ===== src/Postgres/Unread.antt =====
-- internal/store/pg.go: a job that was never claimed cannot be read, since its lock time is NULL.
use xiesg0915_work.Prelude.{
  String, true, not, has, ◌++◌, ◌≡◌, refl, ap, none, some, [], ◌∷◌, lookup, put, lookup-put,
  eq_refl,
}
use xiesg0915_work.Result.{other, ok, err}
use xiesg0915_work.Domain.Entities.{ErasureJob, job_created}
use xiesg0915_work.Store.State.{Env, stamped, entry}
use xiesg0915_work.Postgres.Database.{
  Database, JobRow, Wire, committed, transaction, execute, map_err,
}
use xiesg0915_work.Postgres.Queue.{new_row, scan_job, insert_job}
use xiesg0915_work.Postgres.Moves.{guarded-passes}
use xiesg0915_work.Postgres.Gives.{
  Gives, IsUnused, execute-Gives, transaction-Gives, >>=-Gives, append_audit_tx-Gives,
}
use xiesg0915_work.Postgres.Jobs

-- A method whose statements answer with an error returns an error over any connection.
committed-Fails :
    {A : Type 0} (w : Wire) (db db' : Database) (x : String)
    → (y : String) × (committed {A = A} w db (err (other x), db') ≡ (err (other y), db))
committed-Fails Wire.down db db' x = ("connection lost", refl)
committed-Fails Wire.up db db' x = (x, refl)
committed-Fails Wire.answer_lost db db' x = (x, refl)

get_job-unlocked :
    (w : Wire) (id : String) (db : Database) (r : JobRow)
    → lookup id db.jobs ≡ some r
    → r.locked_at ≡ none
    → (x : String) × (Jobs.get_job w id db ≡ (err (other x), db))
unfolding Jobs.get_job transaction scan_job map_err
get_job-unlocked w id db r e n =
    let failed = committed-Fails {A = ErasureJob} w db db "server error" in
    (failed.0, rw (e, n) failed.1)

-- The row as the statement inserts it, and the database with its audit entry.
abbrev with_job : Env → ErasureJob → Database → Database
with_job env j db = record db {
  jobs = put env.fresh_id (new_row env j) db.jobs;
  audit =
      db.audit
      ++ stamped env (
          entry j.created_by "job.create" "job" env.fresh_id
            (job_created j.disk_id j.standard j.attempt))
        ∷ [];
}

insert_job-Gives :
    (env : Env) (j : ErasureJob) (db : Database)
    → not (has env.fresh_id db.jobs) ≡ true
    → has j.disk_id db.disks ≡ true
    → Gives
        (execute map_err (insert_job env j))
        db
        (ok env.fresh_id, record db { jobs = put env.fresh_id (new_row env j) db.jobs })
unfolding insert_job
insert_job-Gives env j db f d =
    execute-Gives map_err (insert_job env j) db (guarded-passes _ _ (f, (d, tt)))

create_job-Gives :
    (env : Env) (j : ErasureJob) (db : Database)
    → not (has env.fresh_id db.jobs) ≡ true
    → has j.disk_id db.disks ≡ true
    → IsUnused env.log_id db
    → Gives (Jobs.create_job Wire.up env j) db (ok tt, with_job env j db)
unfolding Jobs.create_job
create_job-Gives env j db f d n =
    transaction-Gives _
      (>>=-Gives _ _ (insert_job-Gives env j db f d) (append_audit_tx-Gives env _ _ _ _ _ _ n))

-- CreateJob for a stored disk succeeds, and the job that it has stored cannot be read back: GetJob
-- returns an error that is neither ErrNotFound nor ErrConflict, over any connection.
pub create_job-unread :
    (w : Wire) (env : Env) (j : ErasureJob) (db : Database)
    → not (has env.fresh_id db.jobs) ≡ true
    → has j.disk_id db.disks ≡ true
    → IsUnused env.log_id db
    → ((Jobs.create_job Wire.up env j db).0 ≡ ok tt)
      × (x : String) × ((Jobs.get_job w env.fresh_id (Jobs.create_job Wire.up env j db).1).0
          ≡ err (other x))
create_job-unread w env j db f d n =
    let given = (create_job-Gives env j db f d n).given in
    let unread = get_job-unlocked w env.fresh_id (with_job env j db) (new_row env j) stored refl in
    (rw given refl, unread.0, rw given (ap (λ x. x.0) unread.1))
  where
    stored : lookup env.fresh_id (with_job env j db).jobs ≡ some (new_row env j)
    stored =
        rw (lookup-put env.fresh_id env.fresh_id (new_row env j) db.jobs, eq_refl env.fresh_id) refl
