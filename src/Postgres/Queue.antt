-- ===== src/Postgres/Queue.antt =====
-- internal/store/pg.go: the statements on jobs, checkpoints and runs.
use xiesg0915_work.Prelude.{
  ℕ, ◌+◌, ◌*◌, String, Bool, not, ◌&&◌, ◌||◌, Option, none, some, List, [], ◌∷◌, ◌++◌, ◌==◌, lookup,
  put, has, values, select, sort_slice, eqb, ltb, if◌then◌else◌,
}
use xiesg0915_work.Domain.Status.{JobStatus, same_job_status}
use xiesg0915_work.Domain.Entities.{Time, ErasureJob, ErasureRun}
use xiesg0915_work.Store.State.{Env}
use xiesg0915_work.Store.Jobs.{or_started}
use xiesg0915_work.Postgres.Database.{
  Database, JobRow, Fault, Answer, done, fault, Statement, guarded,
}
use xiesg0915_work.Postgres.Statements.{find_row, has_row, is_job_status}

-- The row that is inserted without an id: the columns that are not named take their defaults.
abbrev pub new_row : Env → ErasureJob → JobRow
new_row env j = record {
  job = record {
    id = env.fresh_id;
    disk_id = j.disk_id;
    standard = j.standard;
    status = JobStatus.pending;
    attempt = j.attempt;
    current_pass = 0;
    total_bytes = 0;
    bytes_done = 0;
    error = "";
    created_by = j.created_by;
    locked_by = "";
    locked_at = 0;
    started_at = none;
    finished_at = none;
    created_at = env.now;
    updated_at = env.now;
  };
  locked_at = none;
}

-- INSERT INTO erasure_jobs
unfoldable pub insert_job : Env → ErasureJob → Statement String
insert_job env j db =
    guarded
      ((not (has env.fresh_id db.jobs), Fault.unique_violation)
        ∷ (has j.disk_id db.disks, Fault.foreign_key_violation)
        ∷ [])
      (env.fresh_id, record db { jobs = put env.fresh_id (new_row env j) db.jobs })

-- scanJob: a NULL of locked_at has no place in the field LockedAt, a time.Time.
unfoldable pub scan_job : JobRow → Answer ErasureJob
scan_job r = elim r.locked_at [
  | none ↦ fault Fault.failed
  | some t ↦ done (record r.job { locked_at = t })
]

abbrev pub or_epoch : Option Time → Time
or_epoch none = 0
or_epoch (some t) = t

-- GREATEST(COALESCE(j.locked_at, epoch), COALESCE(c.heartbeat_at, epoch))
unfoldable pub last_sign : Database → JobRow → Time
last_sign db r = elim (lookup r.job.id db.checkpoints) [
  | none ↦ or_epoch r.locked_at
  | some cp ↦
      if ltb (or_epoch r.locked_at) cp.heartbeat_at then cp.heartbeat_at else or_epoch r.locked_at
]

-- The condition of the query in AcquireNextJob.
unfoldable pub is_pickable :
    Database → (now : Time) → (worker : String) → (secs : ℕ) → JobRow → Bool
unfolding last_sign
is_pickable db now worker secs r =
    same_job_status r.job.status JobStatus.pending
    || (same_job_status r.job.status JobStatus.running
        || same_job_status r.job.status JobStatus.verifying)
      && (eqb secs 0 && not (r.job.locked_by == worker)
          || ltb 0 secs && ltb (last_sign db r + secs * 1000000000) now)

-- ORDER BY CASE WHEN j.status='pending' THEN 0 ELSE 1 END, j.created_at
abbrev pub picked_before : JobRow → JobRow → Bool
picked_before a b =
    if same_job_status a.job.status JobStatus.pending
    then not (same_job_status b.job.status JobStatus.pending)
      || ltb a.job.created_at b.job.created_at
    else not (same_job_status b.job.status JobStatus.pending)
      && ltb a.job.created_at b.job.created_at

-- LIMIT 1
abbrev pub first {ℓ} : {A : Type ℓ} → List A → Option A
first [] = none
first (x ∷ xs) = some x

-- The row as the claim leaves it.
abbrev pub claimed_row : Env → String → JobRow → JobRow
claimed_row env worker r = record {
  job = record r.job {
    status =
        if same_job_status r.job.status JobStatus.pending then JobStatus.running else r.job.status;
    locked_by = worker;
    updated_at = env.now;
  };
  locked_at = some env.now;
}

-- The row that the query picks.
unfoldable pub best : Env → String → ℕ → Database → Option JobRow
unfolding sort_slice is_pickable
best env worker secs db =
    first (sort_slice picked_before (select (is_pickable db env.now worker secs) (values db.jobs)))

-- The one statement of AcquireNextJob that picks a job and locks it.
unfoldable pub claim_job : Env → String → ℕ → Statement ErasureJob
unfolding best
claim_job env worker secs db = elim (best env worker secs db) [
  | none ↦ fault Fault.no_rows
  | some r ↦ done (
    record (claimed_row env worker r).job { locked_at = env.now },
    record db { jobs = put r.job.id (claimed_row env worker r) db.jobs },
  )
]

-- UPDATE erasure_jobs WHERE id; no row is no error.
unfoldable pub update_job : String → (JobRow → JobRow) → Statement (Unit {0})
update_job id change db = elim (lookup id db.jobs) [
  | none ↦ done (tt, db)
  | some r ↦ done (tt, record db { jobs = put id (change r) db.jobs })
]

-- The same where the statement sets the status, a value of an enum column.
unfoldable pub update_job_status : String → JobStatus → (JobRow → JobRow) → Statement (Unit {0})
unfolding update_job
update_job_status id status change db =
    if is_job_status status then update_job id change db else fault Fault.failed

-- What MarkJobRunning, SaveProgress and CompleteJob set.
abbrev pub marked_running : Env → ℕ → JobRow → JobRow
marked_running env attempt r = record r {
  job = record r.job {
    status = JobStatus.running;
    attempt = attempt;
    started_at = or_started r.job.started_at env.now;
    updated_at = env.now;
  };
}

abbrev pub progressed : Env → (pass offset total : ℕ) → JobStatus → JobRow → JobRow
progressed env pass offset total status r = record {
  job = record r.job {
    current_pass = pass;
    bytes_done = offset;
    total_bytes = total;
    status = status;
    updated_at = env.now;
  };
  locked_at = some env.now;
}

abbrev pub finished : Env → JobStatus → (message : String) → JobRow → JobRow
finished env status message r = record r {
  job = record r.job {
    status = status;
    error = message;
    finished_at = some env.now;
    updated_at = env.now;
  };
}

-- INSERT INTO checkpoints ... ON CONFLICT (job_id) DO UPDATE
unfoldable pub upsert_checkpoint : Env → String → (pass offset : ℕ) → Statement (Unit {0})
upsert_checkpoint env job_id pass offset db =
    guarded ((has job_id db.jobs, Fault.foreign_key_violation) ∷ []) (
      tt,
      record db {
        checkpoints =
            put job_id
              (record {
                job_id = job_id;
                pass = pass;
                offset = offset;
                heartbeat_at = env.now;
                updated_at = env.now;
              })
              db.checkpoints;
      },
    )

-- SELECT attempt FROM erasure_jobs WHERE id
unfoldable pub select_attempt : String → Statement ℕ
select_attempt id db = elim (lookup id db.jobs) [
  | none ↦ fault Fault.no_rows
  | some r ↦ done (r.job.attempt, db)
]

-- INSERT INTO erasure_runs, without an id.
unfoldable pub insert_run : Env → ErasureRun → Statement (Unit {0})
unfolding find_row
insert_run env run db =
    guarded
      ((not (has_row (λ (r : ErasureRun). r.id == env.fresh_id) db.runs), Fault.unique_violation)
        ∷ (has run.job_id db.jobs, Fault.foreign_key_violation)
        ∷ [])
      (tt, record db { runs = db.runs ++ record run { id = env.fresh_id } ∷ [] })
