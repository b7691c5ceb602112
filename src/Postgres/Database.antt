-- ===== src/Postgres/Database.antt =====
-- migrations/0001_init.sql and 0002_approvals.sql as a state, and internal/store/pg.go: what every
-- method shares. A table keeps its rows in the order of their insertion. Two tables stand under
-- another unique column than their identifier: disposals under asset_id, checkpoints under job_id.
use xiesg0915_work.Prelude.{Bool, true, false, Option, List, [], ◌∷◌, Table}
use xiesg0915_work.Result.{Error, not_found, conflict, other, Result, ok, err, Exec}
use xiesg0915_work.Domain.Entities.{
  Time, Asset, Disk, ErasureJob, Checkpoint, ErasureRun, Certificate, DisposalConfirmation,
  DecommissionApproval, AuditLog,
}

-- A row of erasure_jobs; `locked_at` is the nullable column, and that of `job` is not read.
pub record JobRow : Type 0 where
  pub job : ErasureJob
  pub locked_at : Option Time

pub record Database : Type 0 where
  pub assets : Table Asset
  pub disks : Table Disk
  pub jobs : Table JobRow
  pub checkpoints : Table Checkpoint
  pub runs : List ErasureRun
  pub certs : Table Certificate
  pub disposals : Table DisposalConfirmation
  pub approvals : Table DecommissionApproval
  pub audit : List AuditLog

-- The tables as the migrations leave them.
abbrev pub new_database : Database
new_database = record {
  assets = [];
  disks = [];
  jobs = [];
  checkpoints = [];
  runs = [];
  certs = [];
  disposals = [];
  approvals = [];
  audit = [];
}

-- Why a statement fails: pgx.ErrNoRows, the server's codes 23505, 23503, 23514 and P0001, or
-- another error, such as a value that is not of the column's type.
pub data Fault : Type 0 where
  no_rows unique_violation foreign_key_violation check_violation raised failed : Fault

-- A statement either answers, with the state that it leaves, or fails and changes nothing.
pub data Answer {ℓ} (A : Type ℓ) : Type ℓ where
  done : A → Answer A
  fault : Fault → Answer A

abbrev pub Statement : Type 0 → Type 0
Statement A = Database → Answer (A × Database)

-- The constraints in the order in which they are checked, each with its fault.
unfoldable pub guarded {ℓ} : {A : Type ℓ} → List (Bool × Fault) → A → Answer A
guarded [] x = done x
guarded ((true, f) ∷ cs) x = guarded cs x
guarded ((false, f) ∷ cs) x = fault f

unfoldable pub map_err : Fault → Error
map_err Fault.no_rows = not_found "not found"
map_err Fault.unique_violation = conflict "unique violation"
map_err Fault.foreign_key_violation = conflict "foreign key violation"
map_err Fault.check_violation = conflict "check violation"
map_err Fault.raised = conflict "raised exception"
map_err Fault.failed = other "server error"

-- An error that is returned without mapErr wraps neither ErrNotFound nor ErrConflict.
abbrev pub raw : Fault → Error
raw f = other "server error"

abbrev pub answered :
    {A : Type 0} → (Fault → Error) → Database → Answer (A × Database) → Result A × Database
answered to_error db (done (a, db')) = (ok a, db')
answered to_error db (fault f) = (err (to_error f), db)

-- A statement of a method, its error given to `to_error`.
abbrev pub execute : {A : Type 0} → (Fault → Error) → Statement A → Exec Database A
execute to_error s db = answered to_error db (s db)

-- What the connection does during one method: it works, it is lost before the commit (or the
-- server refuses the method's statements), or it is lost between the commit and its answer.
pub data Wire : Type 0 where
  up down answer_lost : Wire

abbrev pub committed : {A : Type 0} → Wire → Database → Result A × Database → Result A × Database
committed Wire.down db (r, db') = (err (other "connection lost"), db)
committed wire db (err e, db') = (err e, db)
committed Wire.answer_lost db (ok a, db') = (err (other "connection lost"), db')
committed wire db (ok a, db') = (ok a, db')

-- `Begin`, the statements, and `Commit`, or the deferred `Rollback` behind an error. A single
-- statement of the pool is a transaction of its own.
unfoldable pub transaction : {A : Type 0} → Wire → Exec Database A → Exec Database A
transaction wire body db = committed wire db (body db)
