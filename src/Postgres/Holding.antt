-- ===== src/Postgres/Holding.antt =====
-- The database of internal/store/pg.go that holds what the memory of internal/store/memory.go does,
-- and what it means that their methods do the same.
use xiesg0915_work.Prelude.{◌≡◌, List, Table}
use xiesg0915_work.Result.{not_found, conflict, other, Result, ok, err, Exec}
use xiesg0915_work.Domain.Entities.{Checkpoint, ErasureRun}
use xiesg0915_work.Store.State.{Memory}
use xiesg0915_work.Postgres.Database.{Database, JobRow}
use xiesg0915_work.Postgres.Gives.{Gives}

-- The database that holds what the memory holds, with jobs, checkpoints and runs of its own.
pub record Queue : Type 0 where
  pub jobs : Table JobRow
  pub checkpoints : Table Checkpoint
  pub runs : List ErasureRun

abbrev pub holding : Queue → Memory → Database
holding q m = record {
  assets = m.assets;
  disks = m.disks;
  jobs = q.jobs;
  checkpoints = q.checkpoints;
  runs = q.runs;
  certs = m.certs;
  disposals = m.disposals;
  approvals = m.approvals;
  audit = m.audit;
}

-- How a call ended: what its error wraps.
pub data Kind : Type 0 where
  fine missing refused broken : Kind

abbrev pub kind : {A : Type 0} → Result A → Kind
kind (ok a) = Kind.fine
kind (err (not_found s)) = Kind.missing
kind (err (conflict s)) = Kind.refused
kind (err (other s)) = Kind.broken

-- The same end, and the same state behind it.
abbrev pub Agree : {A B : Type 0} → Queue → Result A × Memory → Result B × Database → Type 0
Agree q x y = (kind x.0 ≡ kind y.0) × (holding q x.1 ≡ y.1)

-- A method that gives what the other store's does.
pub agrees :
    {A B : Type 0} {q : Queue} {db : Database} {x y : Result A × Memory} {r : Result B × Database}
    (m : Exec Database B)
    → x ≡ y
    → Gives m db r
    → kind y.0 ≡ kind r.0
    → holding q y.1 ≡ r.1
    → Agree q x (m db)
agrees m e g k h = rw (e, g.given) (k, h)
