-- ===== src/Postgres/Ledger.antt =====
-- internal/store/pg.go: the ledger that is read of the database, and what a write to one of its
-- tables must keep.
use xiesg0915_work.Prelude.{
  String, true, not, ◌≡◌, ap, ◌==◌, eq_iff, none, some, List, select, has, Table, lookup, put,
  lookup-put, Extends, arith,
}
use xiesg0915_work.Domain.Entities.{
  Asset, AuditLog, Certificate, DisposalConfirmation, DecommissionApproval, ErasureRun,
}
use xiesg0915_work.Store.AssetLife
use xiesg0915_work.Store.AssetLife.{edge_path, Later-moved}
use xiesg0915_work.Store.ApprovalLife
use xiesg0915_work.Store.ApprovalLife.{LaterApproval, here, onward}
use xiesg0915_work.Store.Ledger.{Ledger, Evolves, Evolves-refl, Evolves-trans}
use xiesg0915_work.Postgres.Database.{Database}
use xiesg0915_work.Postgres.Moves.{Preorder}

abbrev pub runs_of : String → List ErasureRun → List ErasureRun
runs_of k rs = select (λ (r : ErasureRun). r.job_id == k) rs

-- What is read back of the database.
abbrev pub ledger : Database → Ledger
ledger db = record {
  asset = λ k. lookup k db.assets;
  approval = λ k. lookup k db.approvals;
  certificate = λ k. lookup k db.certs;
  disposal = λ k. lookup k db.disposals;
  runs = λ k. runs_of k db.runs;
  audit = db.audit;
}

abbrev pub Grows : Database → Database → Type 0
Grows a b = Evolves (ledger a) (ledger b)

abbrev pub grows : Preorder Grows
grows = record {
  reflexive = λ a. Evolves-refl (ledger a);
  transitive = λ a b c. Evolves-trans (ledger a) (ledger b) (ledger c);
}

pub absent : {V : Type 0} (k : String) (t : Table V) → not (has k t) ≡ true → lookup k t ≡ none
absent k t h = ground arith

-- An entry under a new key leaves the others.
pub kept_by_put :
    {V : Type 0} (k j : String) (v w : V) (t : Table V)
    → not (has k t) ≡ true
    → lookup j t ≡ some w
    → lookup j (put k v t) ≡ some w
kept_by_put k j v w t n h =
    ground
      (arith, lookup-put k j v t, eq_iff k j, absent k t n, ap (λ x. lookup x t) {x = k} {y = j})

-- One table of the ledger is written.
pub grows_assets :
    (db : Database) (t : Table Asset)
    → ((k : String) (x : Asset) → lookup k db.assets ≡ some x → AssetLife.Advances x (lookup k t))
    → Grows db (record db { assets = t })
grows_assets db t h = record {
  asset = h;
  approval = (Evolves-refl (ledger db)).approval;
  certificate = (Evolves-refl (ledger db)).certificate;
  disposal = (Evolves-refl (ledger db)).disposal;
  runs = (Evolves-refl (ledger db)).runs;
  audit = (Evolves-refl (ledger db)).audit;
}

pub grows_approvals :
    (db : Database) (t : Table DecommissionApproval)
    → ((k : String) (x : DecommissionApproval)
        → lookup k db.approvals ≡ some x
        → ApprovalLife.Advances x (lookup k t))
    → Grows db (record db { approvals = t })
grows_approvals db t h = record {
  asset = (Evolves-refl (ledger db)).asset;
  approval = h;
  certificate = (Evolves-refl (ledger db)).certificate;
  disposal = (Evolves-refl (ledger db)).disposal;
  runs = (Evolves-refl (ledger db)).runs;
  audit = (Evolves-refl (ledger db)).audit;
}

pub grows_certs :
    (db : Database) (t : Table Certificate)
    → ((k : String) (x : Certificate) → lookup k db.certs ≡ some x → lookup k t ≡ some x)
    → Grows db (record db { certs = t })
grows_certs db t h = record {
  asset = (Evolves-refl (ledger db)).asset;
  approval = (Evolves-refl (ledger db)).approval;
  certificate = h;
  disposal = (Evolves-refl (ledger db)).disposal;
  runs = (Evolves-refl (ledger db)).runs;
  audit = (Evolves-refl (ledger db)).audit;
}

pub grows_disposals :
    (db : Database) (t : Table DisposalConfirmation)
    → ((k : String) (x : DisposalConfirmation)
        → lookup k db.disposals ≡ some x
        → lookup k t ≡ some x)
    → Grows db (record db { disposals = t })
grows_disposals db t h = record {
  asset = (Evolves-refl (ledger db)).asset;
  approval = (Evolves-refl (ledger db)).approval;
  certificate = (Evolves-refl (ledger db)).certificate;
  disposal = h;
  runs = (Evolves-refl (ledger db)).runs;
  audit = (Evolves-refl (ledger db)).audit;
}

pub grows_runs :
    (db : Database) (t : List ErasureRun)
    → ((k : String) → Extends (runs_of k db.runs) (runs_of k t))
    → Grows db (record db { runs = t })
grows_runs db t h = record {
  asset = (Evolves-refl (ledger db)).asset;
  approval = (Evolves-refl (ledger db)).approval;
  certificate = (Evolves-refl (ledger db)).certificate;
  disposal = (Evolves-refl (ledger db)).disposal;
  runs = h;
  audit = (Evolves-refl (ledger db)).audit;
}

pub grows_audit :
    (db : Database) (t : List AuditLog) → (Extends db.audit t) → Grows db (record db { audit = t })
grows_audit db t h = record {
  asset = (Evolves-refl (ledger db)).asset;
  approval = (Evolves-refl (ledger db)).approval;
  certificate = (Evolves-refl (ledger db)).certificate;
  disposal = (Evolves-refl (ledger db)).disposal;
  runs = (Evolves-refl (ledger db)).runs;
  audit = h;
}
