-- ===== src/Postgres/Statements.antt =====
-- internal/store/pg.go: the statements on assets, disks, documents and the audit log, each with
-- the constraints and triggers of migrations/*.sql. A value of an enum column is checked when it
-- is bound, before any row is read.
use xiesg0915_work.Prelude.{
  ℕ, String, Bool, true, false, not, ◌&&◌, ◌||◌, Option, none, some, List, [], ◌∷◌, ◌++◌, ◌==◌,
  lookup, put, has, values, if◌then◌else◌,
}
use xiesg0915_work.Domain.Status.{
  AssetStatus, DiskStatus, JobStatus, ApprovalStatus, same_asset_status, same_disk_status,
  same_job_status, same_approval_status, asset_transitions,
}
use xiesg0915_work.Domain.Entities.{
  Asset, Disk, Certificate, DisposalConfirmation, DecommissionApproval, AuditLog, active,
}
use xiesg0915_work.Store.State.{Env, stamped}
use xiesg0915_work.Postgres.Database.{Database, Fault, fault, Statement, guarded}

-- The first row that a condition holds of, and whether there is one.
unfoldable pub find_row {ℓ} : {A : Type ℓ} → (A → Bool) → List A → Option A
find_row p [] = none
find_row p (x ∷ xs) = if p x then some x else find_row p xs

abbrev pub has_row {ℓ} : {A : Type ℓ} → (A → Bool) → List A → Bool
has_row p xs = elim (find_row p xs) [ none ↦ false | some x ↦ true ]

-- The values of the enum types; the empty text is not one.
abbrev pub is_asset_status : AssetStatus → Bool
is_asset_status s = not (same_asset_status s AssetStatus.unset)

abbrev pub is_disk_status : DiskStatus → Bool
is_disk_status s = not (same_disk_status s DiskStatus.unset)

abbrev pub is_job_status : JobStatus → Bool
is_job_status s = not (same_job_status s JobStatus.unset)

abbrev pub is_approval_status : ApprovalStatus → Bool
is_approval_status s = not (same_approval_status s ApprovalStatus.unset)

-- CHECK (method IN ('reuse','resale','destroy'))
abbrev pub is_method : String → Bool
is_method m = m == "reuse" || m == "resale" || m == "destroy"

-- INSERT INTO assets, without an id, and SELECT id by the tag.
unfoldable pub insert_asset : Env → Asset → Statement String
unfolding find_row
insert_asset env a db =
    guarded
      ((is_asset_status a.status, Fault.failed)
        ∷ (not (has env.fresh_id db.assets), Fault.unique_violation)
        ∷ (not (has_row (λ (b : Asset). b.tag == a.tag) (values db.assets)), Fault.unique_violation)
        ∷ [])
      (
        env.fresh_id,
        record db {
          assets =
              put env.fresh_id
                (record a { id = env.fresh_id; created_at = env.now; updated_at = env.now })
                db.assets;
        },
      )

-- check_asset_transition raises no exception.
abbrev pub check_asset_transition : (old new : AssetStatus) → Bool
check_asset_transition old new = same_asset_status new old || asset_transitions old new

-- The row as an update of the status leaves it.
abbrev pub moved_asset : Env → AssetStatus → Asset → Asset
moved_asset env to a = record a { status = to; updated_at = env.now }

-- UPDATE assets SET status WHERE id, with the row where there is one.
unfoldable pub update_asset_status : Env → String → AssetStatus → Statement (Option Asset)
unfolding asset_transitions
update_asset_status env id to db = elim (lookup id db.assets) [
  | none ↦ guarded ((is_asset_status to, Fault.failed) ∷ []) (none, db)
  | some a ↦
      guarded
        ((is_asset_status to, Fault.failed)
          ∷ (check_asset_transition a.status to, Fault.raised)
          ∷ [])
        (
          some (moved_asset env to a),
          record db { assets = put id (moved_asset env to a) db.assets },
        )
]

-- INSERT INTO disks
unfoldable pub insert_disk : Env → Disk → Statement (Unit {0})
unfolding find_row
insert_disk env d db =
    guarded
      ((is_disk_status d.status, Fault.failed)
        ∷ (not (has d.id db.disks), Fault.unique_violation)
        ∷ (
          not (
              has_row (λ (e : Disk). e.asset_id == d.asset_id && e.serial == d.serial)
                (values db.disks)),
          Fault.unique_violation,
        )
        ∷ (has d.asset_id db.assets, Fault.foreign_key_violation)
        ∷ [])
      (tt, record db { disks = put d.id (record d { created_at = env.now }) db.disks })

-- UPDATE disks SET status WHERE id, with the number of the rows.
unfoldable pub update_disk : String → DiskStatus → Statement ℕ
update_disk id s db = elim (lookup id db.disks) [
  | none ↦ guarded ((is_disk_status s, Fault.failed) ∷ []) (0, db)
  | some d ↦
      guarded ((is_disk_status s, Fault.failed) ∷ [])
        (1, record db { disks = put id (record d { status = s }) db.disks })
]

-- INSERT INTO certificates
unfoldable pub insert_certificate : Env → Certificate → Statement (Unit {0})
insert_certificate env c db =
    guarded
      ((not (has c.cert_no db.certs), Fault.unique_violation)
        ∷ (has c.disk_id db.disks, Fault.foreign_key_violation)
        ∷ (has c.asset_id db.assets, Fault.foreign_key_violation)
        ∷ (has c.job_id db.jobs, Fault.foreign_key_violation)
        ∷ [])
      (tt, record db { certs = put c.cert_no (record c { created_at = env.now }) db.certs })

-- INSERT INTO disposal_confirmations, without an id.
unfoldable pub insert_disposal : Env → DisposalConfirmation → Statement (Unit {0})
unfolding find_row
insert_disposal env d db =
    guarded
      ((is_method d.method, Fault.check_violation)
        ∷ (
          not (has_row (λ (e : DisposalConfirmation). e.id == env.fresh_id) (values db.disposals)),
          Fault.unique_violation,
        )
        ∷ (not (has d.asset_id db.disposals), Fault.unique_violation)
        ∷ (has d.asset_id db.assets, Fault.foreign_key_violation)
        ∷ [])
      (
        tt,
        record db {
          disposals =
              put d.asset_id (record d { id = env.fresh_id; signed_at = env.now }) db.disposals;
        },
      )

-- INSERT INTO decommission_approvals, with the partial unique index uniq_active_approval.
unfoldable pub insert_approval : Env → DecommissionApproval → Statement (Unit {0})
unfolding find_row
insert_approval env a db =
    guarded
      ((is_approval_status a.status, Fault.failed)
        ∷ (is_method a.method, Fault.check_violation)
        ∷ (not (has a.id db.approvals), Fault.unique_violation)
        ∷ (
          not (
              active a
              && has_row (λ (b : DecommissionApproval). b.asset_id == a.asset_id && active b)
                  (values db.approvals)),
          Fault.unique_violation,
        )
        ∷ (has a.asset_id db.assets, Fault.foreign_key_violation)
        ∷ [])
      (
        tt,
        record db {
          approvals =
              put a.id
                (record a {
                  reviewer = "";
                  review_note = "";
                  reviewed_at = none;
                  created_at = env.now;
                  updated_at = env.now;
                })
                db.approvals;
        },
      )

-- The status of the asset is known and is not `pending`.
abbrev pub has_left_pending : String → Database → Bool
has_left_pending asset_id db = elim (lookup asset_id db.assets) [
  | none ↦ false
  | some a ↦ not (same_asset_status a.status AssetStatus.pending)
]

-- check_approval_transition raises no exception.
unfoldable pub check_approval_transition :
    Database → DecommissionApproval → (new : ApprovalStatus) → Bool
check_approval_transition db a ApprovalStatus.withdrawn =
    same_approval_status a.status ApprovalStatus.withdrawn
    || same_approval_status a.status ApprovalStatus.pending
    || same_approval_status a.status ApprovalStatus.approved && not (has_left_pending a.asset_id db)
check_approval_transition db a new =
    same_approval_status new a.status
    || same_approval_status a.status ApprovalStatus.pending
      && (same_approval_status new ApprovalStatus.approved
          || same_approval_status new ApprovalStatus.rejected)

-- UPDATE decommission_approvals WHERE id RETURNING, to the row that `change` gives.
unfoldable pub update_approval :
    String → (DecommissionApproval → DecommissionApproval) → Statement DecommissionApproval
unfolding check_approval_transition
update_approval id change db = elim (lookup id db.approvals) [
  | none ↦ fault Fault.no_rows
  | some a ↦
      guarded
        ((is_approval_status (change a).status, Fault.failed)
          ∷ (check_approval_transition db a (change a).status, Fault.raised)
          ∷ [])
        (change a, record db { approvals = put id (change a) db.approvals })
]

-- INSERT INTO audit_logs; the identifier is the given one, or a random one for the empty text.
unfoldable pub insert_audit : Env → AuditLog → Statement (Unit {0})
unfolding find_row
insert_audit env l db =
    guarded
      ((
        not (has_row (λ (e : AuditLog). e.id == (stamped env l).id) db.audit),
        Fault.unique_violation,
      )
        ∷ [])
      (tt, record db { audit = db.audit ++ stamped env l ∷ [] })
