-- ===== src/Postgres/Growing.antt =====
-- internal/store/pg.go: every statement lets the ledger of the database evolve.
use xiesg0915_work.Prelude.{
  ℕ, String, Bool, true, false, ◌≡◌, refl, Option, none, some, List, [], ◌∷◌, ◌++◌, select, lookup,
  Extends, same, more, if◌then◌else◌, arith,
}
use xiesg0915_work.Domain.Status.{
  AssetStatus, ApprovalStatus, can_transition_asset, can_transition_approval,
}
use xiesg0915_work.Domain.Entities.{
  Asset, Disk, ErasureJob, AuditLog, Certificate, DisposalConfirmation, DecommissionApproval,
  ErasureRun,
}
use xiesg0915_work.Domain.Lifecycle.{can_transition_asset-edge}
use xiesg0915_work.Store.State.{Env}
use xiesg0915_work.Store.Approvals.{reviewed}
use xiesg0915_work.Store.AssetLife
use xiesg0915_work.Store.AssetLife.{edge_path, Later-moved}
use xiesg0915_work.Store.ApprovalLife
use xiesg0915_work.Store.ApprovalLife.{LaterApproval, here, onward}
use xiesg0915_work.Store.Ledger.{Evolves-refl}
use xiesg0915_work.Postgres.Database.{Database}
use xiesg0915_work.Postgres.Statements.{
  insert_asset, update_asset_status, check_asset_transition, moved_asset, insert_disk,
  insert_certificate, insert_disposal, insert_approval, update_approval, check_approval_transition,
  insert_audit,
}
use xiesg0915_work.Postgres.Queue.{insert_job, upsert_checkpoint, insert_run}
use xiesg0915_work.Postgres.Approvals.{withdrawn}
use xiesg0915_work.Postgres.Moves.{Leads, guarded-Leads}
use xiesg0915_work.Postgres.Ledger.{
  ledger, Grows, grows, absent, kept_by_put, grows_assets, grows_approvals, grows_certs,
  grows_disposals, grows_runs, grows_audit,
}

pub insert_asset-Grows :
    (env : Env) (a : Asset) (db : Database) → Leads Grows db (insert_asset env a db)
unfolding insert_asset
insert_asset-Grows env a db = guarded-Leads grows _ db _ _ (λ p. grows_assets db _ (λ k x e.
    AssetLife.Advances-new env.fresh_id k x _ db.assets (absent env.fresh_id db.assets p.1.0) e))

trigger_permits :
    (s t : AssetStatus) → check_asset_transition s t ≡ true → can_transition_asset s t ≡ true
unfolding can_transition_asset
trigger_permits s t h = ground arith

pub update_asset-Grows :
    (env : Env) (id : String) (to : AssetStatus) (db : Database)
    → Leads Grows db (update_asset_status env id to db)
unfolding update_asset_status
update_asset-Grows env id to db = updated (lookup id db.assets) refl
  where
    updated :
        (o : Option Asset)
        → lookup id db.assets ≡ o
        → Leads Grows db (update_asset_status env id to db)
    updated none e =
        rw (e, update_asset_status) (guarded-Leads grows _ db db _ (λ p. Evolves-refl (ledger db)))
    updated (some a) e =
        rw (e, update_asset_status)
          (guarded-Leads grows _ db _ _ (λ p. grows_assets db _ (λ k x h.
            AssetLife.Advances-put id k x a (moved_asset env to a) db.assets e h (
              Later-moved a to env.now (
                edge_path
                  (can_transition_asset-edge a.status to (trigger_permits a.status to p.1.0)))))))

-- A statement that writes no table of the ledger.
pub insert_disk-Grows :
    (env : Env) (d : Disk) (db : Database) → Leads Grows db (insert_disk env d db)
unfolding insert_disk
insert_disk-Grows env d db = guarded-Leads grows _ db _ _ (λ p. Evolves-refl (ledger db))

pub insert_job-Grows :
    (env : Env) (j : ErasureJob) (db : Database) → Leads Grows db (insert_job env j db)
unfolding insert_job
insert_job-Grows env j db = guarded-Leads grows _ db _ _ (λ p. Evolves-refl (ledger db))

pub upsert_checkpoint-Grows :
    (env : Env) (id : String) (p o : ℕ) (db : Database)
    → Leads Grows db (upsert_checkpoint env id p o db)
unfolding upsert_checkpoint
upsert_checkpoint-Grows env id p o db = guarded-Leads grows _ db _ _ (λ h. Evolves-refl (ledger db))

pub insert_certificate-Grows :
    (env : Env) (c : Certificate) (db : Database) → Leads Grows db (insert_certificate env c db)
unfolding insert_certificate
insert_certificate-Grows env c db =
    guarded-Leads grows _ db _ _
      (λ p. grows_certs db _ (λ k x e. kept_by_put c.cert_no k _ x db.certs p.0 e))

pub insert_disposal-Grows :
    (env : Env) (d : DisposalConfirmation) (db : Database)
    → Leads Grows db (insert_disposal env d db)
unfolding insert_disposal
insert_disposal-Grows env d db =
    guarded-Leads grows _ db _ _
      (λ p. grows_disposals db _ (λ k x e. kept_by_put d.asset_id k _ x db.disposals p.1.1.0 e))

pub insert_audit-Grows :
    (env : Env) (l : AuditLog) (db : Database) → Leads Grows db (insert_audit env l db)
unfolding insert_audit
insert_audit-Grows env l db = guarded-Leads grows _ db _ _ (λ p. grows_audit db _ (more same _))

-- What is selected of a longer list goes on with nothing or with the new row.
select-Extends :
    {A : Type 0} (p : A → Bool) (xs : List A) (x : A)
    → Extends (select p xs) (select p (xs ++ x ∷ []))
select-Extends {A = A} p xs x = rw selected (branch (p x))
  where
    selected_of :
        (ys : List A)
        → select p (ys ++ x ∷ []) ≡ (if p x then select p ys ++ x ∷ [] else select p ys)
    selected_of [] = ground arith
    selected_of (y ∷ ys) = ground (arith, selected_of ys)

    selected : select p (xs ++ x ∷ []) ≡ (if p x then select p xs ++ x ∷ [] else select p xs)
    selected = selected_of xs

    branch : (b : Bool) → Extends (select p xs) (if b then select p xs ++ x ∷ [] else select p xs)
    branch true = more same x
    branch false = same

pub insert_run-Grows :
    (env : Env) (r : ErasureRun) (db : Database) → Leads Grows db (insert_run env r db)
unfolding insert_run
insert_run-Grows env r db =
    guarded-Leads grows _ db _ _ (λ p. grows_runs db _ (λ k. select-Extends _ db.runs _))

pub insert_approval-Grows :
    (env : Env) (a : DecommissionApproval) (db : Database)
    → Leads Grows db (insert_approval env a db)
unfolding insert_approval
insert_approval-Grows env a db = guarded-Leads grows _ db _ _ (λ p. grows_approvals db _ (λ k x e.
    ApprovalLife.Advances-new a.id k x _ db.approvals (absent a.id db.approvals p.1.1.0) e))

pub check_permits :
    (db : Database) (a : DecommissionApproval) (to : ApprovalStatus)
    → check_approval_transition db a to ≡ true
    → can_transition_approval a.status to ≡ true
unfolding check_approval_transition can_transition_approval
check_permits db a ApprovalStatus.withdrawn h = ground arith
check_permits db a _ h = ground arith

-- An update that leaves what was asked for, by whom and for which asset.
abbrev pub IsSameRequest : (DecommissionApproval → DecommissionApproval) → Type 0
IsSameRequest change =
    (a : DecommissionApproval)
    → can_transition_approval a.status (change a).status ≡ true
    → LaterApproval a (change a)

pub update_approval-Grows :
    (id : String) (change : DecommissionApproval → DecommissionApproval) (db : Database)
    → IsSameRequest change
    → Leads Grows db (update_approval id change db)
unfolding update_approval
update_approval-Grows id change db same_request = updated (lookup id db.approvals) refl
  where
    updated :
        (o : Option DecommissionApproval)
        → lookup id db.approvals ≡ o
        → Leads Grows db (update_approval id change db)
    updated none e = rw (e, update_approval) (record { reached = tt })
    updated (some a) e =
        rw (e, update_approval)
          (guarded-Leads grows _ db _ _ (λ p. grows_approvals db _ (λ k x h.
            ApprovalLife.Advances-put id k x a (change a) db.approvals e h
              (same_request a (check_permits db a (change a).status p.1.0)))))

pub reviewed-IsSameRequest :
    (env : Env) (to : ApprovalStatus) (reviewer note : String)
    → IsSameRequest (reviewed env to reviewer note)
reviewed-IsSameRequest env to reviewer note a q = record {
  path = onward here q;
  asset_id = refl;
  standard = refl;
  method = refl;
  applicant = refl;
  version = refl;
}

pub withdrawn-IsSameRequest : (env : Env) → IsSameRequest (withdrawn env)
withdrawn-IsSameRequest env a q = record {
  path = onward here q;
  asset_id = refl;
  standard = refl;
  method = refl;
  applicant = refl;
  version = refl;
}
