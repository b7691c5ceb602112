-- ===== src/Postgres/Keeping.antt =====
-- internal/store/pg.go and migrations/*.sql: every statement keeps the foreign keys and the unique
-- index on open requests.
use xiesg0915_work.Prelude.{
  ℕ, String, Bool, true, not, ◌&&◌, ◌≡◌, Option-cases, inl, inr, refl, ap, subst, ◌==◌, eq_iff,
  Option, none, some, List, [], ◌∷◌, All, All-select, All-sort_slice, All-lookup, Table, has,
  lookup, values, arith,
}
use xiesg0915_work.Domain.Status.{AssetStatus, DiskStatus}
use xiesg0915_work.Domain.Entities.{
  Asset, Disk, ErasureJob, ErasureRun, Certificate, DisposalConfirmation, DecommissionApproval,
  AuditLog, active,
}
use xiesg0915_work.Store.State.{Env}
use xiesg0915_work.Store.SingleApproval.{put-IsSingle, change-IsSingle}
use xiesg0915_work.Postgres.Database.{Database, JobRow}
use xiesg0915_work.Postgres.Statements.{
  find_row, has_row, insert_asset, update_asset_status, moved_asset, insert_disk, update_disk,
  insert_certificate, insert_disposal, insert_approval, update_approval, insert_audit,
}
use xiesg0915_work.Postgres.Queue.{
  insert_job, first, is_pickable, picked_before, claimed_row, best, claim_job, update_job,
  upsert_checkpoint, insert_run,
}
use xiesg0915_work.Postgres.Moves.{Preorder, Leads, guarded-Leads}
use xiesg0915_work.Postgres.Obeyed.{IsSameJob}
use xiesg0915_work.Postgres.Growing.{IsSameRequest, check_permits}
use xiesg0915_work.Postgres.Integrity.{
  IsSound, put_assets-IsSound, put_disks-IsSound, put_jobs-IsSound, put_checkpoints-IsSound,
  put_certs-IsSound, put_disposals-IsSound, put_approvals-IsSound, add_run-IsSound, audit-IsSound,
}

abbrev pub Kept : Database → Database → Type 0
Kept a b = IsSound a → IsSound b

abbrev pub kept : Preorder Kept
kept = record { reflexive = λ a s. s; transitive = λ a b c f g s. g (f s) }

pub insert_asset-Kept :
    (env : Env) (a : Asset) (db : Database) → Leads Kept db (insert_asset env a db)
unfolding insert_asset
insert_asset-Kept env a db =
    guarded-Leads kept _ db _ _ (λ p s. put_assets-IsSound env.fresh_id _ db s)

pub update_asset-Kept :
    (env : Env) (id : String) (to : AssetStatus) (db : Database)
    → Leads Kept db (update_asset_status env id to db)
unfolding update_asset_status
update_asset-Kept env id to db = updated (lookup id db.assets) refl
  where
    updated :
        (o : Option Asset)
        → lookup id db.assets ≡ o
        → Leads Kept db (update_asset_status env id to db)
    updated none e = rw (e, update_asset_status) (guarded-Leads kept _ db db _ (λ p s. s))
    updated (some a) e =
        rw (e, update_asset_status)
          (guarded-Leads kept _ db _ _ (λ p s. put_assets-IsSound id (moved_asset env to a) db s))

pub insert_disk-Kept : (env : Env) (d : Disk) (db : Database) → Leads Kept db (insert_disk env d db)
unfolding insert_disk
insert_disk-Kept env d db =
    guarded-Leads kept _ db _ _ (λ p s. put_disks-IsSound d.id _ db s p.1.1.1.0)

pub update_disk-Kept :
    (id : String) (t : DiskStatus) (db : Database) → Leads Kept db (update_disk id t db)
unfolding update_disk
update_disk-Kept id t db = updated (lookup id db.disks) refl
  where
    updated : (o : Option Disk) → lookup id db.disks ≡ o → Leads Kept db (update_disk id t db)
    updated none e = rw (e, update_disk) (guarded-Leads kept _ db db _ (λ p s. s))
    updated (some d) e =
        rw (e, update_disk)
          (guarded-Leads kept _ db _ _ (λ p s.
            put_disks-IsSound id (record d { status = t }) db s
              (All-lookup _ id d db.disks s.disk_asset e)))

pub insert_job-Kept :
    (env : Env) (j : ErasureJob) (db : Database) → Leads Kept db (insert_job env j db)
unfolding insert_job
insert_job-Kept env j db =
    guarded-Leads kept _ db _ _ (λ p s. put_jobs-IsSound env.fresh_id _ db s p.1.0)

pub update_job-Kept :
    (id : String) (change : JobRow → JobRow) (db : Database)
    → IsSameJob change
    → Leads Kept db (update_job id change db)
unfolding update_job
update_job-Kept id change db h = updated (lookup id db.jobs) refl
  where
    updated : (o : Option JobRow) → lookup id db.jobs ≡ o → Leads Kept db (update_job id change db)
    updated none e = rw (e, update_job) (record { reached = λ s. s })
    updated (some r) e =
        rw (e, update_job)
          (record {
            reached = λ s.
                put_jobs-IsSound id (change r) db s
                  (rw ((h r).1) (All-lookup _ id r db.jobs s.job_disk e));
          })

pub first-All :
    {A : Type 0} (P : A → Type 0) (xs : List A) (x : A) → All P xs → first xs ≡ some x → P x
first-All P [] x h e = cc
first-All P (y ∷ ys) x h e = subst P same_row h.0
  where
    same_row : y ≡ x
    same_row = ground arith

-- The row that the query picks is a row of the table.
best-has_disk :
    (env : Env) (w : String) (n : ℕ) (db : Database) (r : JobRow)
    → IsSound db
    → best env w n db ≡ some r
    → has r.job.disk_id db.disks ≡ true
unfolding best
best-has_disk env w n db r s e =
    first-All (λ (q : JobRow). has q.job.disk_id db.disks ≡ true) _ r
      (All-sort_slice _ picked_before _
        (All-select _ (is_pickable db env.now w n) (values db.jobs) s.job_disk))
      e

pub claim_job-Kept :
    (env : Env) (w : String) (n : ℕ) (db : Database) → Leads Kept db (claim_job env w n db)
unfolding claim_job
claim_job-Kept env w n db = updated (best env w n db) refl
  where
    updated : (o : Option JobRow) → best env w n db ≡ o → Leads Kept db (claim_job env w n db)
    updated none e = rw (e, claim_job) (record { reached = tt })
    updated (some r) e =
        rw (e, claim_job)
          (record {
            reached = λ s.
                put_jobs-IsSound r.job.id (claimed_row env w r) db s
                  (best-has_disk env w n db r s e);
          })

pub upsert_checkpoint-Kept :
    (env : Env) (id : String) (p o : ℕ) (db : Database)
    → Leads Kept db (upsert_checkpoint env id p o db)
unfolding upsert_checkpoint
upsert_checkpoint-Kept env id p o db =
    guarded-Leads kept _ db _ _ (λ h s. put_checkpoints-IsSound id _ db s h.0)

pub insert_run-Kept :
    (env : Env) (r : ErasureRun) (db : Database) → Leads Kept db (insert_run env r db)
unfolding insert_run
insert_run-Kept env r db = guarded-Leads kept _ db _ _ (λ p s. add_run-IsSound _ db s p.1.0)

pub insert_certificate-Kept :
    (env : Env) (c : Certificate) (db : Database) → Leads Kept db (insert_certificate env c db)
unfolding insert_certificate
insert_certificate-Kept env c db =
    guarded-Leads kept _ db _ _ (λ p s. put_certs-IsSound c.cert_no _ db s p.1.0 p.1.1.0 p.1.1.1.0)

pub insert_disposal-Kept :
    (env : Env) (d : DisposalConfirmation) (db : Database)
    → Leads Kept db (insert_disposal env d db)
unfolding insert_disposal
insert_disposal-Kept env d db =
    guarded-Leads kept _ db _ _ (λ p s. put_disposals-IsSound d.asset_id _ db s p.1.1.1.0)

pub insert_audit-Kept :
    (env : Env) (l : AuditLog) (db : Database) → Leads Kept db (insert_audit env l db)
unfolding insert_audit
insert_audit-Kept env l db = guarded-Leads kept _ db _ _ (λ p s. audit-IsSound _ db s)

-- No row of the table is one that the test accepts.
unmatched :
    {V : Type 0} (p : V → Bool) (t : Table V) (k : String) (v : V)
    → find_row p (values t) ≡ none
    → lookup k t ≡ some v
    → p v ≡ true
    → ⊥
unfolding find_row lookup
unmatched p [] k v n h e = cc
unmatched p ((j, w) ∷ t) k v n h e = ground (arith, ap p {x = w} {y = v}, unmatched p t k v)

abbrev opens : DecommissionApproval → DecommissionApproval → Bool
opens a b = b.asset_id == a.asset_id && active b

-- What uniq_active_approval lets pass is the only open request of its asset.
unique_open :
    (a b : DecommissionApproval) (t : Table DecommissionApproval) (j : String)
    → not (active a && has_row (opens a) (values t)) ≡ true
    → active a ≡ true
    → lookup j t ≡ some b
    → b.asset_id ≡ a.asset_id
    → active b ≡ true
    → ⊥
unique_open a b t j u oa h e ob = unmatched (opens a) t j b none_open h matched
  where
    none_open : find_row (opens a) (values t) ≡ none
    none_open = elim (Option-cases (find_row (opens a) (values t))) [
      | inl n ↦ n
      | inr (c, f) ↦ absurd (closed c f)
    ]
      where
        closed : (c : DecommissionApproval) → find_row (opens a) (values t) ≡ some c → ⊥
        closed c f = ground (arith, u, oa)

    matched : opens a b ≡ true
    matched = ground (arith, eq_iff b.asset_id a.asset_id)

pub insert_approval-Kept :
    (env : Env) (a : DecommissionApproval) (db : Database)
    → Leads Kept db (insert_approval env a db)
unfolding insert_approval
insert_approval-Kept env a db = guarded-Leads kept _ db _ _ (λ p s.
    put_approvals-IsSound a.id _ db s p.1.1.1.1.0 (
      put-IsSingle a.id _ db.approvals
        (λ j b hj e ob oa. absurd (unique_open a b db.approvals j p.1.1.1.0 oa hj e ob)) s.single))

pub update_approval-Kept :
    (id : String) (change : DecommissionApproval → DecommissionApproval) (db : Database)
    → IsSameRequest change
    → Leads Kept db (update_approval id change db)
unfolding update_approval
update_approval-Kept id change db same_request = updated (lookup id db.approvals) refl
  where
    updated :
        (o : Option DecommissionApproval)
        → lookup id db.approvals ≡ o
        → Leads Kept db (update_approval id change db)
    updated none e = rw (e, update_approval) (record { reached = tt })
    updated (some a) e =
        rw (e, update_approval)
          (guarded-Leads kept _ db _ _ (λ p s.
            (let permitted = check_permits db a (change a).status p.1.0 in
              let same_asset = (same_request a permitted).asset_id in
              put_approvals-IsSound id (change a) db s
                (rw same_asset (All-lookup _ id a db.approvals s.approval_asset e))
                (change-IsSingle id a (change a) db.approvals e permitted same_asset s.single))))
