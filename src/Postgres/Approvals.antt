-- ===== src/Postgres/Approvals.antt =====
-- internal/store/pg.go: the methods on decommission approvals.
use xiesg0915_work.Prelude.{
  String, not, ◌&&◌, ◌||◌, List, ◌==◌, lookup, values, select, sort_slice, if◌then◌else◌,
}
use xiesg0915_work.Result.{conflict, Exec, pure, require, ◌>>=◌, ◌>>◌}
use xiesg0915_work.Domain.Status.{
  ApprovalStatus, AssetStatus, same_asset_status, same_approval_status, can_transition_approval,
}
use xiesg0915_work.Domain.Entities.{
  Asset, DecommissionApproval, active, approval_submitted, approval_reviewed, approval_withdrawn,
}
use xiesg0915_work.Store.State.{Env, or_fresh, entry}
use xiesg0915_work.Store.Approvals.{newer_approval, reviewed}
use xiesg0915_work.Postgres.Database.{Database, map_err, execute, Wire, transaction}
use xiesg0915_work.Postgres.Statements.{insert_approval, update_approval, insert_audit}
use xiesg0915_work.Postgres.Queue.{first}
use xiesg0915_work.Postgres.Assets.{fetch, append_audit_tx}

-- The request with its defaults.
abbrev pub defaulted : Env → DecommissionApproval → DecommissionApproval
defaulted env a = record a {
  id = or_fresh a.id env.fresh_id;
  status =
      if same_approval_status a.status ApprovalStatus.unset
      then ApprovalStatus.pending
      else a.status;
}

unfoldable pub create_approval : Wire → Env → DecommissionApproval → Exec Database (Unit {0})
unfolding transaction insert_approval insert_audit
create_approval wire env a = transaction wire (do
  execute map_err (insert_approval env (defaulted env a))
  append_audit_tx env (
      entry a.applicant "approval.submit" "approval" (defaulted env a).id
        (approval_submitted a.asset_tag a.standard a.method a.version)))

unfoldable pub get_approval : Wire → String → Exec Database DecommissionApproval
unfolding transaction
get_approval wire id db = transaction wire (execute map_err (fetch (lookup id db.approvals))) db

unfoldable pub get_active_approval : Wire → String → Exec Database DecommissionApproval
unfolding transaction sort_slice
get_active_approval wire asset_id db =
    transaction wire
      (execute map_err (
        fetch (
          first (
            sort_slice newer_approval (
              select (λ (a : DecommissionApproval). a.asset_id == asset_id && active a)
                (values db.approvals))))))
      db

unfoldable pub list_approvals : Wire → String → Exec Database (List DecommissionApproval)
unfolding transaction sort_slice
list_approvals wire asset_id db =
    transaction wire
      (pure (
        sort_slice newer_approval
          (select (λ a. asset_id == "" || a.asset_id == asset_id) (values db.approvals))))
      db

-- SELECT ... FOR UPDATE
abbrev pub locked : String → Exec Database DecommissionApproval
locked id db = execute map_err (fetch (lookup id db.approvals)) db

unfoldable pub review_approval :
    Wire
    → Env
    → String
    → ApprovalStatus
    → (reviewer note : String) → Exec Database DecommissionApproval
unfolding transaction update_approval insert_audit
review_approval wire env id to reviewer note =
    require
      (same_approval_status to ApprovalStatus.approved
        || same_approval_status to ApprovalStatus.rejected)
      (conflict "review target must be approved|rejected")
    >> transaction wire (do
      a ← locked id
      require (can_transition_approval a.status to) (conflict "illegal approval transition")
      b ← execute map_err (update_approval id (reviewed env to reviewer note))
      append_audit_tx env (
          entry reviewer
            (if same_approval_status to ApprovalStatus.rejected
              then "approval.reject"
              else "approval.approve")
            "approval" id (approval_reviewed b.asset_tag to note))
      pure b)

-- SELECT status FROM assets WHERE id
abbrev pub asset_of : String → Exec Database Asset
asset_of id db = execute map_err (fetch (lookup id db.assets)) db

-- An approved request is withdrawn before its execution only.
abbrev pub not_started : DecommissionApproval → Exec Database (Unit {0})
not_started a =
    if not (same_approval_status a.status ApprovalStatus.approved)
    then pure tt
    else asset_of a.asset_id >>= λ (asset : Asset).
        require (same_asset_status asset.status AssetStatus.pending)
          (conflict "execution already started, approval cannot be withdrawn")

abbrev pub withdrawn : Env → DecommissionApproval → DecommissionApproval
withdrawn env a = record a { status = ApprovalStatus.withdrawn; updated_at = env.now }

unfoldable pub withdraw_approval :
    Wire → Env → (id actor : String) → Exec Database DecommissionApproval
unfolding transaction update_approval insert_audit
withdraw_approval wire env id actor = transaction wire (do
  a ← locked id
  require (can_transition_approval a.status ApprovalStatus.withdrawn)
      (conflict "illegal approval transition")
  not_started a
  b ← execute map_err (update_approval id (withdrawn env))
  append_audit_tx env
      (entry actor "approval.withdraw" "approval" id (approval_withdrawn b.asset_tag b.version))
  pure b)
