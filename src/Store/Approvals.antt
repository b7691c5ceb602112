-- ===== src/Store/Approvals.antt =====
-- internal/store/memory.go: the methods on decommission approvals.
use xiesg0915_work.Prelude.{
  String, Bool, false, not, ◌&&◌, ◌||◌, Option, none, some, List, [], ◌∷◌, ◌==◌, lookup, put, has,
  values, select, sort_slice, ltb, if◌then◌else◌,
}
use xiesg0915_work.Result.{not_found, conflict, ok, err, Exec}
use xiesg0915_work.Domain.Status.{
  AssetStatus, ApprovalStatus, same_asset_status, same_approval_status, can_transition_approval,
}
use xiesg0915_work.Domain.Entities.{
  DecommissionApproval, active, approval_submitted, approval_reviewed, approval_withdrawn,
}
use xiesg0915_work.Store.State.{Memory, Env, or_fresh, entry, append_audit_locked}

-- The loops over the approvals that look for an active one of the asset.
unfoldable pub find_active : String → List DecommissionApproval → Option DecommissionApproval
find_active asset_id [] = none
find_active asset_id (ap ∷ rest) =
    if ap.asset_id == asset_id && active ap then some ap else find_active asset_id rest

-- The approval as CreateApproval stores it; an unset status becomes pending.
abbrev pub new_approval : Env → DecommissionApproval → DecommissionApproval
new_approval env a = record a {
  id = or_fresh a.id env.fresh_id;
  status =
      if same_approval_status a.status ApprovalStatus.unset
      then ApprovalStatus.pending
      else a.status;
  created_at = env.now;
  updated_at = env.now;
}

unfoldable pub create_approval : Env → DecommissionApproval → Exec Memory (Unit {0})
unfolding find_active
create_approval env a m =
    let a' = new_approval env a in
    if has a.asset_id m.assets
    then elim (find_active a.asset_id (values m.approvals)) [
      | some ap ↦ (err (conflict "asset already has an active approval"), m)
      | none ↦ (
        ok tt,
        append_audit_locked env
            (entry a.applicant "approval.submit" "approval" a'.id
              (approval_submitted a.asset_tag a.standard a.method a.version))
            (record m { approvals = put a'.id a' m.approvals }),
      )
    ]
    else (err (not_found "asset"), m)

unfoldable pub get_approval : String → Exec Memory DecommissionApproval
get_approval id m = elim (lookup id m.approvals) [
  | none ↦ (err (not_found "approval"), m)
  | some a ↦ (ok a, m)
]

unfoldable pub get_active_approval : String → Exec Memory DecommissionApproval
unfolding find_active
get_active_approval asset_id m = elim (find_active asset_id (values m.approvals)) [
  | none ↦ (err (not_found "no active approval"), m)
  | some a ↦ (ok a, m)
]

abbrev pub newer_approval : DecommissionApproval → DecommissionApproval → Bool
newer_approval a b = ltb b.created_at a.created_at

unfoldable pub list_approvals : String → Exec Memory (List DecommissionApproval)
unfolding sort_slice
list_approvals asset_id m = (
  ok (
      sort_slice newer_approval
        (select (λ a. asset_id == "" || a.asset_id == asset_id) (values m.approvals))),
  m,
)

-- The approval as ReviewApproval leaves it.
abbrev pub reviewed :
    Env → ApprovalStatus → (reviewer note : String) → DecommissionApproval → DecommissionApproval
reviewed env to reviewer note a = record a {
  status = to;
  reviewer = reviewer;
  review_note = note;
  reviewed_at = some env.now;
  updated_at = env.now;
}

unfoldable pub review_approval :
    Env → String → ApprovalStatus → (reviewer note : String) → Exec Memory DecommissionApproval
review_approval env id to reviewer note m = elim (lookup id m.approvals) [
  | none ↦ (err (not_found "approval"), m)
  | some a ↦
      let a' = reviewed env to reviewer note a in
      if not (same_approval_status to ApprovalStatus.approved)
        && not (same_approval_status to ApprovalStatus.rejected)
      then (err (conflict "review target must be approved|rejected"), m)
      else if can_transition_approval a.status to
      then (
        ok a',
        append_audit_locked env
            (entry reviewer
              (if same_approval_status to ApprovalStatus.rejected
                then "approval.reject"
                else "approval.approve")
              "approval" id (approval_reviewed a.asset_tag to note))
            (record m { approvals = put id a' m.approvals }),
      )
      else (err (conflict "illegal approval transition"), m)
]

-- The asset of an approved request has left `pending`: its execution has started.
abbrev pub started : DecommissionApproval → Memory → Bool
started a m = elim (lookup a.asset_id m.assets) [
  | none ↦ false
  | some asset ↦ not (same_asset_status asset.status AssetStatus.pending)
]

unfoldable pub withdraw_approval : Env → (id actor : String) → Exec Memory DecommissionApproval
withdraw_approval env id actor m = elim (lookup id m.approvals) [
  | none ↦ (err (not_found "approval"), m)
  | some a ↦
      let a' = record a { status = ApprovalStatus.withdrawn; updated_at = env.now } in
      if can_transition_approval a.status ApprovalStatus.withdrawn
      then if same_approval_status a.status ApprovalStatus.approved && started a m
        then (err (conflict "execution already started, approval cannot be withdrawn"), m)
        else (
          ok a',
          append_audit_locked env
              (entry actor "approval.withdraw" "approval" id
                (approval_withdrawn a.asset_tag a.version))
              (record m { approvals = put id a' m.approvals }),
        )
      else (err (conflict "illegal approval transition"), m)
]
