-- ===== src/Postgres/Withdrawals.antt =====
-- WithdrawApproval of internal/store/memory.go and of internal/store/pg.go.
use xiesg0915_work.Prelude.{
  String, true, false, ◌&&◌, ◌≡◌, refl, Option, none, some, Bool-cases, inl, inr, has, lookup, put,
  arith,
}
use xiesg0915_work.Result.{not_found, conflict, ok, err}
use xiesg0915_work.Domain.Status.{ApprovalStatus, can_transition_approval, same_approval_status}
use xiesg0915_work.Domain.Entities.{DecommissionApproval, approval_withdrawn}
use xiesg0915_work.Store.State.{Memory, Env, entry, append_audit_locked}
use xiesg0915_work.Store.Approvals as Memory_approvals
use xiesg0915_work.Store.Approvals.{reviewed, started}
use xiesg0915_work.Postgres.Database.{Database, Wire, map_err}
use xiesg0915_work.Postgres.Statements.{has_left_pending, check_approval_transition}
use xiesg0915_work.Postgres.Approvals
use xiesg0915_work.Postgres.Approvals.{locked, not_started, withdrawn}
use xiesg0915_work.Postgres.Gives.{
  Gives, >>=-Gives, >>=-Fails, pure-Gives, transaction-Gives, transaction-Fails, require-Gives,
  require-Fails, IsUnused, append_audit_tx-Gives, update_approval-Gives, locked-Gives, locked-Fails,
}
use xiesg0915_work.Postgres.Holding.{Queue, holding, Agree, agrees}

module _ (env : Env) (id actor : String) (m : Memory) where
  withdraw_missing :
      lookup id m.approvals ≡ none
      → Memory_approvals.withdraw_approval env id actor m ≡ (err (not_found "approval"), m)
  unfolding Memory_approvals.withdraw_approval
  withdraw_missing e = rw (e, Memory_approvals.withdraw_approval) refl

  withdraw_refused :
      (a : DecommissionApproval)
      → lookup id m.approvals ≡ some a
      → can_transition_approval a.status ApprovalStatus.withdrawn ≡ false
      → Memory_approvals.withdraw_approval env id actor m
        ≡ (err (conflict "illegal approval transition"), m)
  unfolding Memory_approvals.withdraw_approval
  withdraw_refused a e c = rw (e, Memory_approvals.withdraw_approval) (rw c refl)

  withdraw_late :
      (a : DecommissionApproval)
      → lookup id m.approvals ≡ some a
      → can_transition_approval a.status ApprovalStatus.withdrawn ≡ true
      → (same_approval_status a.status ApprovalStatus.approved && started a m) ≡ true
      → Memory_approvals.withdraw_approval env id actor m
        ≡ (err (conflict "execution already started, approval cannot be withdrawn"), m)
  unfolding Memory_approvals.withdraw_approval
  withdraw_late a e c p = rw (e, Memory_approvals.withdraw_approval) (rw (c, p) refl)

  withdraw_done :
      (a : DecommissionApproval)
      → lookup id m.approvals ≡ some a
      → can_transition_approval a.status ApprovalStatus.withdrawn ≡ true
      → (same_approval_status a.status ApprovalStatus.approved && started a m) ≡ false
      → Memory_approvals.withdraw_approval env id actor m ≡ (
        ok (withdrawn env a),
        append_audit_locked env
            (entry actor "approval.withdraw" "approval" id
              (approval_withdrawn a.asset_tag a.version))
            (record m { approvals = put id (withdrawn env a) m.approvals }),
      )
  unfolding Memory_approvals.withdraw_approval
  withdraw_done a e c p = rw (e, Memory_approvals.withdraw_approval) (rw (c, p) refl)

-- The asset of a request is stored.
abbrev pub NamesAsset : DecommissionApproval → Memory → Type 0
NamesAsset a m = has a.asset_id m.assets ≡ true

not_started-Gives :
    (q : Queue) (a : DecommissionApproval) (m : Memory)
    → NamesAsset a m
    → (same_approval_status a.status ApprovalStatus.approved && started a m) ≡ false
    → Gives (not_started a) (holding q m) (ok tt, holding q m)
not_started-Gives q a m h p = record { given = ground (arith, h, p) }

not_started-Fails :
    (q : Queue) (a : DecommissionApproval) (m : Memory)
    → NamesAsset a m
    → (same_approval_status a.status ApprovalStatus.approved && started a m) ≡ true
    → Gives
        (not_started a)
        (holding q m)
        (err (conflict "execution already started, approval cannot be withdrawn"), holding q m)
not_started-Fails q a m h p = record { given = ground (arith, h, p) }

withdraw_trigger :
    (db : Database) (a : DecommissionApproval)
    → can_transition_approval a.status ApprovalStatus.withdrawn ≡ true
    → (same_approval_status a.status ApprovalStatus.approved && has_left_pending a.asset_id db)
      ≡ false
    → check_approval_transition db a ApprovalStatus.withdrawn ≡ true
unfolding check_approval_transition can_transition_approval
withdraw_trigger db a c p = ground arith

-- WithdrawApproval of both stores, of a request whose asset is stored.
pub withdraw_approval-Agree :
    (q : Queue) (env : Env) (id actor : String) (m : Memory) (o : Option DecommissionApproval)
    → lookup id m.approvals ≡ o
    → ((a : DecommissionApproval) → lookup id m.approvals ≡ some a → NamesAsset a m)
    → IsUnused env.log_id (holding q m)
    → Agree q
        (Memory_approvals.withdraw_approval env id actor m)
        (Approvals.withdraw_approval Wire.up env id actor (holding q m))
unfolding Approvals.withdraw_approval map_err
withdraw_approval-Agree q env id actor m none e h n =
    agrees {y = (err (not_found "approval"), m)} _ (withdraw_missing env id actor m e)
      (transaction-Fails _ (>>=-Fails _ _ (locked-Fails id (holding q m) e))) refl refl
withdraw_approval-Agree q env id actor m (some a) e h n =
    elim (Bool-cases (can_transition_approval a.status ApprovalStatus.withdrawn)) [
      | inr c ↦
          agrees {y = (err (conflict "illegal approval transition"), m)} _
            (withdraw_refused env id actor m a e c)
            (transaction-Fails _ (
              >>=-Gives _ _ (locked-Gives id (holding q m) a e)
                (>>=-Fails _ _ (require-Fails _ _ (holding q m) c))))
            refl refl
      | inl c ↦
          elim (Bool-cases (same_approval_status a.status ApprovalStatus.approved && started a m)) [
            | inl p ↦
                agrees
                  {y = (
                    err (conflict "execution already started, approval cannot be withdrawn"),
                    m,
                  )}
                  _ (withdraw_late env id actor m a e c p)
                  (transaction-Fails _ (
                    >>=-Gives _ _ (locked-Gives id (holding q m) a e) (
                      >>=-Gives _ _ (require-Gives _ _ (holding q m) c)
                        (>>=-Fails _ _ (not_started-Fails q a m (h a e) p)))))
                  refl refl
            | inr p ↦
                agrees _ (withdraw_done env id actor m a e c p)
                  (transaction-Gives _ (
                    >>=-Gives _ _ (locked-Gives id (holding q m) a e) (
                      >>=-Gives _ _ (require-Gives _ _ (holding q m) c) (
                        >>=-Gives _ _ (not_started-Gives q a m (h a e) p) (
                          >>=-Gives _ _
                            (update_approval-Gives id (withdrawn env) (holding q m) a e refl
                              (withdraw_trigger (holding q m) a c p))
                            (>>=-Gives _ _ (append_audit_tx-Gives env _ _ _ _ _ _ n)
                              (pure-Gives _ _)))))))
                  refl refl
          ]
    ]
