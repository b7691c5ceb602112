-- ===== src/Postgres/Reviews.antt =====
-- ReviewApproval of internal/store/memory.go and of internal/store/pg.go.
use xiesg0915_work.Prelude.{
  String, true, false, not, ◌&&◌, ◌||◌, ◌≡◌, refl, ◌∙◌, Option, none, some, [], ◌∷◌, ◌++◌,
  Bool-cases, inl, inr, lookup, put, if◌then◌else◌, arith,
}
use xiesg0915_work.Result.{not_found, conflict, ok, err}
use xiesg0915_work.Domain.Status.{ApprovalStatus, can_transition_approval, same_approval_status}
use xiesg0915_work.Domain.Entities.{DecommissionApproval, approval_reviewed}
use xiesg0915_work.Store.State.{Memory, Env, stamped, entry, append_audit_locked}
use xiesg0915_work.Store.Approvals as Memory_approvals
use xiesg0915_work.Store.Approvals.{reviewed, started}
use xiesg0915_work.Postgres.Database.{Database, Wire, map_err}
use xiesg0915_work.Postgres.Statements.{is_approval_status, check_approval_transition}
use xiesg0915_work.Postgres.Approvals
use xiesg0915_work.Postgres.Approvals.{locked, not_started, withdrawn}
use xiesg0915_work.Postgres.Gives.{
  Gives, >>=-Gives, >>=-Fails, pure-Gives, transaction-Gives, transaction-Fails, require-Gives,
  require-Fails, IsUnused, append_audit_tx-Gives, update_approval-Gives, locked-Gives, locked-Fails,
}
use xiesg0915_work.Postgres.Holding.{Queue, holding, Agree, agrees}

-- A review's target is approved or rejected.
abbrev pub IsReview : ApprovalStatus → Type 0
IsReview to =
    (same_approval_status to ApprovalStatus.approved
      || same_approval_status to ApprovalStatus.rejected)
    ≡ true

review_trigger :
    (db : Database) (a : DecommissionApproval) (to : ApprovalStatus)
    → IsReview to
    → check_approval_transition db a to ≡ can_transition_approval a.status to
unfolding check_approval_transition can_transition_approval
review_trigger db a to h = ground arith

review_status : (to : ApprovalStatus) → IsReview to → is_approval_status to ≡ true
review_status to h = ground arith

review_approval-Gives :
    (env : Env) (id : String) (to : ApprovalStatus) (reviewer note : String) (db : Database)
    (a : DecommissionApproval)
    → IsReview to
    → lookup id db.approvals ≡ some a
    → can_transition_approval a.status to ≡ true
    → IsUnused env.log_id db
    → Gives (Approvals.review_approval Wire.up env id to reviewer note) db (
      ok (reviewed env to reviewer note a),
      record db {
        approvals = put id (reviewed env to reviewer note a) db.approvals;
        audit =
            db.audit
            ++ stamped env (
                entry reviewer
                  (if same_approval_status to ApprovalStatus.rejected
                    then "approval.reject"
                    else "approval.approve")
                  "approval"
                  id
                  (approval_reviewed a.asset_tag to note))
              ∷ [];
      },
    )
unfolding Approvals.review_approval
review_approval-Gives env id to reviewer note db a h e c n =
    >>=-Gives _ _ (require-Gives _ _ db h) (
      transaction-Gives _ (
        >>=-Gives _ _ (locked-Gives id db a e) (
          >>=-Gives _ _ (require-Gives _ _ db c) (
            >>=-Gives _ _
              (update_approval-Gives id (reviewed env to reviewer note) db a e (review_status to h)
                (review_trigger db a to h ∙ c))
              (>>=-Gives _ _ (append_audit_tx-Gives env _ _ _ _ _ _ n) (pure-Gives _ _))))))

not_bad :
    (to : ApprovalStatus)
    → IsReview to
    → (not (same_approval_status to ApprovalStatus.approved)
        && not (same_approval_status to ApprovalStatus.rejected))
      ≡ false
not_bad to h = ground arith

module _ (env : Env) (id : String) (to : ApprovalStatus) (reviewer note : String) (m : Memory) where
  review_missing :
      lookup id m.approvals ≡ none
      → Memory_approvals.review_approval env id to reviewer note m ≡ (err (not_found "approval"), m)
  unfolding Memory_approvals.review_approval
  review_missing e = rw (e, Memory_approvals.review_approval) refl

  review_refused :
      (a : DecommissionApproval)
      → lookup id m.approvals ≡ some a
      → IsReview to
      → can_transition_approval a.status to ≡ false
      → Memory_approvals.review_approval env id to reviewer note m
        ≡ (err (conflict "illegal approval transition"), m)
  unfolding Memory_approvals.review_approval
  review_refused a e h c = rw (e, Memory_approvals.review_approval) (rw (not_bad to h, c) refl)

  review_done :
      (a : DecommissionApproval)
      → lookup id m.approvals ≡ some a
      → IsReview to
      → can_transition_approval a.status to ≡ true
      → Memory_approvals.review_approval env id to reviewer note m ≡ (
        ok (reviewed env to reviewer note a),
        append_audit_locked env
            (entry reviewer
              (if same_approval_status to ApprovalStatus.rejected
                then "approval.reject"
                else "approval.approve")
              "approval"
              id
              (approval_reviewed a.asset_tag to note))
            (record m { approvals = put id (reviewed env to reviewer note a) m.approvals }),
      )
  unfolding Memory_approvals.review_approval
  review_done a e h c = rw (e, Memory_approvals.review_approval) (rw (not_bad to h, c) refl)

-- ReviewApproval of both stores, with the target approved or rejected.
pub review_approval-Agree :
    (q : Queue) (env : Env) (id : String) (to : ApprovalStatus) (reviewer note : String)
    (m : Memory) (o : Option DecommissionApproval)
    → lookup id m.approvals ≡ o
    → IsReview to
    → IsUnused env.log_id (holding q m)
    → Agree q
        (Memory_approvals.review_approval env id to reviewer note m)
        (Approvals.review_approval Wire.up env id to reviewer note (holding q m))
unfolding Approvals.review_approval Memory_approvals.review_approval map_err
review_approval-Agree q env id to reviewer note m none e h n =
    agrees {y = (err (not_found "approval"), m)} _ (review_missing env id to reviewer note m e)
      (>>=-Gives _ _ (require-Gives _ _ (holding q m) h)
        (transaction-Fails _ (>>=-Fails _ _ (locked-Fails id (holding q m) e))))
      refl refl
review_approval-Agree q env id to reviewer note m (some a) e h n =
    elim (Bool-cases (can_transition_approval a.status to)) [
      | inl c ↦
          agrees _ (review_done env id to reviewer note m a e h c)
            (review_approval-Gives env id to reviewer note (holding q m) a h e c n) refl refl
      | inr c ↦
          agrees {y = (err (conflict "illegal approval transition"), m)} _
            (review_refused env id to reviewer note m a e h c)
            (>>=-Gives _ _ (require-Gives _ _ (holding q m) h) (
              transaction-Fails _ (
                >>=-Gives _ _ (locked-Gives id (holding q m) a e)
                  (>>=-Fails _ _ (require-Fails _ _ (holding q m) c)))))
            refl refl
    ]
