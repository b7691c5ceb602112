-- ===== src/Service/Reviews.antt =====
-- Who may decide on a decommission request, and when.
use xiesg0915_work.Prelude.{
  String, Bool, true, false, ◌≡◌, ◌≢◌, ◌⊎◌, inl, inr, some, ◌==◌, eq_iff, lookup, lookup-put,
  eq_refl, arith, if◌then◌else◌, Option-cases,
}
use xiesg0915_work.Result.{ok}
use xiesg0915_work.Domain.Status.{ApprovalStatus, can_transition_approval}
use xiesg0915_work.Domain.Entities.{DecommissionApproval}
use xiesg0915_work.Store.State.{Memory}
use xiesg0915_work.Store.Approvals.{get_approval, review_approval, withdraw_approval, started}
use xiesg0915_work.Service.Requests.{Envs, review, withdraw}

-- What a review does to a request, from the state `m` to `m'`.
pub record IsReviewed (id reviewer note : String) (approve : Bool) (m : Memory)
    (a : DecommissionApproval) (m' : Memory) : Type 0 where
  pub before : DecommissionApproval
  pub stored : lookup id m.approvals ≡ some before
  pub pending : before.status ≡ ApprovalStatus.pending
  pub other : reviewer ≢ before.applicant
  pub status : a.status ≡ (if approve then ApprovalStatus.approved else ApprovalStatus.rejected)
  pub explained : (approve ≡ true) ⊎ (note ≢ "")
  pub signed : a.reviewer ≡ reviewer
  pub remark : a.review_note ≡ note
  pub kept : lookup id m'.approvals ≡ some a

review_checks :
    (env : Envs) (id reviewer note : String) (approve : Bool) (m : Memory)
    (a b : DecommissionApproval)
    → lookup id m.approvals ≡ some b
    → (review env id reviewer approve note m).0 ≡ ok a
    → (b.status ≡ ApprovalStatus.pending)
      × ((reviewer == b.applicant) ≡ false)
      × (a.status ≡ (if approve then ApprovalStatus.approved else ApprovalStatus.rejected))
      × ((approve ≡ true) ⊎ ((note == "") ≡ false))
      × (a.reviewer ≡ reviewer)
      × (a.review_note ≡ note)
      × (lookup id (review env id reviewer approve note m).1.approvals ≡ some a)
unfolding review get_approval review_approval
review_checks env id reviewer note approve m a b f h = (
  ground (arith, f),
  ground (arith, f),
  ground (arith, f),
  ground (arith, f),
  ground (arith, f),
  ground (arith, f),
  ground (arith, f, lookup-put id id a m.approvals, eq_refl id),
)

noted :
    (approve : Bool) (note : String)
    → (approve ≡ true) ⊎ ((note == "") ≡ false)
    → (approve ≡ true) ⊎ (note ≢ "")
noted approve note (inl h) = inl h
noted approve note (inr h) = inr (λ same. cc (h, (eq_iff note "").1 same))

-- A review that succeeds was made of a pending request by somebody else than its applicant; the
-- request that is then stored under its identifier is the one returned, approved or rejected as
-- decided, with the reviewer's name and note, and a rejection has a note.
pub review_gate :
    (env : Envs) (id reviewer note : String) (approve : Bool) (m : Memory)
    (a : DecommissionApproval)
    → (review env id reviewer approve note m).0 ≡ ok a
    → IsReviewed id reviewer note approve m a (review env id reviewer approve note m).1
unfolding review get_approval
review_gate env id reviewer note approve m a h = elim (Option-cases (lookup id m.approvals)) [
  | inl n ↦ absurd (ground (arith, n))
  | inr (b, f) ↦
      let c = review_checks env id reviewer note approve m a b f h in
      record {
        before = b;
        stored = f;
        pending = c.0;
        other = λ same. cc (c.1, (eq_iff reviewer b.applicant).1 same);
        status = c.2;
        explained = noted approve note c.3;
        signed = c.4;
        remark = c.5;
        kept = c.6;
      }
]

-- What a withdrawal asks of a request and does to it, from the state `m` to `m'`.
pub record IsWithdrawn (id operator : String) (m : Memory) (a : DecommissionApproval) (m' : Memory)
    : Type 0 where
  pub before : DecommissionApproval
  pub stored : lookup id m.approvals ≡ some before
  pub own : operator ≡ before.applicant
  pub status : a.status ≡ ApprovalStatus.withdrawn
  pub kept : lookup id m'.approvals ≡ some a
  pub permitted :
      (before.status ≡ ApprovalStatus.pending)
      ⊎ (before.status ≡ ApprovalStatus.withdrawn)
      ⊎ (before.status ≡ ApprovalStatus.approved) × (started before m ≡ false)

withdraw_checks :
    (env : Envs) (id operator : String) (m : Memory) (a b : DecommissionApproval)
    → lookup id m.approvals ≡ some b
    → (withdraw env id operator m).0 ≡ ok a
    → (operator ≡ b.applicant)
      × (a.status ≡ ApprovalStatus.withdrawn)
      × (lookup id (withdraw env id operator m).1.approvals ≡ some a)
      × ((b.status ≡ ApprovalStatus.pending)
          ⊎ (b.status ≡ ApprovalStatus.withdrawn)
          ⊎ (b.status ≡ ApprovalStatus.approved) × (started b m ≡ false))
unfolding withdraw get_approval withdraw_approval can_transition_approval
withdraw_checks env id operator m a b f h = (
  ground (arith, f, eq_iff operator b.applicant),
  ground (arith, f),
  ground (arith, f, lookup-put id id a m.approvals, eq_refl id),
  ground (arith, f),
)

-- A withdrawal that succeeds is the applicant's own, and the request, now withdrawn, is stored as
-- it is returned. Before, the request was pending, or approved with its asset still pending or
-- unknown, or withdrawn already; the asset's status is looked at in the second case alone.
pub withdraw_gate :
    (env : Envs) (id operator : String) (m : Memory) (a : DecommissionApproval)
    → (withdraw env id operator m).0 ≡ ok a
    → IsWithdrawn id operator m a (withdraw env id operator m).1
unfolding withdraw get_approval
withdraw_gate env id operator m a h = elim (Option-cases (lookup id m.approvals)) [
  | inl n ↦ absurd (ground (arith, n))
  | inr (b, f) ↦
      let c = withdraw_checks env id operator m a b f h in
      record { before = b; stored = f; own = c.0; status = c.1; kept = c.2; permitted = c.3 }
]

-- A request that is withdrawn already can be withdrawn again by its applicant, whatever the status
-- of its asset: the call succeeds, and dates the request anew.
pub withdraw-again :
    (env : Envs) (id operator : String) (m : Memory) (b : DecommissionApproval)
    → operator ≢ ""
    → lookup id m.approvals ≡ some b
    → b.status ≡ ApprovalStatus.withdrawn
    → operator ≡ b.applicant
    → let out = withdraw env id operator m in
      let a : DecommissionApproval = record b {
        status = ApprovalStatus.withdrawn;
        updated_at = (env 0).now;
      } in
      (out.0 ≡ ok a) × (lookup id out.1.approvals ≡ some a)
unfolding withdraw get_approval withdraw_approval can_transition_approval
withdraw-again env id operator m b n f w o =
    let a : DecommissionApproval = record b {
      status = ApprovalStatus.withdrawn;
      updated_at = (env 0).now;
    } in
    (
      ground (arith, f, eq_iff operator b.applicant, eq_iff operator ""),
      ground (
        arith,
        f,
        eq_iff operator b.applicant,
        eq_iff operator "",
        lookup-put id id a m.approvals,
        eq_refl id,
      ),
    )
