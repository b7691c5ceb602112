-- ===== src/Store/ApprovalLife.antt =====
-- What becomes of a decommission approval that is in the store.
use xiesg0915_work.Prelude.{
  String, Bool, true, false, not, ◌&&◌, ◌≡◌, refl, ap, subst, ◌==◌, eq_iff, none, some, List, [],
  ◌∷◌, Option, inl, inr, Bool-cases, has, lookup, put, lookup-put, Table, values, if◌then◌else◌,
  arith,
}
use xiesg0915_work.Domain.Status.{ApprovalStatus, same_approval_status, can_transition_approval}
use xiesg0915_work.Domain.Entities.{DecommissionApproval}
use xiesg0915_work.Store.State.{Memory, Env, or_fresh}
use xiesg0915_work.Store.Approvals
use xiesg0915_work.Store.Approvals.{find_active, started}
use xiesg0915_work.Store.Commands.{Command, step, run}

-- A request's status from one state of the store to a later one.
pub data ApprovalPath (s : ApprovalStatus) : ApprovalStatus → Type 0 where
  here : ApprovalPath s s
  onward :
      {t u : ApprovalStatus}
      → ApprovalPath s t
      → can_transition_approval t u ≡ true
      → ApprovalPath s u

pub ApprovalPath-trans :
    {s t u : ApprovalStatus} → ApprovalPath s t → ApprovalPath t u → ApprovalPath s u
ApprovalPath-trans p here = p
ApprovalPath-trans p (onward q e) = onward (ApprovalPath-trans p q) e

-- `b` is `a` at a later time: what was asked for, by whom and for which asset has stayed.
pub record LaterApproval (a b : DecommissionApproval) : Type 0 where
  pub path : ApprovalPath a.status b.status
  pub asset_id : b.asset_id ≡ a.asset_id
  pub standard : b.standard ≡ a.standard
  pub method : b.method ≡ a.method
  pub applicant : b.applicant ≡ a.applicant
  pub version : b.version ≡ a.version

pub Later-refl : (a : DecommissionApproval) → LaterApproval a a
Later-refl a = record {
  path = here;
  asset_id = refl;
  standard = refl;
  method = refl;
  applicant = refl;
  version = refl;
}

pub Later-trans :
    {a b c : DecommissionApproval} → LaterApproval a b → LaterApproval b c → LaterApproval a c
Later-trans {a} {b} {c} h g = record {
  path = ApprovalPath-trans h.path g.path;
  asset_id = cc;
  standard = cc;
  method = cc;
  applicant = cc;
  version = cc;
}

abbrev pub Advances : DecommissionApproval → Option DecommissionApproval → Type 0
Advances a none = ⊥
Advances a (some b) = LaterApproval a b

-- A submission does not reuse the identifier of a request.
abbrev pub IsFresh : Env → Command → Memory → Type 0
IsFresh env (Command.create_approval a) m = lookup (or_fresh a.id env.fresh_id) m.approvals ≡ none
IsFresh env _ m = Unit

abbrev pub AllFresh : List (Env × Command) → Memory → Type 0
AllFresh [] m = Unit
AllFresh ((env, c) ∷ rest) m = IsFresh env c m × AllFresh rest (step env c m)

pub Advances-put :
    (id k : String) (a b c : DecommissionApproval) (t : Table DecommissionApproval)
    → lookup id t ≡ some b
    → lookup k t ≡ some a
    → LaterApproval b c
    → Advances a (lookup k (put id c t))
Advances-put id k a b c t found h l = rw (lookup-put id k c t) (branch (id == k) refl)
  where
    branch : (q : Bool) → (id == k) ≡ q → Advances a (if q then some c else lookup k t)
    branch true e =
        subst (λ (x : DecommissionApproval). LaterApproval x c)
          (ground (arith, ap (λ x. lookup x t) ((eq_iff id k).0 e))) l
    branch false e = rw h (Later-refl a)

-- An entry under a new identifier leaves the others.
pub Advances-new :
    (id k : String) (a c : DecommissionApproval) (t : Table DecommissionApproval)
    → lookup id t ≡ none
    → lookup k t ≡ some a
    → Advances a (lookup k (put id c t))
Advances-new id k a c t fresh h = rw (kept, h) (Later-refl a)
  where
    kept : lookup k (put id c t) ≡ lookup k t
    kept =
        ground
          (arith, lookup-put id k c t, eq_iff id k, fresh, ap (λ x. lookup x t) {x = id} {y = k})

review_approval-Advances :
    (env : Env) (id : String) (to : ApprovalStatus) (reviewer note : String) (m : Memory)
    (k : String) (a : DecommissionApproval) (o : Option DecommissionApproval)
    → lookup id m.approvals ≡ o
    → lookup k m.approvals ≡ some a
    → Advances a (lookup k (Approvals.review_approval env id to reviewer note m).1.approvals)
unfolding Approvals.review_approval
review_approval-Advances env id to reviewer note m k a none e h =
    rw (e, Approvals.review_approval) (rw h (Later-refl a))
review_approval-Advances env id to reviewer note m k a (some b) e h =
    rw (e, Approvals.review_approval)
      (elim (Bool-cases bad_target) [
        | inl p ↦ rw p (rw h (Later-refl a))
        | inr p ↦ rw p (elim (Bool-cases (can_transition_approval b.status to)) [
          | inl q ↦ rw q (Advances-put id k a b _ m.approvals e h (moved q))
          | inr q ↦ rw q (rw h (Later-refl a))
        ])
      ])
  where
    bad_target : Bool
    bad_target =
        not (same_approval_status to ApprovalStatus.approved)
        && not (same_approval_status to ApprovalStatus.rejected)

    moved :
        can_transition_approval b.status to ≡ true
        → LaterApproval b (Approvals.reviewed env to reviewer note b)
    moved q = record {
      path = onward here q;
      asset_id = refl;
      standard = refl;
      method = refl;
      applicant = refl;
      version = refl;
    }

withdraw_approval-Advances :
    (env : Env) (id actor : String) (m : Memory) (k : String) (a : DecommissionApproval)
    (o : Option DecommissionApproval)
    → lookup id m.approvals ≡ o
    → lookup k m.approvals ≡ some a
    → Advances a (lookup k (Approvals.withdraw_approval env id actor m).1.approvals)
unfolding Approvals.withdraw_approval
withdraw_approval-Advances env id actor m k a none e h =
    rw (e, Approvals.withdraw_approval) (rw h (Later-refl a))
withdraw_approval-Advances env id actor m k a (some b) e h =
    rw (e, Approvals.withdraw_approval)
      (elim (Bool-cases (can_transition_approval b.status ApprovalStatus.withdrawn)) [
        | inr q ↦ rw q (rw h (Later-refl a))
        | inl q ↦
            rw q
              (elim (Bool-cases
                (same_approval_status b.status ApprovalStatus.approved && started b m)) [
                  | inl p ↦ rw p (rw h (Later-refl a))
                  | inr p ↦ rw p (Advances-put id k a b _ m.approvals e h (moved q))
                ])
      ])
  where
    moved :
        can_transition_approval b.status ApprovalStatus.withdrawn ≡ true
        → LaterApproval b (record b { status = ApprovalStatus.withdrawn; updated_at = env.now })
    moved q = record {
      path = onward here q;
      asset_id = refl;
      standard = refl;
      method = refl;
      applicant = refl;
      version = refl;
    }

create_approval-Advances :
    (env : Env) (c : DecommissionApproval) (m : Memory) (k : String) (a : DecommissionApproval)
    (o : Option DecommissionApproval)
    → find_active c.asset_id (values m.approvals) ≡ o
    → lookup (or_fresh c.id env.fresh_id) m.approvals ≡ none
    → lookup k m.approvals ≡ some a
    → Advances a (lookup k (Approvals.create_approval env c m).1.approvals)
unfolding Approvals.create_approval
create_approval-Advances env c m k a (some ap) e fresh h =
    elim (Bool-cases (has c.asset_id m.assets)) [
      | inr p ↦ rw p (rw h (Later-refl a))
      | inl p ↦ rw (p, e) (rw h (Later-refl a))
    ]
create_approval-Advances env c m k a none e fresh h = elim (Bool-cases (has c.asset_id m.assets)) [
  | inr p ↦ rw p (rw h (Later-refl a))
  | inl p ↦ rw (p, e) (Advances-new (or_fresh c.id env.fresh_id) k a _ m.approvals fresh h)
]

pub step-LaterApproval :
    (env : Env) (cmd : Command) (m : Memory) (k : String) (a : DecommissionApproval)
    → IsFresh env cmd m
    → lookup k m.approvals ≡ some a
    → Advances a (lookup k (step env cmd m).approvals)
unfolding step
step-LaterApproval env (Command.create_approval c) m k a fresh h =
    create_approval-Advances env c m k a (find_active c.asset_id (values m.approvals)) refl fresh h
step-LaterApproval env (Command.review_approval id to r n) m k a fresh h =
    review_approval-Advances env id to r n m k a (lookup id m.approvals) refl h
step-LaterApproval env (Command.withdraw_approval id actor) m k a fresh h =
    withdraw_approval-Advances env id actor m k a (lookup id m.approvals) refl h
step-LaterApproval env cmd m k a fresh h = rw (approvals_kept, h) (Later-refl a)
  where
    approvals_kept : (step env cmd m).approvals ≡ m.approvals
    approvals_kept = ground arith

pub Advances-trans :
    (a b : DecommissionApproval) (o : Option DecommissionApproval)
    → LaterApproval a b
    → Advances b o
    → Advances a o
Advances-trans a b none l h = h
Advances-trans a b (some c) l h = Later-trans l h

pub Advances-then :
    (a : DecommissionApproval) (o p : Option DecommissionApproval)
    → Advances a o
    → ((b : DecommissionApproval) → o ≡ some b → Advances b p)
    → Advances a p
Advances-then a none p h rest = absurd h
Advances-then a (some b) p h rest = Advances-trans a b p h (rest b refl)

-- Over any calls of the store's methods that submit no request under an identifier in use, a
-- request of the store stays in it, its status moves only as CanTransitionApproval permits, and its
-- asset, erasure standard, disposal method, applicant and version are those that were submitted.
pub run-LaterApproval :
    (calls : List (Env × Command)) (m : Memory) (k : String) (a : DecommissionApproval)
    → AllFresh calls m
    → lookup k m.approvals ≡ some a
    → Advances a (lookup k (run calls m).approvals)
unfolding run
run-LaterApproval [] m k a fresh h = rw h (Later-refl a)
run-LaterApproval ((env, c) ∷ rest) m k a fresh h =
    Advances-then a (lookup k (step env c m).approvals) _ (step-LaterApproval env c m k a fresh.0 h)
      (λ b e. run-LaterApproval rest (step env c m) k b fresh.1 e)
