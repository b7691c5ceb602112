-- ===== src/Store/SingleApproval.antt =====
-- An asset has at most one open decommission request.
use xiesg0915_work.Prelude.{
  String, true, not, ◌&&◌, ◌≡◌, refl, ap, sym, ◌∙◌, subst, eq_iff, none, some, List, [], ◌∷◌,
  Option, inl, inr, Bool-cases, Table, has, lookup, put, lookup-put, values, arith,
}
use xiesg0915_work.Domain.Status.{ApprovalStatus, same_approval_status, can_transition_approval}
use xiesg0915_work.Domain.Entities.{DecommissionApproval, active}
use xiesg0915_work.Store.State.{Memory, Env, or_fresh, new_memory}
use xiesg0915_work.Store.Approvals
use xiesg0915_work.Store.Approvals.{find_active, started}
use xiesg0915_work.Store.Commands.{Command, step, run}

-- No two entries hold open requests for one asset.
abbrev pub IsSingle : Table DecommissionApproval → Type 0
IsSingle t =
    (i j : String) (a b : DecommissionApproval)
    → lookup i t ≡ some a
    → lookup j t ≡ some b
    → a.asset_id ≡ b.asset_id
    → active a ≡ true
    → active b ≡ true
    → i ≡ j

-- Where the loop finds no open request of the asset, the table holds none.
pub find_active-none :
    (asset_id : String) (t : Table DecommissionApproval) (k : String) (a : DecommissionApproval)
    → find_active asset_id (values t) ≡ none
    → lookup k t ≡ some a
    → a.asset_id ≡ asset_id
    → active a ≡ true
    → ⊥
unfolding find_active lookup
find_active-none asset_id [] k a n h e o = cc
find_active-none asset_id ((i, b) ∷ t) k a n h e o =
    ground (arith, eq_iff a.asset_id asset_id, find_active-none asset_id t k a)

-- An entry is new, or replaced by one for the same asset that is open only if the old one was.
abbrev pub Replaces : String → DecommissionApproval → Table DecommissionApproval → Type 0
Replaces id c t =
    (j : String) (b : DecommissionApproval)
    → lookup j t ≡ some b
    → b.asset_id ≡ c.asset_id
    → active b ≡ true
    → active c ≡ true
    → j ≡ id

pub put-IsSingle :
    (id : String) (c : DecommissionApproval) (t : Table DecommissionApproval)
    → Replaces id c t
    → IsSingle t
    → IsSingle (put id c t)
put-IsSingle id c t r s i j a b hi hj e oa ob = ground (
  arith,
  lookup-put id i c t,
  lookup-put id j c t,
  eq_iff id i,
  eq_iff id j,
  s i j a b,
  r i a,
  r j b,
)

-- A request that is open after a permitted change was open before it.
open_before :
    (s t : ApprovalStatus) (a b : DecommissionApproval)
    → can_transition_approval s t ≡ true
    → a.status ≡ s
    → b.status ≡ t
    → active b ≡ true
    → active a ≡ true
unfolding can_transition_approval
open_before s t a b h e f o = ground arith

-- A request that a permitted change replaces leaves the table with single open requests.
pub change-IsSingle :
    (id : String) (a c : DecommissionApproval) (t : Table DecommissionApproval)
    → lookup id t ≡ some a
    → can_transition_approval a.status c.status ≡ true
    → c.asset_id ≡ a.asset_id
    → IsSingle t
    → IsSingle (put id c t)
change-IsSingle id a c t found permitted e s =
    put-IsSingle id c t
      (λ j b hj f ob oc.
        s j id b a hj found (f ∙ e) ob (open_before a.status c.status a c permitted refl refl oc))
      s

review_approval-IsSingle :
    (env : Env) (id : String) (to : ApprovalStatus) (reviewer note : String) (m : Memory)
    (o : Option DecommissionApproval)
    → lookup id m.approvals ≡ o
    → IsSingle m.approvals
    → IsSingle (Approvals.review_approval env id to reviewer note m).1.approvals
unfolding Approvals.review_approval
review_approval-IsSingle env id to reviewer note m none e s = rw (e, Approvals.review_approval) s
review_approval-IsSingle env id to reviewer note m (some a) e s =
    rw (e, Approvals.review_approval)
      (elim (Bool-cases (
        not (same_approval_status to ApprovalStatus.approved)
        && not (same_approval_status to ApprovalStatus.rejected))) [
          | inl p ↦ rw p s
          | inr p ↦ rw p (elim (Bool-cases (can_transition_approval a.status to)) [
            | inl q ↦ rw q (change-IsSingle id a _ m.approvals e q refl s)
            | inr q ↦ rw q s
          ])
        ])

withdraw_approval-IsSingle :
    (env : Env) (id actor : String) (m : Memory) (o : Option DecommissionApproval)
    → lookup id m.approvals ≡ o
    → IsSingle m.approvals
    → IsSingle (Approvals.withdraw_approval env id actor m).1.approvals
unfolding Approvals.withdraw_approval
withdraw_approval-IsSingle env id actor m none e s = rw (e, Approvals.withdraw_approval) s
withdraw_approval-IsSingle env id actor m (some a) e s =
    rw (e, Approvals.withdraw_approval)
      (elim (Bool-cases (can_transition_approval a.status ApprovalStatus.withdrawn)) [
        | inr q ↦ rw q s
        | inl q ↦
            rw q
              (elim (Bool-cases
                (same_approval_status a.status ApprovalStatus.approved && started a m)) [
                  | inl p ↦ rw p s
                  | inr p ↦ rw p (change-IsSingle id a _ m.approvals e q refl s)
                ])
      ])

create_approval-IsSingle :
    (env : Env) (c : DecommissionApproval) (m : Memory) (o : Option DecommissionApproval)
    → find_active c.asset_id (values m.approvals) ≡ o
    → IsSingle m.approvals
    → IsSingle (Approvals.create_approval env c m).1.approvals
unfolding Approvals.create_approval
create_approval-IsSingle env c m (some ap) e s = elim (Bool-cases (has c.asset_id m.assets)) [
  | inr p ↦ rw p s
  | inl p ↦ rw (p, e) s
]
create_approval-IsSingle env c m none e s = elim (Bool-cases (has c.asset_id m.assets)) [
  | inr p ↦ rw p s
  | inl p ↦
      rw (p, e)
        (put-IsSingle (or_fresh c.id env.fresh_id) (Approvals.new_approval env c) m.approvals
          (λ j b hj f ob oc. absurd (find_active-none c.asset_id m.approvals j b e hj f ob)) s)
]

step-IsSingle :
    (env : Env) (cmd : Command) (m : Memory)
    → IsSingle m.approvals
    → IsSingle (step env cmd m).approvals
unfolding step
step-IsSingle env (Command.create_approval c) m s =
    create_approval-IsSingle env c m (find_active c.asset_id (values m.approvals)) refl s
step-IsSingle env (Command.review_approval id to r n) m s =
    review_approval-IsSingle env id to r n m (lookup id m.approvals) refl s
step-IsSingle env (Command.withdraw_approval id actor) m s =
    withdraw_approval-IsSingle env id actor m (lookup id m.approvals) refl s
step-IsSingle env cmd m s = subst IsSingle (sym approvals_kept) s
  where
    approvals_kept : (step env cmd m).approvals ≡ m.approvals
    approvals_kept = ground arith

run_from-IsSingle :
    (calls : List (Env × Command)) (m : Memory)
    → IsSingle m.approvals
    → IsSingle (run calls m).approvals
unfolding run
run_from-IsSingle [] m s = s
run_from-IsSingle ((env, c) ∷ rest) m s =
    run_from-IsSingle rest (step env c m) (step-IsSingle env c m s)

-- After any calls of the store's methods on a new store, two open requests for one asset are one
-- and the same entry.
pub run-IsSingle : (calls : List (Env × Command)) → IsSingle (run calls new_memory).approvals
unfolding new_memory lookup
run-IsSingle calls = run_from-IsSingle calls new_memory (λ i j a b hi hj e oa ob. cc)
