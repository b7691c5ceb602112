-- ===== src/Postgres/Agreement.antt =====
-- internal/store/memory.go and internal/store/pg.go: where the two stores do the same.
use xiesg0915_work.Prelude.{String, true, ◌≡◌, refl, sym, ◌∙◌, some, lookup}
use xiesg0915_work.Result.{Result, ok, err, Exec}
use xiesg0915_work.Domain.Status.{AssetStatus, ApprovalStatus}
use xiesg0915_work.Domain.Entities.{DecommissionApproval, Detail}
use xiesg0915_work.Store.State.{Memory, Env}
use xiesg0915_work.Store.Assets as Memory_assets
use xiesg0915_work.Store.Approvals as Memory_approvals
use xiesg0915_work.Store.Approvals.{reviewed, started}
use xiesg0915_work.Postgres.Database.{Database, Wire}
use xiesg0915_work.Postgres.Statements.{is_asset_status}
use xiesg0915_work.Postgres.Assets
use xiesg0915_work.Postgres.Approvals
use xiesg0915_work.Postgres.Approvals.{locked, not_started, withdrawn}
use xiesg0915_work.Postgres.Gives.{IsUnused}
use xiesg0915_work.Postgres.Commands.{dropped}
use xiesg0915_work.Postgres.Holding.{Queue, holding, kind, Agree}
use xiesg0915_work.Postgres.Transitions.{transition_asset-Agree}
use xiesg0915_work.Postgres.Reviews.{IsReview, review_approval-Agree}
use xiesg0915_work.Postgres.Withdrawals.{NamesAsset, withdraw_approval-Agree}

-- The calls that change the status of an asset or of a request.
pub data StatusChange : Type 0 where
  transition : (id : String) → AssetStatus → (actor action : String) → Detail → StatusChange
  review : (id : String) → ApprovalStatus → (reviewer note : String) → StatusChange
  withdraw : (id actor : String) → StatusChange

-- The status is one that the callers give, and the request's asset is stored.
abbrev pub IsProper : Memory → StatusChange → Type 0
IsProper m (StatusChange.transition id to actor action d) = is_asset_status to ≡ true
IsProper m (StatusChange.review id to reviewer note) = IsReview to
IsProper m (StatusChange.withdraw id actor) =
    (a : DecommissionApproval) → lookup id m.approvals ≡ some a → NamesAsset a m

abbrev pub without_result : {A S : Type 0} → Result A × S → Result (Unit {0}) × S
without_result (r, s) = (dropped r, s)

unfoldable pub in_memory : Env → StatusChange → Exec Memory (Unit {0})
unfolding Memory_assets.transition_asset Memory_approvals.review_approval
    Memory_approvals.withdraw_approval
in_memory env (StatusChange.transition id to actor action d) m =
    without_result (Memory_assets.transition_asset env id to actor action d m)
in_memory env (StatusChange.review id to reviewer note) m =
    without_result (Memory_approvals.review_approval env id to reviewer note m)
in_memory env (StatusChange.withdraw id actor) m =
    without_result (Memory_approvals.withdraw_approval env id actor m)

unfoldable pub in_postgres : Env → StatusChange → Exec Database (Unit {0})
unfolding Assets.transition_asset Approvals.review_approval Approvals.withdraw_approval
in_postgres env (StatusChange.transition id to actor action d) db =
    without_result (Assets.transition_asset Wire.up env id to actor action d db)
in_postgres env (StatusChange.review id to reviewer note) db =
    without_result (Approvals.review_approval Wire.up env id to reviewer note db)
in_postgres env (StatusChange.withdraw id actor) db =
    without_result (Approvals.withdraw_approval Wire.up env id actor db)

dropped-kind : {A : Type 0} (r : Result A) → kind (dropped r) ≡ kind r
dropped-kind (ok a) = refl
dropped-kind (err e) = refl

Agree-dropped :
    {A B : Type 0} (q : Queue) (x : Result A × Memory) (y : Result B × Database)
    → Agree q x y
    → Agree q (without_result x) (without_result y)
Agree-dropped q x y h = (dropped-kind x.0 ∙ h.0 ∙ sym (dropped-kind y.0), h.1)

-- A change of the status of an asset or of a request, with a proper status and of a request whose
-- asset is stored, ends in the same way in both stores, done, missing or refused, and behind it the
-- database holds again what the memory holds, the audit log included.
pub in_postgres-Agree :
    (q : Queue) (env : Env) (c : StatusChange) (m : Memory)
    → IsProper m c
    → IsUnused env.log_id (holding q m)
    → Agree q (in_memory env c m) (in_postgres env c (holding q m))
unfolding in_memory in_postgres
in_postgres-Agree q env (StatusChange.transition id to actor action d) m h n =
    Agree-dropped q (Memory_assets.transition_asset env id to actor action d m) _
      (transition_asset-Agree q env id to actor action d m (lookup id m.assets) refl h n)
in_postgres-Agree q env (StatusChange.review id to reviewer note) m h n =
    Agree-dropped q (Memory_approvals.review_approval env id to reviewer note m) _
      (review_approval-Agree q env id to reviewer note m (lookup id m.approvals) refl h n)
in_postgres-Agree q env (StatusChange.withdraw id actor) m h n =
    Agree-dropped q (Memory_approvals.withdraw_approval env id actor m) _
      (withdraw_approval-Agree q env id actor m (lookup id m.approvals) refl h n)
