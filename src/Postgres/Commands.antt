-- ===== src/Postgres/Commands.antt =====
-- internal/store/store.go, the interface Store, over internal/store/pg.go: its methods that change
-- the database, as a step on it. Each method is one transaction, and the transactions of any
-- number of programs take effect one after another.
use xiesg0915_work.Prelude.{List, [], ◌∷◌}
use xiesg0915_work.Result.{Exec, Result, ok, err}
use xiesg0915_work.Store.State.{Env}
use xiesg0915_work.Store.Commands.{Command}
use xiesg0915_work.Postgres.Database.{Database, Wire}
use xiesg0915_work.Postgres.Assets
use xiesg0915_work.Postgres.Jobs
use xiesg0915_work.Postgres.Documents
use xiesg0915_work.Postgres.Approvals

abbrev pub dropped : {A : Type 0} → Result A → Result (Unit {0})
dropped (ok a) = ok tt
dropped (err e) = err e

-- Whether a method returned an error, and which; its result is dropped.
abbrev pub outcome : {A : Type 0} → Exec Database A → Exec Database (Unit {0})
outcome m db = (dropped (m db).0, (m db).1)

-- One call of a method.
unfoldable pub perform : Wire → Env → Command → Exec Database (Unit {0})
unfolding Assets.create_asset Assets.transition_asset Assets.create_disk Assets.update_disk_status
    Jobs.create_job Jobs.acquire_next_job Jobs.mark_job_running Jobs.save_progress Jobs.complete_job
    Jobs.record_run Documents.save_certificate Documents.save_disposal Documents.append_audit
    Approvals.create_approval Approvals.review_approval Approvals.withdraw_approval
perform w env (Command.create_asset a) = outcome (Assets.create_asset w env a)
perform w env (Command.transition_asset id to actor action d) =
    outcome (Assets.transition_asset w env id to actor action d)
perform w env (Command.create_disk d) = outcome (Assets.create_disk w env d)
perform w env (Command.update_disk_status id s actor d) =
    outcome (Assets.update_disk_status w env id s actor d)
perform w env (Command.create_job j) = outcome (Jobs.create_job w env j)
perform w env (Command.acquire_next_job worker s) = outcome (Jobs.acquire_next_job w env worker s)
perform w env (Command.mark_job_running id n) = outcome (Jobs.mark_job_running w env id n)
perform w env (Command.save_progress id p o t s) = outcome (Jobs.save_progress w env id p o t s)
perform w env (Command.complete_job id s e r) = outcome (Jobs.complete_job w env id s e r)
perform w env (Command.record_run r) = outcome (Jobs.record_run w env r)
perform w env (Command.save_certificate c) = outcome (Documents.save_certificate w env c)
perform w env (Command.save_disposal d) = outcome (Documents.save_disposal w env d)
perform w env (Command.append_audit l) = outcome (Documents.append_audit w env l)
perform w env (Command.create_approval a) = outcome (Approvals.create_approval w env a)
perform w env (Command.review_approval id to r n) =
    outcome (Approvals.review_approval w env id to r n)
perform w env (Command.withdraw_approval id a) = outcome (Approvals.withdraw_approval w env id a)

-- A call, with what the connection, the clock and the random source do during it.
pub record Call : Type 0 where
  pub wire : Wire
  pub env : Env
  pub command : Command

unfoldable pub apply : Call → Database → Database
unfolding perform
apply c db = (perform c.wire c.env c.command db).1

-- Any calls one after another, by any callers.
unfoldable pub replay : List Call → Database → Database
unfolding apply
replay [] db = db
replay (c ∷ cs) db = replay cs (apply c db)
