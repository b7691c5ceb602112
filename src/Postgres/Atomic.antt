-- ===== src/Postgres/Atomic.antt =====
-- internal/store/pg.go: a method that returns an error leaves no part of its work behind.
use xiesg0915_work.Prelude.{Bool, true, false, ◌≡◌, ◌≢◌, refl}
use xiesg0915_work.Result.{Error, Result, ok, err, Exec, require, ◌>>◌}
use xiesg0915_work.Store.State.{Env}
use xiesg0915_work.Store.Commands.{Command}
use xiesg0915_work.Postgres.Database.{Database, Wire, committed, transaction}
use xiesg0915_work.Postgres.Commands.{perform, outcome, dropped}

pub record Atomic {A : Type 0} (m : Exec Database A) : Type 0 where
  pub undone : (db : Database) (e : Error) → (m db).0 ≡ err e → (m db).1 ≡ db

committed-undone :
    {A : Type 0} (w : Wire) (db db' : Database) (r : Result A) (e : Error)
    → w ≢ Wire.answer_lost
    → (committed w db (r, db')).0 ≡ err e
    → (committed w db (r, db')).1 ≡ db
committed-undone Wire.down db db' r e n h = refl
committed-undone Wire.up db db' (ok a) e n h = cc
committed-undone Wire.up db db' (err f) e n h = refl
committed-undone Wire.answer_lost db db' r e n h = absurd (n refl)

transaction-Atomic :
    {A : Type 0} (w : Wire) (body : Exec Database A)
    → w ≢ Wire.answer_lost
    → Atomic (transaction w body)
unfolding transaction
transaction-Atomic w body n = record {
  undone = λ db e h. committed-undone w db (body db).1 (body db).0 e n h;
}

dropped-err :
    {A : Type 0} (r : Result A) (e : Error) → dropped r ≡ err e → (f : Error) × (r ≡ err f)
dropped-err (ok a) e h = cc
dropped-err (err f) e h = (f, refl)

outcome-Atomic : {A : Type 0} (m : Exec Database A) → Atomic m → Atomic (outcome m)
outcome-Atomic m a = record {
  undone = λ db e h. (let f = dropped-err (m db).0 e h in a.undone db f.0 f.1);
}

required-Atomic :
    {A : Type 0} (b : Bool) (e : Error) (m : Exec Database A) → Atomic m → Atomic (require b e >> m)
required-Atomic true e m a = record { undone = λ db f h. a.undone db f h }
required-Atomic false e m a = record { undone = λ db f h. refl }

atomic : (w : Wire) (env : Env) (c : Command) → w ≢ Wire.answer_lost → Atomic (perform w env c)
unfolding perform
atomic w env (Command.create_asset a) n = outcome-Atomic _ (transaction-Atomic w _ n)
atomic w env (Command.transition_asset id to actor action d) n =
    outcome-Atomic _ (transaction-Atomic w _ n)
atomic w env (Command.create_disk d) n = outcome-Atomic _ (transaction-Atomic w _ n)
atomic w env (Command.update_disk_status id t actor d) n =
    outcome-Atomic _ (transaction-Atomic w _ n)
atomic w env (Command.create_job j) n = outcome-Atomic _ (transaction-Atomic w _ n)
atomic w env (Command.acquire_next_job worker s) n = outcome-Atomic _ (transaction-Atomic w _ n)
atomic w env (Command.mark_job_running id s) n = outcome-Atomic _ (transaction-Atomic w _ n)
atomic w env (Command.save_progress id p o t st) n = outcome-Atomic _ (transaction-Atomic w _ n)
atomic w env (Command.complete_job id st msg r) n = outcome-Atomic _ (transaction-Atomic w _ n)
atomic w env (Command.record_run r) n = outcome-Atomic _ (transaction-Atomic w _ n)
atomic w env (Command.save_certificate c) n = outcome-Atomic _ (transaction-Atomic w _ n)
atomic w env (Command.save_disposal d) n = outcome-Atomic _ (transaction-Atomic w _ n)
atomic w env (Command.append_audit l) n = outcome-Atomic _ (transaction-Atomic w _ n)
atomic w env (Command.create_approval a) n = outcome-Atomic _ (transaction-Atomic w _ n)
atomic w env (Command.review_approval id to r note) n =
    outcome-Atomic _ (required-Atomic _ _ _ (transaction-Atomic w _ n))
atomic w env (Command.withdraw_approval id actor) n = outcome-Atomic _ (transaction-Atomic w _ n)

-- Every method that changes the database, whatever it is asked: where it returns an error and no
-- answer to a commit was lost, the database is as it was before the call.
pub perform-Atomic :
    (w : Wire) (env : Env) (c : Command) (db : Database) (e : Error)
    → w ≢ Wire.answer_lost
    → (perform w env c db).0 ≡ err e
    → (perform w env c db).1 ≡ db
perform-Atomic w env c db e n h = (atomic w env c n).undone db e h
