-- ===== src/Postgres/Gives.antt =====
-- What a method gives, from what its statements give.
use xiesg0915_work.Prelude.{
  String, Bool, true, false, ◌≡◌, refl, ap, ◌∙◌, ◌==◌, none, some, [], ◌∷◌, ◌++◌, lookup, put,
}
use xiesg0915_work.Result.{other, Error, Result, ok, err, Exec, pure, require, continue, ◌>>=◌}
use xiesg0915_work.Domain.Status.{AssetStatus}
use xiesg0915_work.Domain.Entities.{Asset, DecommissionApproval, AuditLog, Detail}
use xiesg0915_work.Store.State.{Env, entry, stamped}
use xiesg0915_work.Postgres.Database.{
  Database, Fault, done, fault, Statement, answered, guarded, map_err, execute, Wire, committed,
  transaction,
}
use xiesg0915_work.Postgres.Statements.{
  has_row, insert_audit, update_approval, is_approval_status, check_approval_transition,
  update_asset_status, check_asset_transition, moved_asset, is_asset_status,
}
use xiesg0915_work.Postgres.Assets.{append_audit_tx, returned}
use xiesg0915_work.Postgres.Moves.{guarded-passes}
use xiesg0915_work.Postgres.Approvals.{locked}

pub record Gives {A : Type 0} (m : Exec Database A) (db : Database) (r : Result A × Database)
    : Type 0 where
  pub given : m db ≡ r

pub >>=-Gives :
    {A B : Type 0} {a : A} {db db' : Database} {r : Result B × Database} (m : Exec Database A)
    (f : A → Exec Database B)
    → Gives m db (ok a, db')
    → Gives (f a) db' r
    → Gives (m >>= f) db r
>>=-Gives m f g h = record {
  given = ap (λ (x : Result _ × Database). continue x.0 f x.1) g.given ∙ h.given;
}

-- A step that fails, and so does the method.
pub >>=-Fails :
    {A B : Type 0} {db db' : Database} {x : Error} (m : Exec Database A) (f : A → Exec Database B)
    → Gives m db (err x, db')
    → Gives (m >>= f) db (err x, db')
>>=-Fails m f g = record { given = ap (λ (y : Result _ × Database). continue y.0 f y.1) g.given }

pub pure-Gives : {A : Type 0} (a : A) (db : Database) → Gives (pure a) db (ok a, db)
pure-Gives a db = record { given = refl }

pub execute-Gives :
    {A : Type 0} {a : A} {db' : Database} (to_error : Fault → Error) (s : Statement A)
    (db : Database)
    → s db ≡ done (a, db')
    → Gives (execute to_error s) db (ok a, db')
execute-Gives to_error s db e = record { given = ap (answered to_error db) e }

execute-Fails :
    {A : Type 0} {f : Fault} (to_error : Fault → Error) (s : Statement A) (db : Database)
    → s db ≡ fault f
    → Gives (execute to_error s) db (err (to_error f), db)
execute-Fails to_error s db e = record { given = ap (answered to_error db) e }

pub transaction-Gives :
    {A : Type 0} {a : A} {db db' : Database} (m : Exec Database A)
    → Gives m db (ok a, db')
    → Gives (transaction Wire.up m) db (ok a, db')
unfolding transaction
transaction-Gives {db = db} m g = record { given = ap (committed Wire.up db) g.given }

pub transaction-Fails :
    {A : Type 0} {x : Error} {db db' : Database} (m : Exec Database A)
    → Gives m db (err x, db')
    → Gives (transaction Wire.up m) db (err x, db)
unfolding transaction
transaction-Fails {db = db} m g = record { given = ap (committed Wire.up db) g.given }

pub require-Gives :
    (b : Bool) (x : Error) (db : Database) → b ≡ true → Gives (require b x) db (ok tt, db)
require-Gives b x db e = record { given = rw e refl }

pub require-Fails :
    (b : Bool) (x : Error) (db : Database) → b ≡ false → Gives (require b x) db (err x, db)
require-Fails b x db e = record { given = rw e refl }

-- No audit entry has the identifier.
abbrev pub IsUnused : String → Database → Type 0
IsUnused id db = has_row (λ (e : AuditLog). e.id == id) db.audit ≡ false

pub append_audit_tx-Gives :
    (env : Env) (actor action entity_type entity_id : String) (d : Detail) (db : Database)
    → IsUnused env.log_id db
    → Gives (append_audit_tx env (entry actor action entity_type entity_id d)) db (
      ok tt,
      record db {
        audit = db.audit ++ stamped env (entry actor action entity_type entity_id d) ∷ [];
      },
    )
unfolding insert_audit guarded
append_audit_tx-Gives env actor action entity_type entity_id d db n = record { given = rw n refl }

pub append_audit_tx-Fails :
    (env : Env) (actor action entity_type entity_id : String) (d : Detail) (db : Database)
    → has_row (λ (e : AuditLog). e.id == env.log_id) db.audit ≡ true
    → Gives
        (append_audit_tx env (entry actor action entity_type entity_id d))
        db
        (err (other "server error"), db)
unfolding insert_audit guarded
append_audit_tx-Fails env actor action entity_type entity_id d db n = record { given = rw n refl }

pub update_approval-Gives :
    (id : String) (change : DecommissionApproval → DecommissionApproval) (db : Database)
    (a : DecommissionApproval)
    → lookup id db.approvals ≡ some a
    → is_approval_status (change a).status ≡ true
    → check_approval_transition db a (change a).status ≡ true
    → Gives
        (execute map_err (update_approval id change))
        db
        (ok (change a), record db { approvals = put id (change a) db.approvals })
unfolding update_approval
update_approval-Gives id change db a e i c =
    execute-Gives map_err (update_approval id change) db
      (rw (e, update_approval) (guarded-passes _ _ (i, (c, tt))))

pub locked-Gives :
    (id : String) (db : Database) (a : DecommissionApproval)
    → lookup id db.approvals ≡ some a
    → Gives (locked id) db (ok a, db)
locked-Gives id db a e = record { given = rw e refl }

pub locked-Fails :
    (id : String) (db : Database)
    → lookup id db.approvals ≡ none
    → Gives (locked id) db (err (map_err Fault.no_rows), db)
locked-Fails id db e = record { given = rw e refl }

pub update_asset-Gives :
    (env : Env) (id : String) (to : AssetStatus) (db : Database) (a : Asset)
    → lookup id db.assets ≡ some a
    → is_asset_status to ≡ true
    → check_asset_transition a.status to ≡ true
    → Gives (execute map_err (update_asset_status env id to)) db (
      ok (some (moved_asset env to a)),
      record db { assets = put id (moved_asset env to a) db.assets },
    )
unfolding update_asset_status
update_asset-Gives env id to db a e h c =
    execute-Gives map_err (update_asset_status env id to) db
      (rw (e, update_asset_status) (guarded-passes _ _ (h, (c, tt))))

pub update_asset-Fails :
    (env : Env) (id : String) (to : AssetStatus) (db : Database) (a : Asset)
    → lookup id db.assets ≡ some a
    → is_asset_status to ≡ true
    → check_asset_transition a.status to ≡ false
    → Gives (execute map_err (update_asset_status env id to)) db (err (map_err Fault.raised), db)
unfolding update_asset_status guarded
update_asset-Fails env id to db a e h c =
    execute-Fails map_err (update_asset_status env id to) db
      (rw (e, update_asset_status) (rw (h, c) refl))

pub update_asset-missing :
    (env : Env) (id : String) (to : AssetStatus) (db : Database)
    → lookup id db.assets ≡ none
    → is_asset_status to ≡ true
    → Gives (execute map_err (update_asset_status env id to)) db (ok none, db)
unfolding update_asset_status
update_asset-missing env id to db e h =
    execute-Gives map_err (update_asset_status env id to) db
      (rw (e, update_asset_status) (guarded-passes _ _ (h, tt)))

pub returned-Gives :
    {A B : Type 0} {db : Database} {r : Result B × Database} (f : A → Exec Database B) (a : A)
    → Gives (f a) db r
    → Gives (returned (some a) >>= f) db r
returned-Gives f a g = record { given = g.given }

pub returned-Fails :
    {A B : Type 0} (f : A → Exec Database B) (db : Database)
    → Gives (returned none >>= f) db (err (map_err Fault.no_rows), db)
returned-Fails f db = record { given = refl }
