-- ===== src/Postgres/Assets.antt =====
-- internal/store/pg.go: the methods on assets and disks.
use Prim.Native.String.{◌++◌}
use xiesg0915_work.Prelude.{
  ℕ, String, Bool, not, ◌&&◌, ◌||◌, Option, none, some, List, ◌==◌, lookup, values, select,
  sort_slice, eqb, ltb, length, take, drop, if◌then◌else◌,
}
use xiesg0915_work.Result.{not_found, Exec, pure, raise, require, ◌>>=◌, ◌>>◌}
use xiesg0915_work.Domain.Status.{AssetStatus, DiskStatus, same_asset_status, disk_status_text}
use xiesg0915_work.Domain.Entities.{Asset, Disk, Detail, AuditLog, registered}
use xiesg0915_work.Store.State.{Env, or_fresh, entry}
use xiesg0915_work.Store.Assets.{ListAssetsFilter, newer_asset}
use xiesg0915_work.Store.Disks.{older_disk}
use xiesg0915_work.Postgres.Database.{
  Database, Fault, done, fault, Statement, map_err, raw, execute, Wire, transaction,
}
use xiesg0915_work.Postgres.Statements.{
  insert_asset, update_asset_status, insert_disk, update_disk, insert_audit, find_row,
}

-- QueryRow over the rows that are selected: no row is a fault.
abbrev pub fetch : {A : Type 0} → Option A → Statement A
fetch none db = fault Fault.no_rows
fetch (some a) db = done (a, db)

-- appendAuditTx
abbrev pub append_audit_tx : Env → AuditLog → Exec Database (Unit {0})
append_audit_tx env l = execute raw (insert_audit env l)

-- The asset with its defaults.
abbrev pub registration : Asset → Asset
registration a = record a {
  status =
      if same_asset_status a.status AssetStatus.unset then AssetStatus.in_service else a.status;
  registered_by = if a.registered_by == "" then a.owner else a.registered_by;
}

unfoldable pub create_asset : Wire → Env → Asset → Exec Database (Unit {0})
unfolding transaction insert_asset insert_audit
create_asset wire env a = transaction wire (do
  id ← execute map_err (insert_asset env (registration a))
  append_audit_tx env (
      entry (registration a).registered_by "asset.register" "asset" id
        (registered a.tag a.vendor a.model a.sn)))

unfoldable pub get_asset : Wire → String → Exec Database Asset
unfolding transaction
get_asset wire id db = transaction wire (execute map_err (fetch (lookup id db.assets))) db

unfoldable pub get_asset_by_tag : Wire → String → Exec Database Asset
unfolding transaction find_row
get_asset_by_tag wire tag db =
    transaction wire
      (execute map_err (fetch (find_row (λ (a : Asset). a.tag == tag) (values db.assets)))) db

-- LIMIT and OFFSET, which the query has for a positive limit only.
abbrev pub limited {ℓ} : {A : Type ℓ} → (offset limit : ℕ) → List A → List A
limited offset limit rows = if ltb 0 limit then take limit (drop offset rows) else rows

-- The WHERE clause; `ilike` is the server's comparison of a text with a pattern.
abbrev pub listed : (ilike : String → String → Bool) → ListAssetsFilter → Asset → Bool
listed ilike f a =
    (same_asset_status f.status AssetStatus.unset || same_asset_status a.status f.status)
    && (f.tag == "" || ilike a.tag ("%" ++ f.tag ++ "%"))

unfoldable pub list_assets :
    (ilike : String → String → Bool) → Wire → ListAssetsFilter → Exec Database (List Asset × ℕ)
unfolding transaction sort_slice
list_assets ilike wire f db =
    let rows = select (listed ilike f) (values db.assets) in
    transaction wire (pure (limited f.offset f.limit (sort_slice newer_asset rows), length rows)) db

-- Scanning the row that UPDATE ... RETURNING gives, if it gives one.
abbrev pub returned : {A : Type 0} → Option A → Exec Database A
returned none = raise (map_err Fault.no_rows)
returned (some a) = pure a

unfoldable pub transition_asset :
    Wire → Env → String → AssetStatus → (actor action : String) → Detail → Exec Database Asset
unfolding transaction update_asset_status insert_audit map_err
transition_asset wire env id to actor action detail = transaction wire (do
  row ← execute map_err (update_asset_status env id to)
  a ← returned row
  append_audit_tx env (entry actor action "asset" id detail)
  pure a)

-- The identifier of a disk that comes without one is made by the program.
unfoldable pub create_disk : Wire → Env → Disk → Exec Database (Unit {0})
unfolding transaction insert_disk
create_disk wire env d =
    transaction wire
      (execute map_err (insert_disk env (record d { id = or_fresh d.id env.fresh_id })))

unfoldable pub get_disk : Wire → String → Exec Database Disk
unfolding transaction
get_disk wire id db = transaction wire (execute map_err (fetch (lookup id db.disks))) db

unfoldable pub list_disks : Wire → String → Exec Database (List Disk)
unfolding transaction sort_slice
list_disks wire asset_id db =
    transaction wire
      (pure (
        sort_slice older_disk
          (select (λ d. asset_id == "" || d.asset_id == asset_id) (values db.disks))))
      db

unfoldable pub update_disk_status :
    Wire → Env → String → DiskStatus → String → Detail → Exec Database (Unit {0})
unfolding transaction update_disk insert_audit
update_disk_status wire env id status actor detail = transaction wire (do
  rows ← execute map_err (update_disk id status)
  require (not (eqb rows 0)) (not_found "disk")
  append_audit_tx env (entry actor ("disk.status:" ++ disk_status_text status) "disk" id detail))
