-- ===== src/Postgres/Documents.antt =====
-- internal/store/pg.go: the methods on certificates, disposal confirmations and the audit log. The
-- column `passes` is written by json.Marshal and read by json.Unmarshal, which give the list back.
use xiesg0915_work.Prelude.{ℕ, String, ◌||◌, List, ◌==◌, lookup, values, select, sort_slice, length}
use xiesg0915_work.Result.{Exec, pure, ◌>>◌}
use xiesg0915_work.Domain.Status.{AssetStatus}
use xiesg0915_work.Domain.Entities.{
  Certificate, DisposalConfirmation, AuditLog, certificate_issued, disposal_signed,
}
use xiesg0915_work.Store.State.{Env, entry}
use xiesg0915_work.Store.Documents.{AuditFilter, audit_matches, newer_certificate, newer_entry}
use xiesg0915_work.Postgres.Database.{Database, map_err, execute, Wire, transaction}
use xiesg0915_work.Postgres.Statements.{
  insert_certificate, insert_disposal, update_asset_status, insert_audit,
}
use xiesg0915_work.Postgres.Assets.{fetch, limited, append_audit_tx}

unfoldable pub save_certificate : Wire → Env → Certificate → Exec Database (Unit {0})
unfolding transaction insert_certificate insert_audit
save_certificate wire env c = transaction wire (do
  execute map_err (insert_certificate env c)
  append_audit_tx env (
      entry c.operator "certificate.issue" "certificate" c.cert_no
        (certificate_issued c.disk_id c.asset_id c.report_key)))

unfoldable pub get_certificate : Wire → String → Exec Database Certificate
unfolding transaction
get_certificate wire cert_no db =
    transaction wire (execute map_err (fetch (lookup cert_no db.certs))) db

unfoldable pub list_certificates : Wire → String → Exec Database (List Certificate)
unfolding transaction sort_slice
list_certificates wire asset_id db =
    transaction wire
      (pure (
        sort_slice newer_certificate
          (select (λ c. asset_id == "" || c.asset_id == asset_id) (values db.certs))))
      db

unfoldable pub save_disposal : Wire → Env → DisposalConfirmation → Exec Database (Unit {0})
unfolding transaction insert_disposal update_asset_status insert_audit
save_disposal wire env d = transaction wire (do
  execute map_err (insert_disposal env d)
  execute map_err (update_asset_status env d.asset_id AssetStatus.disposed)
  append_audit_tx env (
      entry d.operator "disposal.sign" "asset" d.asset_id
        (disposal_signed d.method d.receiver_org d.receiver)))

unfoldable pub get_disposal : Wire → String → Exec Database DisposalConfirmation
unfolding transaction
get_disposal wire asset_id db =
    transaction wire (execute map_err (fetch (lookup asset_id db.disposals))) db

unfoldable pub append_audit : Wire → Env → AuditLog → Exec Database (Unit {0})
unfolding transaction insert_audit
append_audit wire env l = transaction wire (execute map_err (insert_audit env l))

unfoldable pub list_audit : Wire → AuditFilter → Exec Database (List AuditLog × ℕ)
unfolding transaction sort_slice
list_audit wire f db =
    let rows = select (audit_matches f) db.audit in
    transaction wire (pure (limited f.offset f.limit (sort_slice newer_entry rows), length rows)) db
