-- ===== src/Store/Documents.antt =====
-- internal/store/memory.go: certificates, disposal confirmations and the audit log.
use xiesg0915_work.Prelude.{
  ℕ, String, Bool, none, some, List, ◌==◌, ◌&&◌, ◌||◌, lookup, put, has, values, select, sort_slice,
  ltb, length, if◌then◌else◌,
}
use xiesg0915_work.Result.{not_found, conflict, ok, err, Exec}
use xiesg0915_work.Domain.Status.{AssetStatus, can_transition_asset}
use xiesg0915_work.Domain.Entities.{
  Certificate, DisposalConfirmation, AuditLog, certificate_issued, disposal_signed,
}
use xiesg0915_work.Store.State.{Memory, Env, or_fresh, entry, append_audit_locked, page}

unfoldable pub save_certificate : Env → Certificate → Exec Memory (Unit {0})
save_certificate env c m =
    if has c.cert_no m.certs
    then (err (conflict "certificate already exists and cannot be overwritten"), m)
    else (
      ok tt,
      append_audit_locked env
          (entry c.operator "certificate.issue" "certificate" c.cert_no
            (certificate_issued c.disk_id c.asset_id c.report_key))
          (record m { certs = put c.cert_no (record c { created_at = env.now }) m.certs }),
    )

unfoldable pub get_certificate : String → Exec Memory Certificate
get_certificate cert_no m = elim (lookup cert_no m.certs) [
  | none ↦ (err (not_found "certificate"), m)
  | some c ↦ (ok c, m)
]

abbrev pub newer_certificate : Certificate → Certificate → Bool
newer_certificate a b = ltb b.created_at a.created_at

unfoldable pub list_certificates : String → Exec Memory (List Certificate)
unfolding sort_slice
list_certificates asset_id m = (
  ok (
      sort_slice newer_certificate
        (select (λ c. asset_id == "" || c.asset_id == asset_id) (values m.certs))),
  m,
)

-- The confirmation as SaveDisposal stores it.
abbrev pub signed : Env → DisposalConfirmation → DisposalConfirmation
signed env d = record d { id = or_fresh d.id env.fresh_id; signed_at = env.now }

unfoldable pub save_disposal : Env → DisposalConfirmation → Exec Memory (Unit {0})
save_disposal env d m =
    if has d.asset_id m.disposals
    then (err (conflict "disposal confirmation is already signed and cannot be overwritten"), m)
    else elim (lookup d.asset_id m.assets) [
      | none ↦ (err (not_found "asset"), m)
      | some a ↦
          if can_transition_asset a.status AssetStatus.disposed
          then (
            ok tt,
            append_audit_locked env
                (entry d.operator "disposal.sign" "asset" d.asset_id
                  (disposal_signed d.method d.receiver_org d.receiver))
                (record m {
                  disposals = put d.asset_id (signed env d) m.disposals;
                  assets =
                      put d.asset_id
                        (record a { status = AssetStatus.disposed; updated_at = env.now }) m.assets;
                }),
          )
          else (err (conflict "illegal asset transition"), m)
    ]

unfoldable pub get_disposal : String → Exec Memory DisposalConfirmation
get_disposal asset_id m = elim (lookup asset_id m.disposals) [
  | none ↦ (err (not_found "disposal"), m)
  | some d ↦ (ok d, m)
]

unfoldable pub append_audit : Env → AuditLog → Exec Memory (Unit {0})
append_audit env l m = (ok tt, append_audit_locked env l m)

pub record AuditFilter : Type 0 where
  pub entity_type : String
  pub entity_id : String
  pub actor : String
  pub limit : ℕ
  pub offset : ℕ

abbrev pub audit_matches : AuditFilter → AuditLog → Bool
audit_matches f l =
    (f.entity_type == "" || l.entity_type == f.entity_type)
    && (f.entity_id == "" || l.entity_id == f.entity_id)
    && (f.actor == "" || l.actor == f.actor)

abbrev pub newer_entry : AuditLog → AuditLog → Bool
newer_entry a b = ltb b.time a.time

unfoldable pub list_audit : AuditFilter → Exec Memory (List AuditLog × ℕ)
unfolding sort_slice page
list_audit f m =
    let out = sort_slice newer_entry (select (audit_matches f) m.audit) in
    (ok (page f.offset f.limit out, length out), m)
