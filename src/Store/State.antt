-- ===== src/Store/State.antt =====
-- internal/store/memory.go: the type Memory, NewMemory, and what every method shares. The mutex is
-- held for a whole method, so a method is one step on the state.
use xiesg0915_work.Prelude.{
  ℕ, String, List, [], ◌∷◌, ◌++◌, ◌==◌, ◌&&◌, Table, eqb, ltb, length, take, drop, if◌then◌else◌,
}
use xiesg0915_work.Domain.Entities.{
  Time, Asset, Disk, ErasureJob, Checkpoint, ErasureRun, Certificate, DisposalConfirmation,
  DecommissionApproval, AuditLog, Detail,
}

pub record Memory : Type 0 where
  pub assets : Table Asset
  pub tag_index : Table String
  pub disks : Table Disk
  pub jobs : Table ErasureJob
  pub checkpoints : Table Checkpoint
  pub runs : Table (List ErasureRun)
  pub certs : Table Certificate
  pub disposals : Table DisposalConfirmation
  pub approvals : Table DecommissionApproval
  pub audit : List AuditLog

unfoldable pub new_memory : Memory
new_memory = record {
  assets = [];
  tag_index = [];
  disks = [];
  jobs = [];
  checkpoints = [];
  runs = [];
  certs = [];
  disposals = [];
  approvals = [];
  audit = [];
}

-- What one method reads of the world: the clock and a random identifier for the entity, and the
-- same for the audit entry that it writes.
pub record Env : Type 0 where
  pub now : Time
  pub fresh_id : String
  pub log_now : Time
  pub log_id : String

-- `if id == "" { id = domain.ID() }`
abbrev pub or_fresh : String → String → String
or_fresh id fresh = if id == "" then fresh else id

-- An audit entry as the methods write it: ID, Time and RequestID are left zero.
abbrev pub entry : (actor action entity_type entity_id : String) → Detail → AuditLog
entry actor action entity_type entity_id detail = record {
  id = "";
  time = 0;
  actor = actor;
  action = action;
  entity_type = entity_type;
  entity_id = entity_id;
  detail = detail;
  request_id = "";
}

-- The entry as it is stored.
abbrev pub stamped : Env → AuditLog → AuditLog
stamped env l = record l {
  id = or_fresh l.id env.log_id;
  time = if eqb l.time 0 then env.log_now else l.time;
}

-- appendAuditLocked
abbrev pub append_audit_locked : Env → AuditLog → Memory → Memory
append_audit_locked env l m = record m { audit = m.audit ++ stamped env l ∷ [] }

-- `out[offset:]` and `out[:limit]` under their tests.
unfoldable pub page {ℓ} : {A : Type ℓ} → (offset limit : ℕ) → List A → List A
page offset limit out =
    let tail = if ltb 0 offset && ltb offset (length out) then drop offset out else out in
    if ltb 0 limit && ltb limit (length tail) then take limit tail else tail
