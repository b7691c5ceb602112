-- ===== src/Postgres/Sound.antt =====
-- migrations/*.sql: the foreign keys and the unique index on open requests, over any calls of the
-- methods of internal/store/pg.go.
use xiesg0915_work.Prelude.{List, [], ◌∷◌}
use xiesg0915_work.Postgres.Database.{Database, new_database}
use xiesg0915_work.Postgres.Commands.{Call, apply, replay}
use xiesg0915_work.Postgres.Obeyed.{Obeyed}
use xiesg0915_work.Postgres.Methods.{perform-Moves}
use xiesg0915_work.Postgres.Growing.{reviewed-IsSameRequest, withdrawn-IsSameRequest}
use xiesg0915_work.Postgres.Integrity.{IsSound, new_database-IsSound}
use xiesg0915_work.Postgres.Keeping.{
  Kept, claim_job-Kept, insert_approval-Kept, insert_asset-Kept, insert_audit-Kept,
  insert_certificate-Kept, insert_disk-Kept, insert_disposal-Kept, insert_job-Kept, insert_run-Kept,
  kept, update_approval-Kept, update_asset-Kept, update_disk-Kept, update_job-Kept,
  upsert_checkpoint-Kept,
}

obeyed : Obeyed Kept
obeyed = record {
  preorder = kept;
  insert_asset = insert_asset-Kept;
  update_asset = update_asset-Kept;
  insert_disk = insert_disk-Kept;
  update_disk = update_disk-Kept;
  insert_job = insert_job-Kept;
  claim_job = claim_job-Kept;
  update_job = update_job-Kept;
  upsert_checkpoint = upsert_checkpoint-Kept;
  insert_run = insert_run-Kept;
  insert_certificate = insert_certificate-Kept;
  insert_disposal = insert_disposal-Kept;
  insert_approval = insert_approval-Kept;
  review = λ env id to reviewer note db.
      update_approval-Kept id _ db (reviewed-IsSameRequest env to reviewer note);
  withdraw = λ env id db. update_approval-Kept id _ db (withdrawn-IsSameRequest env);
  insert_audit = insert_audit-Kept;
}

apply-IsSound : (c : Call) (db : Database) → IsSound db → IsSound (apply c db)
unfolding apply
apply-IsSound c db s = (perform-Moves obeyed c.wire c.env c.command).leaves db s

replay_from-IsSound : (calls : List Call) (db : Database) → IsSound db → IsSound (replay calls db)
unfolding replay
replay_from-IsSound [] db s = s
replay_from-IsSound (c ∷ cs) db s = replay_from-IsSound cs (apply c db) (apply-IsSound c db s)

-- After any calls of the methods on a new database, whatever becomes of their connections: each
-- disk, request and disposal names an asset that is stored, each job a disk, each checkpoint and run
-- a job, each certificate an asset, a disk and a job, and an asset has at most one open request.
pub replay-IsSound : (calls : List Call) → IsSound (replay calls new_database)
replay-IsSound calls = replay_from-IsSound calls new_database new_database-IsSound
