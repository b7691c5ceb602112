-- ===== src/Store/Commands.antt =====
-- internal/store/store.go, the interface Store: its methods that change the state, as one type of
-- commands with one step function over the methods of memory.go.
use xiesg0915_work.Prelude.{ℕ, String, List, [], ◌∷◌}
use xiesg0915_work.Domain.Status.{AssetStatus, DiskStatus, JobStatus, ApprovalStatus}
use xiesg0915_work.Domain.Entities.{
  Asset, Disk, ErasureJob, ErasureRun, Certificate, DisposalConfirmation, DecommissionApproval,
  AuditLog, Detail,
}
use xiesg0915_work.Store.State.{Memory, Env}
use xiesg0915_work.Store.Assets
use xiesg0915_work.Store.Disks
use xiesg0915_work.Store.Jobs
use xiesg0915_work.Store.Acquire
use xiesg0915_work.Store.Documents
use xiesg0915_work.Store.Approvals

pub data Command : Type 0 where
  create_asset : Asset → Command
  transition_asset : (id : String) → AssetStatus → (actor action : String) → Detail → Command
  create_disk : Disk → Command
  update_disk_status : (id : String) → DiskStatus → (actor : String) → Detail → Command
  create_job : ErasureJob → Command
  acquire_next_job : (worker : String) (stale_after_sec : ℕ) → Command
  mark_job_running : (job_id : String) (attempt : ℕ) → Command
  save_progress : (job_id : String) (pass offset total : ℕ) → JobStatus → Command
  complete_job : (job_id : String) → JobStatus → (message : String) → ErasureRun → Command
  record_run : ErasureRun → Command
  save_certificate : Certificate → Command
  save_disposal : DisposalConfirmation → Command
  append_audit : AuditLog → Command
  create_approval : DecommissionApproval → Command
  review_approval : (id : String) → ApprovalStatus → (reviewer note : String) → Command
  withdraw_approval : (id actor : String) → Command

-- One call of a method: the state that it leaves, also when it returns an error.
unfoldable pub step : Env → Command → Memory → Memory
unfolding Assets.create_asset Assets.transition_asset Disks.create_disk Disks.update_disk_status
    Jobs.create_job Acquire.acquire_next_job Jobs.mark_job_running Jobs.save_progress
    Jobs.complete_job Jobs.record_run Documents.save_certificate Documents.save_disposal
    Documents.append_audit Approvals.create_approval Approvals.review_approval
    Approvals.withdraw_approval
step env (Command.create_asset a) m = (Assets.create_asset env a m).1
step env (Command.transition_asset id to actor action d) m =
    (Assets.transition_asset env id to actor action d m).1
step env (Command.create_disk d) m = (Disks.create_disk env d m).1
step env (Command.update_disk_status id s actor d) m =
    (Disks.update_disk_status env id s actor d m).1
step env (Command.create_job j) m = (Jobs.create_job env j m).1
step env (Command.acquire_next_job w s) m = (Acquire.acquire_next_job env w s m).1
step env (Command.mark_job_running id n) m = (Jobs.mark_job_running env id n m).1
step env (Command.save_progress id p o t s) m = (Jobs.save_progress env id p o t s m).1
step env (Command.complete_job id s e r) m = (Jobs.complete_job env id s e r m).1
step env (Command.record_run r) m = (Jobs.record_run env r m).1
step env (Command.save_certificate c) m = (Documents.save_certificate env c m).1
step env (Command.save_disposal d) m = (Documents.save_disposal env d m).1
step env (Command.append_audit l) m = (Documents.append_audit env l m).1
step env (Command.create_approval a) m = (Approvals.create_approval env a m).1
step env (Command.review_approval id to r n) m = (Approvals.review_approval env id to r n m).1
step env (Command.withdraw_approval id a) m = (Approvals.withdraw_approval env id a m).1

-- Any calls one after another, by any callers.
unfoldable pub run : List (Env × Command) → Memory → Memory
unfolding step
run [] m = m
run ((env, c) ∷ rest) m = run rest (step env c m)
