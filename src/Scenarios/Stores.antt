-- ===== src/Scenarios/Stores.antt =====
-- The store of internal/store/memory.go over some calls.
use xiesg0915_work.Prelude.{
  String, ◌≡◌, ◌≢◌, arith, refl, inr, List, [], ◌∷◌, All, lookup, put, values,
}
use xiesg0915_work.Domain.Status.{AssetStatus, DiskStatus, JobStatus, ApprovalStatus}
use xiesg0915_work.Domain.Entities.{ErasureJob, plain}
use xiesg0915_work.Store.State.{Memory, Env, new_memory}
use xiesg0915_work.Store.Acquire.{
  Claim, acquire_next_job, pick_job, takes, is_orphan, preferred, heartbeat, claimed,
}
use xiesg0915_work.Store.Commands.{step, Command, run}
use xiesg0915_work.Store.AppendOnly.{Keeps, run-Keeps}
use xiesg0915_work.Store.AssetLife
use xiesg0915_work.Store.AssetLife.{run-LaterAsset}
use xiesg0915_work.Store.ApprovalLife
use xiesg0915_work.Store.ApprovalLife.{run-LaterApproval}
use xiesg0915_work.Store.SingleApproval.{IsSingle, run-IsSingle}
use xiesg0915_work.Store.Keyed.{IsKeyed}
use xiesg0915_work.Store.Claims.{
  IsClaimable, caller, IsClaimOf, acquire_next_job-IsClaimOf, acquire_next_job-idle,
}
use xiesg0915_work.Worker.Reclaims.{acquire_next_job-once}
use xiesg0915_work.Store.Jobs
use xiesg0915_work.Scenarios.Scenes.{env, soon, late, server, drive_of, request, job_in, store}

-- Registration, a request that is approved, a second request that is refused, and a disk's pull.
abbrev calls : List (Env × Command)
calls =
    (env, Command.create_asset (server AssetStatus.pending))
    ∷ (env, Command.create_approval (request ApprovalStatus.pending))
    ∷ (late, Command.create_approval (record (request ApprovalStatus.pending) { id = "p2" }))
    ∷ (env, Command.review_approval "p1" ApprovalStatus.approved "bob" "")
    ∷ (env, Command.create_disk (drive_of DiskStatus.pulled))
    ∷ (env, Command.create_job (job_in JobStatus.pending ""))
    ∷ (
      env,
      Command.transition_asset "a1" AssetStatus.disk_pulled "carol" "asset.disk_pull" (plain ""),
    )
    ∷ (env, Command.acquire_next_job "w1" 60)
    ∷ []

run-Keeps_example : Keeps new_memory (run calls new_memory)
run-Keeps_example = run-Keeps calls new_memory

run-IsSingle_example : IsSingle (run calls new_memory).approvals
run-IsSingle_example = run-IsSingle calls

-- The calls of a worker and of the security review at a store with an asset, and a disposal.
abbrev later_calls : List (Env × Command)
later_calls =
    (
      env,
      Command.transition_asset "a1" AssetStatus.disk_pulled "carol" "asset.disk_pull" (plain ""),
    )
    ∷ (env, Command.transition_asset "a1" AssetStatus.pending "carol" "back" (plain ""))
    ∷ (env, Command.review_approval "p1" ApprovalStatus.approved "bob" "")
    ∷ (env, Command.withdraw_approval "p1" "alice")
    ∷ (env, Command.acquire_next_job "w1" 60)
    ∷ []

abbrev first_store : Memory
first_store = store AssetStatus.pending DiskStatus.pulled ApprovalStatus.pending []

run-LaterAsset_example :
    AssetLife.Advances
      (server AssetStatus.pending)
      (lookup "a1" (run later_calls first_store).assets)
unfolding lookup
run-LaterAsset_example =
    run-LaterAsset later_calls first_store "a1" (server AssetStatus.pending)
      (tt, (tt, (tt, (tt, (tt, tt))))) refl

run-LaterApproval_example :
    ApprovalLife.Advances
      (request ApprovalStatus.pending)
      (lookup "p1" (run later_calls first_store).approvals)
unfolding lookup
run-LaterApproval_example =
    run-LaterApproval later_calls first_store "p1" (request ApprovalStatus.pending)
      (tt, (tt, (tt, (tt, (tt, tt))))) refl

-- Two queued jobs, and the jobs as two workers claim them one minute apart.
abbrev queue : Memory
queue = store AssetStatus.erasing DiskStatus.pulled ApprovalStatus.approved (
    ("j1", job_in JobStatus.pending "")
    ∷ ("j2", record (job_in JobStatus.pending "") { id = "j2"; created_at = 40 })
    ∷ [])

queue-IsKeyed : IsKeyed queue.jobs
unfolding lookup
queue-IsKeyed = (refl, refl, (refl, refl, tt))

abbrev claim_of : ErasureJob → Claim
claim_of j = record { job = j; disk = drive_of DiskStatus.pulled }

acquire_next_job-IsClaimOf_example :
    IsClaimOf env "w1" 60 queue
      (claim_of (claimed env "w1" (job_in JobStatus.pending "")))
      (acquire_next_job env "w1" 60 queue).1
unfolding acquire_next_job pick_job takes preferred lookup
acquire_next_job-IsClaimOf_example =
    acquire_next_job-IsClaimOf env "w1" 60 queue (acquire_next_job env "w1" 60 queue).1
      (claim_of (claimed env "w1" (job_in JobStatus.pending ""))) queue-IsKeyed refl

-- The first worker starts its job, saves a checkpoint.
abbrev between : List (Env × Command)
between =
    (env, Command.mark_job_running "j1" 1)
    ∷ (soon, Command.save_progress "j1" 0 2 4 JobStatus.running)
    ∷ []

acquire_next_job-once_example : ◌≢◌ {A = String} "j2" "j1"
unfolding acquire_next_job pick_job takes is_orphan heartbeat preferred lookup put run step
    Jobs.mark_job_running Jobs.save_progress
acquire_next_job-once_example =
    acquire_next_job-once env soon "w1" "w2" 60 60 between queue _ _ _ _ queue-IsKeyed refl
      (omega arith, tt, (omega arith, (λ e. cc), tt)) refl
      (inr (omega arith, omega arith, omega arith))

-- A job that its owner locked a moment ago.
abbrev busy : Memory
busy =
    store AssetStatus.erasing DiskStatus.erasing ApprovalStatus.approved
      (("j1", job_in JobStatus.running "w1") ∷ [])

acquire_next_job-idle_example :
    All (λ j. ¬ IsClaimable busy (caller env "w2" 60) j) (values busy.jobs)
    × ((acquire_next_job env "w2" 60 busy).1 ≡ busy)
unfolding acquire_next_job pick_job takes is_orphan heartbeat lookup
acquire_next_job-idle_example = acquire_next_job-idle env "w2" 60 busy refl
