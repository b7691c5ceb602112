-- ===== src/Store/Acquire.antt =====
-- internal/store/memory.go: AcquireNextJob, by which a worker claims a queued job or one whose
-- owner has gone silent.
use xiesg0915_work.Prelude.{
  ℕ, ◌*◌, ◌-◌, String, Bool, true, false, not, ◌||◌, Option, none, some, List, [], ◌∷◌, ◌==◌,
  lookup, put, values, eqb, ltb, if◌then◌else◌,
}
use xiesg0915_work.Result.{ok, Exec}
use xiesg0915_work.Domain.Status.{JobStatus, same_job_status}
use xiesg0915_work.Domain.Entities.{Time, Disk, ErasureJob, job_acquired}
use xiesg0915_work.Store.State.{Memory, Env, entry, append_audit_locked}
use xiesg0915_work.Store.Disks.{zero_disk}

pub record Claim : Type 0 where
  pub job : ErasureJob
  pub disk : Disk

-- The arguments of one call: the reading of the clock, the caller and the timeout in seconds.
pub record Caller : Type 0 where
  pub now : Time
  pub worker : String
  pub stale_after_sec : ℕ

-- The last sign of life of a job's owner: the lock, or a later checkpoint.
unfoldable pub heartbeat : Memory → ErasureJob → Time
heartbeat m j = elim (lookup j.id m.checkpoints) [
  | none ↦ j.locked_at
  | some cp ↦ if ltb j.locked_at cp.heartbeat_at then cp.heartbeat_at else j.locked_at
]

-- A running job's owner has been silent for longer than the timeout, which is in seconds.
abbrev pub is_silent : Memory → Caller → ErasureJob → Bool
is_silent m c j =
    eqb (heartbeat m j) 0 || ltb (c.stale_after_sec * 1000000000) (c.now - heartbeat m j)

-- The case of a running or verifying job.
unfoldable pub is_orphan : Memory → Caller → ErasureJob → Bool
unfolding heartbeat
is_orphan m c j =
    if j.locked_by == c.worker
    then false
    else if eqb c.stale_after_sec 0
    then true
    else is_silent m c j

-- The case of a pending job, against what was picked so far.
unfoldable pub preferred : Option ErasureJob → ErasureJob → Bool
preferred none j = true
preferred (some p) j =
    not (same_job_status p.status JobStatus.pending) || ltb j.created_at p.created_at

-- The switch on the job's status.
unfoldable pub takes : JobStatus → Memory → Caller → Option ErasureJob → ErasureJob → Bool
unfolding is_orphan preferred
takes JobStatus.pending m c pick j = preferred pick j
takes JobStatus.running m c pick j = is_orphan m c j
takes JobStatus.verifying m c pick j = is_orphan m c j
takes _ m c pick j = false

-- The loop over the jobs.
unfoldable pub pick_job : Memory → Caller → Option ErasureJob → List ErasureJob → Option ErasureJob
unfolding takes
pick_job m c pick [] = pick
pick_job m c pick (j ∷ js) = pick_job m c (if takes j.status m c pick j then some j else pick) js

-- The job as the claim leaves it: a pending one becomes running, and the lock is the caller's.
abbrev pub claimed : Env → String → ErasureJob → ErasureJob
claimed env worker j = record j {
  status = if same_job_status j.status JobStatus.pending then JobStatus.running else j.status;
  locked_by = worker;
  locked_at = env.now;
  updated_at = env.now;
}

-- `m.disks[diskID]`
abbrev pub disk_or_zero : String → Memory → Disk
disk_or_zero id m = elim (lookup id m.disks) [ none ↦ zero_disk | some d ↦ d ]

-- `m.jobs[pickedID]` is the picked job itself where jobs are stored under their identifiers.
abbrev pub job_or : ErasureJob → String → Memory → ErasureJob
job_or j id m = elim (lookup id m.jobs) [ none ↦ j | some k ↦ k ]

unfoldable pub acquire_next_job : Env → String → ℕ → Exec Memory (Option Claim)
unfolding pick_job
acquire_next_job env worker stale_after_sec m =
    let c : Caller = record { now = env.now; worker = worker; stale_after_sec = stale_after_sec } in
    elim (pick_job m c none (values m.jobs)) [
      | none ↦ (ok none, m)
      | some p ↦
          let j = claimed env worker (job_or p p.id m) in
          (
            ok (some (record { job = j; disk = disk_or_zero j.disk_id m })),
            append_audit_locked env
                (entry worker "job.acquire" "job" p.id
                  (job_acquired worker j.status j.current_pass j.bytes_done))
                (record m { jobs = put p.id j m.jobs }),
          )
    ]
