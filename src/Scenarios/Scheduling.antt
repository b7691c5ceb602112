-- ===== src/Scenarios/Scheduling.antt =====
-- A process with one slot over a store with one waiting job.
use xiesg0915_work.Prelude.{ℕ, ◌≡◌, ◌<◌, ◌⊎◌, refl, [], ◌∷◌, lookup, put, arith}
use xiesg0915_work.Domain.Status.{AssetStatus, DiskStatus, JobStatus, ApprovalStatus}
use xiesg0915_work.Store.State.{Memory}
use xiesg0915_work.Store.Acquire.{
  Claim, acquire_next_job, pick_job, takes, preferred, claimed, is_orphan, heartbeat,
}
use xiesg0915_work.Store.Keyed.{IsKeyed}
use xiesg0915_work.Worker.Scheduler.{System, Step, Reach, new_process, start, held, fill_slots}
use xiesg0915_work.Worker.Flights.{Distinct, Reach-Distinct, NothingWaits, fill_slots-full}
use xiesg0915_work.Scenarios.Scenes.{env, drive_of, job_in, store}

abbrev queue : Memory
queue =
    store AssetStatus.disk_pulled DiskStatus.pulled ApprovalStatus.approved
      (("j1", job_in JobStatus.pending "") ∷ [])

queue-IsKeyed : IsKeyed queue.jobs
unfolding lookup
queue-IsKeyed = (refl, refl, tt)

abbrev claim : Claim
claim = record {
  job = claimed env "w1-00000001" (job_in JobStatus.pending "");
  disk = drive_of DiskStatus.pulled;
}

abbrev claiming : Memory
claiming = (acquire_next_job env "w1-00000001" 0 queue).1

abbrev busy : System
busy = record {
  process = record (start (new_process "w1" "00000001" 1 120)) { flying = claim ∷ [] };
  memory = claiming;
}

busy-Reach : Reach "w1" "00000001" 1 120 queue busy
unfolding new_process start acquire_next_job pick_job takes preferred lookup
busy-Reach =
    Reach.next (Reach.next Reach.begin Step.started) (Step.turn env claim (omega arith) refl)

Reach-Distinct_example : Distinct busy.process.flying
Reach-Distinct_example = Reach-Distinct "w1" "00000001" 1 120 queue queue-IsKeyed busy-Reach

abbrev idle : System
idle = record { process = start (new_process "w1" "00000001" 2 120); memory = queue }

fill_slots-full_example :
    let s' = fill_slots (λ i. env) 3 0 idle in
    (held s'.process ≡ s'.process.workers)
    ⊎ (held s'.process < s'.process.workers) × ((i : ℕ) × NothingWaits (λ i. env) s' i)
unfolding new_process start
fill_slots-full_example = fill_slots-full (λ i. env) 3 0 idle (omega arith) (omega arith)

-- The round claims the job and leaves the other slot free.
claims_once : held (fill_slots (λ i. env) 3 0 idle).process ≡ 1
unfolding fill_slots new_process start acquire_next_job pick_job takes is_orphan heartbeat preferred
    lookup put
claims_once = refl
