-- ===== src/Store/Jobs.antt =====
-- internal/store/memory.go: the methods on jobs, their runs and their checkpoints.
use xiesg0915_work.Prelude.{
  ℕ, String, Bool, Option, none, some, List, [], ◌∷◌, ◌++◌, ◌==◌, ◌||◌, Table, lookup, put, has,
  values, select, sort_slice, ltb, if◌then◌else◌,
}
use xiesg0915_work.Result.{not_found, ok, err, Exec}
use xiesg0915_work.Domain.Status.{JobStatus}
use xiesg0915_work.Domain.Entities.{Time, ErasureJob, Checkpoint, ErasureRun, job_created}
use xiesg0915_work.Store.State.{Memory, Env, or_fresh, entry, append_audit_locked}

-- The job as CreateJob stores it.
abbrev pub new_job : Env → ErasureJob → ErasureJob
new_job env j = record j {
  id = or_fresh j.id env.fresh_id;
  created_at = env.now;
  updated_at = env.now;
}

unfoldable pub create_job : Env → ErasureJob → Exec Memory (Unit {0})
create_job env j m =
    let j' = new_job env j in
    if has j.disk_id m.disks
    then (
      ok tt,
      append_audit_locked env
          (entry j.created_by "job.create" "job" j'.id (job_created j.disk_id j.standard j.attempt))
          (record m { jobs = put j'.id j' m.jobs }),
    )
    else (err (not_found "disk"), m)

unfoldable pub get_job : String → Exec Memory ErasureJob
get_job id m = elim (lookup id m.jobs) [ none ↦ (err (not_found "job"), m) | some j ↦ (ok j, m) ]

abbrev pub newer_job : ErasureJob → ErasureJob → Bool
newer_job a b = ltb b.created_at a.created_at

unfoldable pub list_jobs : String → Exec Memory (List ErasureJob)
unfolding sort_slice
list_jobs disk_id m = (
  ok (sort_slice newer_job (select (λ j. disk_id == "" || j.disk_id == disk_id) (values m.jobs))),
  m,
)

-- `if j.StartedAt == nil { j.StartedAt = &now }`
abbrev pub or_started : Option Time → Time → Option Time
or_started none now = some now
or_started (some t) now = some t

unfoldable pub mark_job_running : Env → String → ℕ → Exec Memory (Unit {0})
mark_job_running env job_id attempt m = elim (lookup job_id m.jobs) [
  | none ↦ (err (not_found "job"), m)
  | some j ↦ (
    ok tt,
    record m {
      jobs =
          put job_id
            (record j {
              status = JobStatus.running;
              attempt = attempt;
              started_at = or_started j.started_at env.now;
              locked_at = env.now;
              updated_at = env.now;
            })
            m.jobs;
    },
  )
]

unfoldable pub save_progress :
    Env → String → (pass offset total : ℕ) → JobStatus → Exec Memory (Unit {0})
save_progress env job_id pass offset total status m = elim (lookup job_id m.jobs) [
  | none ↦ (err (not_found "job"), m)
  | some j ↦ (
    ok tt,
    record m {
      jobs =
          put job_id
            (record j {
              current_pass = pass;
              bytes_done = offset;
              total_bytes = total;
              status = status;
              updated_at = env.now;
            })
            m.jobs;
      checkpoints =
          put job_id
            (record {
              job_id = job_id;
              pass = pass;
              offset = offset;
              heartbeat_at = env.now;
              updated_at = env.now;
            })
            m.checkpoints;
    },
  )
]

-- `m.runs[jobID]`, nil where there is no entry.
abbrev pub list_at : String → Table (List ErasureRun) → List ErasureRun
list_at job_id t = elim (lookup job_id t) [ none ↦ [] | some rs ↦ rs ]

unfoldable pub complete_job :
    Env → String → JobStatus → String → ErasureRun → Exec Memory (Unit {0})
complete_job env job_id status message run m = elim (lookup job_id m.jobs) [
  | none ↦ (err (not_found "job"), m)
  | some j ↦
      let run' = record run { id = env.fresh_id; job_id = job_id; attempt = j.attempt } in
      (
        ok tt,
        record m {
          jobs =
              put job_id
                (record j {
                  status = status;
                  error = message;
                  finished_at = some env.now;
                  updated_at = env.now;
                })
                m.jobs;
          runs = put job_id (list_at job_id m.runs ++ run' ∷ []) m.runs;
        },
      )
]

unfoldable pub record_run : Env → ErasureRun → Exec Memory (Unit {0})
record_run env run m =
    let run' = record run { id = or_fresh run.id env.fresh_id } in
    (ok tt, record m { runs = put run.job_id (list_at run.job_id m.runs ++ run' ∷ []) m.runs })

abbrev pub earlier_run : ErasureRun → ErasureRun → Bool
earlier_run a b = ltb a.started_at b.started_at

unfoldable pub list_runs : String → Exec Memory (List ErasureRun)
unfolding sort_slice
list_runs job_id m = (ok (sort_slice earlier_run (list_at job_id m.runs)), m)

unfoldable pub get_checkpoint : String → Exec Memory Checkpoint
get_checkpoint job_id m = elim (lookup job_id m.checkpoints) [
  | none ↦ (err (not_found "checkpoint"), m)
  | some cp ↦ (ok cp, m)
]
