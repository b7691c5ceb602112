-- ===== src/Store/Keyed.antt =====
-- The job table of internal/store/memory.go: each job stands once, under its own identifier.
use xiesg0915_work.Prelude.{
  ℕ, String, ◌≡◌, refl, ap, eq_iff, none, some, List, [], ◌∷◌, Option, inl, inr, Bool-cases,
  Option-cases, Table, has, lookup, put, lookup-put, values, All, sym, subst, arith,
}
use xiesg0915_work.Domain.Status.{JobStatus}
use xiesg0915_work.Domain.Entities.{ErasureJob, ErasureRun}
use xiesg0915_work.Store.State.{Memory, Env, or_fresh, new_memory}
use xiesg0915_work.Store.Jobs
use xiesg0915_work.Store.Acquire
use xiesg0915_work.Store.Acquire.{Caller, pick_job, job_or, claimed}
use xiesg0915_work.Store.Commands.{Command, step, run}

abbrev pub IsKeyed : Table ErasureJob → Type 0
IsKeyed [] = Unit
IsKeyed ((k, j) ∷ t) = (j.id ≡ k) × (lookup k t ≡ none) × IsKeyed t

pub put-IsKeyed :
    (k : String) (j : ErasureJob) (t : Table ErasureJob)
    → j.id ≡ k
    → IsKeyed t
    → IsKeyed (put k j t)
unfolding lookup put
put-IsKeyed k j [] e h = (e, refl, tt)
put-IsKeyed k j ((i, x) ∷ t) e h =
    ground (arith, eq_iff i k, eq_iff k i, put-IsKeyed k j t e h.2, lookup-put k i j t)

-- A job that is looked up has the identifier that it was looked up by.
pub lookup-id :
    (k : String) (t : Table ErasureJob) (j : ErasureJob)
    → IsKeyed t
    → lookup k t ≡ some j
    → j.id ≡ k
unfolding lookup
lookup-id k [] j h e = cc
lookup-id k ((i, x) ∷ t) j h e = ground (arith, eq_iff i k, lookup-id k t j h.2)

All-behind :
    (k : String) (x : ErasureJob) (t : Table ErasureJob) (js : List ErasureJob)
    → lookup k t ≡ none
    → All (λ j. lookup j.id t ≡ some j) js
    → All (λ j. lookup j.id ((k, x) ∷ t) ≡ some j) js
unfolding lookup
All-behind k x t [] n a = tt
All-behind k x t (j ∷ js) n a = (
  ground (arith, eq_iff k j.id, a.0, n, ap (λ s. lookup s t) {x = k} {y = j.id}),
  All-behind k x t js n a.1,
)

-- A range over the table visits the jobs that lookups find.
pub values-lookup :
    (t : Table ErasureJob) → IsKeyed t → All (λ j. lookup j.id t ≡ some j) (values t)
unfolding lookup
values-lookup [] h = tt
values-lookup ((k, x) ∷ t) h =
    (ground (arith, eq_iff k x.id, h.0), All-behind k x t (values t) h.1 (values-lookup t h.2))

-- A job overwritten by a change that keeps its identifier.
change-IsKeyed :
    (m : Memory) (id : String) (j k : ErasureJob)
    → lookup id m.jobs ≡ some j
    → k.id ≡ j.id
    → IsKeyed m.jobs
    → IsKeyed (put id k m.jobs)
change-IsKeyed m id j k found e h =
    put-IsKeyed id k m.jobs (cc (e, lookup-id id m.jobs j h found)) h

mark_job_running-IsKeyed :
    (env : Env) (id : String) (n : ℕ) (m : Memory) (o : Option ErasureJob)
    → lookup id m.jobs ≡ o
    → IsKeyed m.jobs
    → IsKeyed (Jobs.mark_job_running env id n m).1.jobs
unfolding Jobs.mark_job_running
mark_job_running-IsKeyed env id n m none e h = rw (e, Jobs.mark_job_running) h
mark_job_running-IsKeyed env id n m (some j) e h =
    rw (e, Jobs.mark_job_running) (change-IsKeyed m id j _ e refl h)

save_progress-IsKeyed :
    (env : Env) (id : String) (p q t : ℕ) (s : JobStatus) (m : Memory) (o : Option ErasureJob)
    → lookup id m.jobs ≡ o
    → IsKeyed m.jobs
    → IsKeyed (Jobs.save_progress env id p q t s m).1.jobs
unfolding Jobs.save_progress
save_progress-IsKeyed env id p q t s m none e h = rw (e, Jobs.save_progress) h
save_progress-IsKeyed env id p q t s m (some j) e h =
    rw (e, Jobs.save_progress) (change-IsKeyed m id j _ e refl h)

complete_job-IsKeyed :
    (env : Env) (id : String) (s : JobStatus) (msg : String) (r : ErasureRun) (m : Memory)
    (o : Option ErasureJob)
    → lookup id m.jobs ≡ o
    → IsKeyed m.jobs
    → IsKeyed (Jobs.complete_job env id s msg r m).1.jobs
unfolding Jobs.complete_job
complete_job-IsKeyed env id s msg r m none e h = rw (e, Jobs.complete_job) h
complete_job-IsKeyed env id s msg r m (some j) e h =
    rw (e, Jobs.complete_job) (change-IsKeyed m id j _ e refl h)

create_job-IsKeyed :
    (env : Env) (j : ErasureJob) (m : Memory)
    → IsKeyed m.jobs
    → IsKeyed (Jobs.create_job env j m).1.jobs
unfolding Jobs.create_job
create_job-IsKeyed env j m h = elim (Bool-cases (has j.disk_id m.disks)) [
  | inl p ↦
      rw (p, Jobs.create_job)
        (put-IsKeyed (or_fresh j.id env.fresh_id) (Jobs.new_job env j) m.jobs refl h)
  | inr p ↦ rw (p, Jobs.create_job) h
]

job_or-id : (p : ErasureJob) (m : Memory) → IsKeyed m.jobs → (job_or p p.id m).id ≡ p.id
job_or-id p m h = elim (Option-cases (lookup p.id m.jobs)) [
  | inl e ↦ rw (e, job_or)
  | inr (j, e) ↦ rw (e, job_or) (lookup-id p.id m.jobs j h e)
]

acquire_next_job-IsKeyed :
    (env : Env) (w : String) (s : ℕ) (m : Memory) (o : Option ErasureJob)
    → pick_job m (record { now = env.now; worker = w; stale_after_sec = s }) none (values m.jobs)
      ≡ o
    → IsKeyed m.jobs
    → IsKeyed (Acquire.acquire_next_job env w s m).1.jobs
unfolding Acquire.acquire_next_job
acquire_next_job-IsKeyed env w s m none e h = rw (e, Acquire.acquire_next_job) h
acquire_next_job-IsKeyed env w s m (some p) e h =
    rw (e, Acquire.acquire_next_job) (put-IsKeyed p.id _ m.jobs (job_or-id p m h) h)

-- Every call of every method keeps each job once, under its own identifier.
pub step-IsKeyed :
    (env : Env) (cmd : Command) (m : Memory) → IsKeyed m.jobs → IsKeyed (step env cmd m).jobs
unfolding step
step-IsKeyed env (Command.create_job j) m h = create_job-IsKeyed env j m h
step-IsKeyed env (Command.acquire_next_job w s) m h = acquire_next_job-IsKeyed env w s m _ refl h
step-IsKeyed env (Command.mark_job_running id n) m h =
    mark_job_running-IsKeyed env id n m (lookup id m.jobs) refl h
step-IsKeyed env (Command.save_progress id p q t s) m h =
    save_progress-IsKeyed env id p q t s m (lookup id m.jobs) refl h
step-IsKeyed env (Command.complete_job id s msg r) m h =
    complete_job-IsKeyed env id s msg r m (lookup id m.jobs) refl h
step-IsKeyed env cmd m h = subst IsKeyed (sym jobs_kept) h
  where
    jobs_kept : (step env cmd m).jobs ≡ m.jobs
    jobs_kept = ground arith

pub run_from-IsKeyed :
    (calls : List (Env × Command)) (m : Memory) → IsKeyed m.jobs → IsKeyed (run calls m).jobs
unfolding run
run_from-IsKeyed [] m h = h
run_from-IsKeyed ((env, c) ∷ rest) m h =
    run_from-IsKeyed rest (step env c m) (step-IsKeyed env c m h)

-- After any calls of the store's methods on a new store, each job stands once in the job table,
-- under its own identifier.
run-IsKeyed : (calls : List (Env × Command)) → IsKeyed (run calls new_memory).jobs
unfolding new_memory
run-IsKeyed calls = run_from-IsKeyed calls new_memory tt
