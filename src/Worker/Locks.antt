-- ===== src/Worker/Locks.antt =====
-- internal/worker/worker.go: the jobs that a process holds in the store stay its own.
use xiesg0915_work.Prelude.{
  ℕ, ◌≤◌, ◌≡◌, ◌≢◌, inl, inr, ◌∙◌, ap, sym, subst, refl, String, Option, none, some, ◌==◌, eq_iff,
  eq_refl, ◌-◌, ◌*◌, ◌<◌, ◌⊎◌, Table, lookup, put, lookup-put, has, arith, Bool-cases,
}
use xiesg0915_work.Domain.Status.{JobStatus}
use xiesg0915_work.Domain.Entities.{ErasureJob, ErasureRun}
use xiesg0915_work.Store.State.{Memory, Env, or_fresh}
use xiesg0915_work.Store.Acquire.{claimed}
use xiesg0915_work.Store.Claims.{caller, IsClaimable, heartbeat-ge}
use xiesg0915_work.Store.Jobs
use xiesg0915_work.Store.Commands
use xiesg0915_work.Store.Commands.{Command}
use xiesg0915_work.Worker.Scheduler.{IsForeign}

-- A stored job is locked by `w`, at `since` or later, and has been started.
pub record IsMine (w : String) (since : ℕ) (t : Table ErasureJob) (id : String) : Type 0 where
  pub job : ErasureJob
  pub stored : lookup id t ≡ some job
  pub owner : job.locked_by ≡ w
  pub held : since ≤ job.locked_at
  pub started : job.status ≢ JobStatus.pending

-- An overwritten job stays the process's if its lock is kept and it is not queued again.
pub put-IsMine :
    (w : String) (since : ℕ) (id k : String) (a b : ErasureJob) (t : Table ErasureJob)
    → lookup k t ≡ some a
    → b.locked_by ≡ a.locked_by
    → (since ≤ a.locked_at → since ≤ b.locked_at)
    → ((a.status ≢ JobStatus.pending) → b.status ≢ JobStatus.pending)
    → IsMine w since t id
    → IsMine w since (put k b t) id
put-IsMine w since id k a b t f l c s v = elim (Bool-cases (k == id)) [
  | inr e ↦ record {
    job = v.job;
    stored = lookup-put k id b t ∙ rw e v.stored;
    owner = v.owner;
    held = v.held;
    started = v.started;
  }
  | inl e ↦
      let same : a ≡ v.job =
        ground (arith, f, v.stored, ap (λ i. lookup i t) ((eq_iff k id).0 e)) in
      record {
        job = b;
        stored = lookup-put k id b t ∙ rw e refl;
        owner = l ∙ ap (λ (j : ErasureJob). j.locked_by) same ∙ v.owner;
        held =
            c (
              subst (λ (n : ℕ). since ≤ n) (sym (ap (λ (j : ErasureJob). j.locked_at) same))
                v.held);
        started = s (λ p. v.started (ap (λ (j : ErasureJob). j.status) (sym same) ∙ p));
      }
]

new-IsMine :
    (w : String) (since : ℕ) (id k : String) (b : ErasureJob) (t : Table ErasureJob)
    → lookup k t ≡ none
    → IsMine w since t id
    → IsMine w since (put k b t) id
new-IsMine w since id k b t n v = elim (Bool-cases (k == id)) [
  | inr e ↦ record {
    job = v.job;
    stored = lookup-put k id b t ∙ rw e v.stored;
    owner = v.owner;
    held = v.held;
    started = v.started;
  }
  | inl e ↦ absurd (ground (arith, n, v.stored, ap (λ i. lookup i t) ((eq_iff k id).0 e)))
]

mark_job_running-IsMine :
    (w : String) (since : ℕ) (i : String) (env : Env) (id : String) (n : ℕ) (m : Memory)
    (o : Option ErasureJob)
    → since ≤ env.now
    → lookup id m.jobs ≡ o
    → IsMine w since m.jobs i
    → IsMine w since (Jobs.mark_job_running env id n m).1.jobs i
unfolding Jobs.mark_job_running
mark_job_running-IsMine w since i env id n m none p e h = rw (e, Jobs.mark_job_running) h
mark_job_running-IsMine w since i env id n m (some j) p e h =
    rw (e, Jobs.mark_job_running) (put-IsMine w since i id j _ m.jobs e refl (λ l. p) (λ s q. cc) h)

save_progress-IsMine :
    (w : String) (since : ℕ) (i : String) (env : Env) (id : String) (p q t : ℕ) (s : JobStatus)
    (m : Memory) (o : Option ErasureJob)
    → lookup id m.jobs ≡ o
    → s ≢ JobStatus.pending
    → IsMine w since m.jobs i
    → IsMine w since (Jobs.save_progress env id p q t s m).1.jobs i
unfolding Jobs.save_progress
save_progress-IsMine w since i env id p q t s m none e n h = rw (e, Jobs.save_progress) h
save_progress-IsMine w since i env id p q t s m (some j) e n h =
    rw (e, Jobs.save_progress) (put-IsMine w since i id j _ m.jobs e refl (λ l. l) (λ a. n) h)

complete_job-IsMine :
    (w : String) (since : ℕ) (i : String) (env : Env) (id : String) (s : JobStatus) (msg : String)
    (r : ErasureRun) (m : Memory) (o : Option ErasureJob)
    → lookup id m.jobs ≡ o
    → s ≢ JobStatus.pending
    → IsMine w since m.jobs i
    → IsMine w since (Jobs.complete_job env id s msg r m).1.jobs i
unfolding Jobs.complete_job
complete_job-IsMine w since i env id s msg r m none e n h = rw (e, Jobs.complete_job) h
complete_job-IsMine w since i env id s msg r m (some j) e n h =
    rw (e, Jobs.complete_job) (put-IsMine w since i id j _ m.jobs e refl (λ l. l) (λ a. n) h)

create_job-IsMine :
    (w : String) (since : ℕ) (i : String) (env : Env) (j : ErasureJob) (m : Memory)
    → lookup (or_fresh j.id env.fresh_id) m.jobs ≡ none
    → IsMine w since m.jobs i
    → IsMine w since (Jobs.create_job env j m).1.jobs i
unfolding Jobs.create_job
create_job-IsMine w since i env j m n h = elim (Bool-cases (has j.disk_id m.disks)) [
  | inl p ↦
      rw (p, Jobs.create_job)
        (new-IsMine w since i (or_fresh j.id env.fresh_id) (Jobs.new_job env j) m.jobs n h)
  | inr p ↦ rw (p, Jobs.create_job) h
]

-- No call that is foreign to a process's locks, and reads a clock that is not behind `since`, takes
-- a job from it.
pub step-IsMine :
    (w : String) (since : ℕ) (i : String) (env : Env) (cmd : Command) (m : Memory)
    → since ≤ env.now
    → IsForeign env cmd m
    → IsMine w since m.jobs i
    → IsMine w since (Commands.step env cmd m).jobs i
unfolding Commands.step
step-IsMine w since i env (Command.create_job j) m l f h = create_job-IsMine w since i env j m f h
step-IsMine w since i env (Command.acquire_next_job v s) m l f h = absurd f
step-IsMine w since i env (Command.mark_job_running id n) m l f h =
    mark_job_running-IsMine w since i env id n m (lookup id m.jobs) l refl h
step-IsMine w since i env (Command.save_progress id p q t s) m l f h =
    save_progress-IsMine w since i env id p q t s m (lookup id m.jobs) refl f h
step-IsMine w since i env (Command.complete_job id s msg r) m l f h =
    complete_job-IsMine w since i env id s msg r m (lookup id m.jobs) refl f h
step-IsMine w since i env cmd m l f h = subst (λ t. IsMine w since t i) (sym jobs_kept) h
  where
    jobs_kept : (Commands.step env cmd m).jobs ≡ m.jobs
    jobs_kept = ground arith

-- Since `since`, a claim by `v` is by the owner `w` again, or comes within its own timeout.
abbrev pub IsTimely : (w : String) (since : ℕ) (env : Env) (v : String) (stale : ℕ) → Type 0
IsTimely w since env v stale =
    (v ≡ w) ⊎ (0 < stale) × (0 < since) × (env.now - since ≤ stale * 1000000000)

-- Such a claim is of another job than those that the owner holds.
pub mine-not-IsClaimable :
    (env : Env) (w v : String) (since stale : ℕ) (m : Memory) (j : ErasureJob) (id : String)
    → IsTimely w since env v stale
    → IsMine w since m.jobs id
    → lookup j.id m.jobs ≡ some j
    → IsClaimable m (caller env v stale) j
    → id ≢ j.id
mine-not-IsClaimable env w v since stale m j id t h f c e =
    let same : h.job ≡ j = ground (arith, h.stored, f, ap (λ i. lookup i m.jobs) e) in
    let by : j.locked_by ≡ w = ap (λ (a : ErasureJob). a.locked_by) (sym same) ∙ h.owner in
    let at : since ≤ j.locked_at = subst (λ (a : ErasureJob). since ≤ a.locked_at) same h.held in
    elim c [
      | inl p ↦ h.started (ap (λ (a : ErasureJob). a.status) same ∙ p)
      | inr o ↦ elim t [
        | inl again ↦ o.foreign (by ∙ sym again)
        | inr n ↦ omega (arith, o.gone, heartbeat-ge m j, at, n)
      ]
    ]

pub other-IsMine :
    (w : String) (since : ℕ) (id k : String) (b : ErasureJob) (t : Table ErasureJob)
    → id ≢ k
    → IsMine w since t id
    → IsMine w since (put k b t) id
other-IsMine w since id k b t n v = elim (Bool-cases (k == id)) [
  | inl e ↦ absurd (n (sym ((eq_iff k id).0 e)))
  | inr e ↦ record {
    job = v.job;
    stored = lookup-put k id b t ∙ rw e v.stored;
    owner = v.owner;
    held = v.held;
    started = v.started;
  }
]

pub claimed-IsMine :
    (env : Env) (w id : String) (since : ℕ) (j : ErasureJob) (t : Table ErasureJob)
    → since ≤ env.now
    → IsMine w since (put id (claimed env w j) t) id
claimed-IsMine env w id since j t l = record {
  job = claimed env w j;
  stored = lookup-put id id (claimed env w j) t ∙ rw (eq_refl id) refl;
  owner = refl;
  held = l;
  started = λ e. ground arith;
}
