-- ===== src/Worker/Resumed.antt =====
-- internal/worker/worker.go: a job that was cut off and is resumed from the checkpoint in the store.
use xiesg0915_work.Prelude.{
  ℕ, ◌≡◌, ◌<◌, ◌⊎◌, inl, inr, refl, ap, sym, ◌∙◌, String, false, Option, none, some, ◌==◌, eq_refl,
  length, lookup, put, lookup-put, arith, Option-cases,
}
use xiesg0915_work.Domain.Status.{JobStatus, same_job_status}
use xiesg0915_work.Domain.Entities.{Disk, ErasureJob, Standard, Checkpoint}
use xiesg0915_work.Domain.Standards.{Numbered}
use xiesg0915_work.Store.State.{Memory, Env}
use xiesg0915_work.Store.Jobs.{save_progress}
use xiesg0915_work.Erasure.Device.{Device}
use xiesg0915_work.Erasure.Engine.{Options, Externals, Rig}
use xiesg0915_work.Erasure.Verify.{run}
use xiesg0915_work.Erasure.Resume.{Point, point, resumed, Saves}
use xiesg0915_work.Erasure.Runs.{Runs, run_on, Runs-verified}
use xiesg0915_work.Worker.Job.{Setting, from_start, cursor, options, on_progress, settle, finalize}
use xiesg0915_work.Worker.Outcomes.{settle_clean}

abbrev pub place_of : Option Checkpoint → Option Point
place_of none = none
place_of (some cp) = some (cp.pass, cp.offset)

-- The checkpoint of a job in the store, beside the count of bytes written.
abbrev pub checkpoint_of : ErasureJob → Memory × ℕ → Option Point
checkpoint_of job s = place_of (lookup job.id s.0.checkpoints)

save_progress-checkpoint :
    (env : Env) (id : String) (p o t : ℕ) (st : JobStatus) (m : Memory)
    → let after = place_of (lookup id (save_progress env id p o t st m).1.checkpoints) in
      (after ≡ place_of (lookup id m.checkpoints)) ⊎ (after ≡ some (p, o))
unfolding save_progress
save_progress-checkpoint env id p o t st m = elim (Option-cases (lookup id m.jobs)) [
  | inl n ↦ inl (ground (arith, n))
  | inr (j, f) ↦
      let cp : Checkpoint = record {
        job_id = id;
        pass = p;
        offset = o;
        heartbeat_at = env.now;
        updated_at = env.now;
      } in
      let stored : (save_progress env id p o t st m).1.checkpoints ≡ put id cp m.checkpoints =
        ground (arith, f) in
      let found : lookup id (put id cp m.checkpoints) ≡ some cp =
        lookup-put id id cp m.checkpoints ∙ rw (eq_refl id) refl in
      inr (ap place_of (ap (lookup id) stored ∙ found))
]

-- onProgress saves what the engine tells it, or leaves the checkpoint as it is.
pub on_progress-Saves :
    (s : Setting) (job : ErasureJob) (x : Externals) (opt : Options) (size : ℕ)
    → Saves x opt size (checkpoint_of job) (on_progress s job)
unfolding on_progress
on_progress-Saves s job x opt size p (m, n) =
    save_progress-checkpoint (s.progress_env p) job.id p.pass p.offset p.total _ m

-- The cursor of a job that is not queued is its checkpoint.
cursor-point :
    (job : ErasureJob) (m : Memory) (n : ℕ)
    → same_job_status job.status JobStatus.pending ≡ false
    → ((cursor job m).pass, (cursor job m).offset) ≡ point (checkpoint_of job (m, n))
unfolding cursor
cursor-point job m n h = elim (Option-cases (lookup job.id m.checkpoints)) [
  | inl e ↦ ground (arith, e)
  | inr (cp, e) ↦ ground (arith, e, h)
]

-- A job of a standard with a full verification and passes numbered from 0 that was cut off any
-- number of times under the same options, by an error, a cancelled context, a restart or a loss of
-- power, and is resumed at its checkpoint: if the engine returns no error this time, the worker takes
-- the disk as verified and goes on to its certificate.
pub resumed_run-finalize :
    (s : Setting) (std : Standard) (job : ErasureJob) (disk : Disk) (dev : Device) (m : Memory)
    (n : ℕ)
    → Numbered 0 std.passes
    → 0 < length std.passes
    → (std.verify_mode == "sample") ≡ false
    → same_job_status job.status JobStatus.pending ≡ false
    → Runs s.externals
        (options s std job from_start)
        dev.size
        (checkpoint_of job)
        (record { device = dev; state = (m, n) })
    → let c = cursor job m in
      let out =
        run s.externals s.world
          (on_progress s job)
          (options s std job c)
          (record { device = dev; state = (m, 0) }) in
      out.0 ≡ none
      → settle s std job disk c dev.size out
        ≡ finalize s std job disk c dev.size out.1 out.2.state.0
resumed_run-finalize s std job disk dev m n k l full started a h =
    let c = cursor job m in
    let r : Rig (Memory × ℕ) = record { device = dev; state = (m, 0) } in
    let out = run s.externals s.world (on_progress s job) (options s std job c) r in
    let at : (c.pass, c.offset) ≡ point (checkpoint_of job (m, 0)) = cursor-point job m 0 started in
    let opt = options s std job from_start in
    let same : run_on s.externals opt dev.size (checkpoint_of job) s.world (on_progress s job) r
        ≡ out =
      ap (λ z. run s.externals s.world (on_progress s job) (resumed opt z) r) (sym at) in
    let seen =
      Runs-verified s.externals opt dev.size (checkpoint_of job) k l full s.world
        (on_progress s job) (Runs.restart (m, 0) a refl) (ap (λ o. o.0) same ∙ h) in
    settle_clean s std job disk c dev.size out.0 out.1 out.2 h
      (sym (ap (λ o. o.1.mismatches) same) ∙ seen.0)
