-- ===== src/Scenarios/Resumes.antt =====
-- A run that wipes four bytes and is cancelled, a loss of power, and the run after it.
use xiesg0915_work.Prelude.{ℕ, ◌≡◌, refl, inl, some, ◌∷◌, [], arith, lookup, put}
use xiesg0915_work.Domain.Status.{AssetStatus, DiskStatus, JobStatus, ApprovalStatus}
use xiesg0915_work.Domain.Entities.{ErasureJob}
use xiesg0915_work.Domain.Standards.{nist_clear}
use xiesg0915_work.Store.State.{Memory}
use xiesg0915_work.Store.Jobs.{save_progress}
use xiesg0915_work.Erasure.Stream.{stream_at}
use xiesg0915_work.Erasure.Device.{Device}
use xiesg0915_work.Erasure.Engine.{
  Options, Rig, with_defaults, count_mismatches, write_chunk, fill_chunk, checkpoint, write_loop,
  write_pass, write_passes,
}
use xiesg0915_work.Erasure.Verify.{
  run, verify, compare_chunk, report_verify, verify_loop, verify_ranges,
}
use xiesg0915_work.Erasure.Runs.{Runs, run_on, Runs-verified}
use xiesg0915_work.Worker.Job.{Setting, from_start, cursor, options, on_progress, settle, finalize}
use xiesg0915_work.Worker.Resumed.{checkpoint_of, on_progress-Saves, resumed_run-finalize}
use xiesg0915_work.Scenarios.Scenes.{drive_of, job_in, store}
use xiesg0915_work.Scenarios.Erasures.{cut, externals, used}
use xiesg0915_work.Scenarios.Workers.{setting}

abbrev interrupted : Setting
interrupted = record setting { world = cut }

abbrev claimed_job : ErasureJob
claimed_job = job_in JobStatus.running "w1"

abbrev working : Memory
working =
    store AssetStatus.erasing DiskStatus.erasing ApprovalStatus.approved (("j1", claimed_job) ∷ [])

abbrev wanted : Options
wanted = options setting nist_clear claimed_job from_start

abbrev unused : Rig (Memory × ℕ)
unused = record { device = used; state = (working, 0) }

abbrev cancelled_run : Rig (Memory × ℕ)
cancelled_run =
    (run_on externals wanted 4 (checkpoint_of claimed_job) cut (on_progress interrupted claimed_job)
      unused).2

-- What was not synced is lost.
abbrev after_loss : Device
after_loss = record {
  size = cancelled_run.device.size;
  bytes = cancelled_run.device.durable;
  durable = cancelled_run.device.durable;
}

left-Runs :
    Runs externals wanted 4
      (checkpoint_of claimed_job)
      (record { device = after_loss; state = cancelled_run.state })
unfolding lookup
left-Runs =
    Runs.power_loss after_loss
      (Runs.again cut (on_progress interrupted claimed_job) (Runs.fresh unused refl refl)
        (on_progress-Saves interrupted claimed_job externals (with_defaults wanted) 4))
      (record { size = refl; bytes = λ i. inl refl; durable = refl })

Runs-verified_example :
    let out =
      run_on externals wanted 4
        (checkpoint_of claimed_job)
        setting.world
        (on_progress setting claimed_job)
        (record { device = after_loss; state = cancelled_run.state }) in
    (out.1.mismatches ≡ 0) × (out.1.bytes ≡ 4)
unfolding run with_defaults write_passes write_pass write_loop fill_chunk write_chunk checkpoint
    stream_at verify verify_ranges verify_loop compare_chunk report_verify count_mismatches
    on_progress save_progress lookup put
Runs-verified_example =
    Runs-verified externals wanted 4 (checkpoint_of claimed_job) (refl, inl refl, tt) (omega arith)
      refl setting.world (on_progress setting claimed_job) left-Runs refl

resumed_run-finalize_example :
    let m = cancelled_run.state.0 in
    let c = cursor claimed_job m in
    let out =
      run externals setting.world
        (on_progress setting claimed_job)
        (options setting nist_clear claimed_job c)
        (record { device = after_loss; state = (m, 0) }) in
    settle setting nist_clear claimed_job (drive_of DiskStatus.erasing) c 4 out
    ≡ finalize setting nist_clear claimed_job (drive_of DiskStatus.erasing) c 4 out.1 out.2.state.0
unfolding run with_defaults write_passes write_pass write_loop fill_chunk write_chunk checkpoint
    stream_at verify verify_ranges verify_loop compare_chunk report_verify count_mismatches
    on_progress save_progress lookup put cursor
resumed_run-finalize_example =
    resumed_run-finalize setting nist_clear claimed_job (drive_of DiskStatus.erasing) after_loss
      cancelled_run.state.0 cancelled_run.state.1 (refl, inl refl, tt) (omega arith) refl refl
      left-Runs refl

-- The next run goes on at the second chunk.
resumes : checkpoint_of claimed_job cancelled_run.state ≡ some (0, 3)
unfolding run with_defaults write_passes write_pass write_loop fill_chunk write_chunk checkpoint
    stream_at on_progress save_progress lookup put
resumes = refl
