-- ===== src/Scenarios/Databases.antt =====
-- The store of internal/store/pg.go over some calls, with connections that work and fail.
use xiesg0915_work.Prelude.{String, ◌≡◌, refl, none, List, [], ◌∷◌, lookup}
use xiesg0915_work.Result.{conflict, other, ok, err}
use xiesg0915_work.Domain.Status.{AssetStatus, DiskStatus, JobStatus, ApprovalStatus}
use xiesg0915_work.Domain.Entities.{plain}
use xiesg0915_work.Store.State.{Memory}
use xiesg0915_work.Store.Commands.{Command}
use xiesg0915_work.Postgres.Database.{Database, Wire, new_database, guarded, map_err, transaction}
use xiesg0915_work.Postgres.Statements.{find_row, update_asset_status}
use xiesg0915_work.Postgres.Jobs.{create_job, get_job}
use xiesg0915_work.Postgres.Commands.{Call, perform, replay}
use xiesg0915_work.Postgres.Integrity.{IsSound}
use xiesg0915_work.Postgres.Sound.{replay-IsSound}
use xiesg0915_work.Postgres.Atomic.{perform-Atomic}
use xiesg0915_work.Postgres.Unread.{create_job-unread}
use xiesg0915_work.Postgres.Holding.{Queue, holding, Agree}
use xiesg0915_work.Postgres.Agreement.{StatusChange, in_memory, in_postgres, in_postgres-Agree}
use xiesg0915_work.Scenarios.Scenes.{env, soon, late, server, drive_of, request, job_in, store}

abbrev own_queue : Queue
own_queue = record {
  jobs = ("j1", record { job = job_in JobStatus.pending ""; locked_at = none }) ∷ [];
  checkpoints = [];
  runs = [];
}

-- An asset with its disk, an open request and a queued job.
abbrev first_store : Memory
first_store = store AssetStatus.pending DiskStatus.pulled ApprovalStatus.pending []

abbrev first : Database
first = holding own_queue first_store

-- A review, a pull, a claim whose answer is lost, a pull over a connection that is lost, and a way
-- back that the trigger refuses.
abbrev calls : List Call
calls =
    record {
      wire = Wire.up;
      env = env;
      command = Command.review_approval "p1" ApprovalStatus.approved "bob" "";
    }
    ∷ record { wire = Wire.answer_lost; env = soon; command = Command.acquire_next_job "w1" 60 }
    ∷ record {
      wire = Wire.down;
      env = late;
      command =
          Command.transition_asset "a1" AssetStatus.disk_pulled "carol" "asset.disk_pull"
            (plain "");
    }
    ∷ record {
      wire = Wire.up;
      env = late;
      command = Command.transition_asset "a1" AssetStatus.in_service "carol" "back" (plain "");
    }
    ∷ []

-- A registration, a request, a second open request and a disk.
abbrev first_calls : List Call
first_calls =
    record {
      wire = Wire.up;
      env = env;
      command = Command.create_asset (server AssetStatus.pending);
    }
    ∷ record {
      wire = Wire.up;
      env = soon;
      command =
          Command.create_approval
            (record (request ApprovalStatus.pending) { asset_id = env.fresh_id });
    }
    ∷ record {
      wire = Wire.up;
      env = late;
      command =
          Command.create_approval
            (record (request ApprovalStatus.pending) { id = "p2"; asset_id = env.fresh_id });
    }
    ∷ record {
      wire = Wire.up;
      env = late;
      command =
          Command.create_disk (record (drive_of DiskStatus.pulled) { asset_id = env.fresh_id });
    }
    ∷ []

replay-IsSound_example : IsSound (replay first_calls new_database)
replay-IsSound_example = replay-IsSound first_calls

abbrev way_back : Command
way_back = Command.transition_asset "a1" AssetStatus.in_service "carol" "back" (plain "")

perform-Atomic_example : (perform Wire.up env way_back first).1 ≡ first
unfolding perform update_asset_status guarded lookup map_err transaction
perform-Atomic_example =
    perform-Atomic Wire.up env way_back first (conflict "raised exception") (λ e. cc) refl

in_postgres-Agree_example :
    Agree own_queue
      (in_memory env (StatusChange.review "p1" ApprovalStatus.approved "bob" "") first_store)
      (in_postgres env
        (StatusChange.review "p1" ApprovalStatus.approved "bob" "")
        (holding own_queue first_store))
unfolding find_row
in_postgres-Agree_example =
    in_postgres-Agree own_queue env (StatusChange.review "p1" ApprovalStatus.approved "bob" "")
      first_store refl refl

create_job-unread_example :
    ((create_job Wire.up env (job_in JobStatus.pending "") first).0 ≡ ok tt)
    × (x : String) × ((get_job Wire.up "f1"
          (create_job Wire.up env (job_in JobStatus.pending "") first).1).0
        ≡ err (other x))
unfolding lookup find_row
create_job-unread_example =
    create_job-unread Wire.up env (job_in JobStatus.pending "") first refl refl refl
