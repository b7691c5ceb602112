-- ===== src/Scenarios/Scenes.antt =====
-- A store with one asset, its disk, its request and one job, in given states.
use xiesg0915_work.Prelude.{String, none, [], ◌∷◌, Table}
use xiesg0915_work.Domain.Status.{AssetStatus, DiskStatus, JobStatus, ApprovalStatus}
use xiesg0915_work.Domain.Entities.{Asset, Disk, ErasureJob, DecommissionApproval}
use xiesg0915_work.Store.State.{Memory, Env}
use xiesg0915_work.Store.Assets.{zero_asset}
use xiesg0915_work.Store.Disks.{zero_disk}
use xiesg0915_work.Service.Requests.{Envs}
use xiesg0915_work.Service.Execution.{queued_job}

abbrev pub env : Env
env = record { now = 1000; fresh_id = "f1"; log_now = 1000; log_id = "l1" }

-- A call two minutes after the calls at `env`.
abbrev pub late : Env
late = record { now = 120000001000; fresh_id = "f2"; log_now = 120000001000; log_id = "l2" }

abbrev pub envs : Envs
envs = λ i. env

abbrev pub server : AssetStatus → Asset
server s = record zero_asset {
  id = "a1";
  tag = "SRV-1";
  owner = "alice";
  status = s;
  registered_by = "dave";
  created_at = 10;
}

abbrev pub drive_of : DiskStatus → Disk
drive_of s = record zero_disk {
  id = "d1";
  asset_id = "a1";
  serial = "WD-1";
  kind = "HDD";
  device_path = "/dev/sdb";
  status = s;
  created_at = 20;
}

abbrev pub request : ApprovalStatus → DecommissionApproval
request s = record {
  id = "p1";
  asset_id = "a1";
  asset_tag = "SRV-1";
  standard = "nist_clear";
  method = "resale";
  reason = "old";
  applicant = "alice";
  status = s;
  reviewer = "bob";
  review_note = "";
  reviewed_at = none;
  version = 1;
  created_at = 15;
  updated_at = 15;
}

abbrev pub job_in : JobStatus → (owner : String) → ErasureJob
job_in s owner = record (queued_job "d1" "nist_clear" "carol" 0) {
  id = "j1";
  status = s;
  locked_by = owner;
  locked_at = 500;
  created_at = 30;
}

abbrev pub store : AssetStatus → DiskStatus → ApprovalStatus → Table ErasureJob → Memory
store a d p js = record {
  assets = ("a1", server a) ∷ [];
  tag_index = ("SRV-1", "a1") ∷ [];
  disks = ("d1", drive_of d) ∷ [];
  jobs = js;
  checkpoints = [];
  runs = [];
  certs = [];
  disposals = [];
  approvals = ("p1", request p) ∷ [];
  audit = [];
}

-- A call one second after those at `env`.
abbrev pub soon : Env
soon = record { now = 1000001000; fresh_id = "f3"; log_now = 1000001000; log_id = "l3" }
