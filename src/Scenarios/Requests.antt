-- ===== src/Scenarios/Requests.antt =====
-- The endpoints, the configuration and the object store at concrete inputs.
use xiesg0915_work.Prelude.{
  ◌≡◌, refl, String, true, false, none, some, [], ◌∷◌, arith, ◌==◌, if◌then◌else◌, lookup, put,
  remove,
}
use xiesg0915_work.Prelude.Strings.{
  trim_space, trim_left, trim_right, split, atoi, parse_digits, pos, is_space,
}
use xiesg0915_work.Domain.Status.{AssetStatus, DiskStatus, ApprovalStatus, can_transition_asset}
use xiesg0915_work.Domain.Entities.{Certificate}
use xiesg0915_work.Store.State.{Memory}
use xiesg0915_work.Store.Assets.{get_asset}
use xiesg0915_work.Store.Documents.{save_disposal, get_disposal}
use xiesg0915_work.Store.Approvals.{find_active, get_active_approval}
use xiesg0915_work.Service.Requests.{known_method, approved_approval}
use xiesg0915_work.Service.Execution.{DisposalInput, confirm_disposal, ready_for_disposal}
use xiesg0915_work.Config.{load}
use xiesg0915_work.Objects.Paths.{clean, join, resolve, joined, is_rooted}
use xiesg0915_work.Objects.Filesystem.{
  Filesystem, Files, Disturbance, dir, path, safe, safe_from, put_object, write_file, get_object,
}
use xiesg0915_work.Objects.Keys.{IsBelow, path-IsBelow}
use xiesg0915_work.Objects.Stored.{IsAtomic, put_object-IsAtomic}
use xiesg0915_work.Api.Reply.{Payload, ok_reply, code, respond}
use xiesg0915_work.Api.Request.{Request, operator}
use xiesg0915_work.Api.Handlers.{Server, file_name}
use xiesg0915_work.Api.Endpoints.{Endpoint, serve}
use xiesg0915_work.Api.Operators.{needs_operator, IsRefused, serve-unnamed}
use xiesg0915_work.Api.Disposals.{IsReported, dispose-IsReported}
use xiesg0915_work.Api.Downloads.{download-stored}
use xiesg0915_work.Scenarios.Scenes.{envs, store}

-- Workers below the bound, and a chunk below the bound.
abbrev getenv : String → String
getenv k = if k == "WORKERS" then "-3" else if k == "CHUNK_BYTES" then "512" else ""

abbrev files : Filesystem
files = record { root = "./reports"; bucket = "erasure-reports" }

abbrev quiet : Disturbance
quiet = record {
  mkdir_fails = false;
  open_fails = false;
  copied = none;
  sync_fails = false;
  remove_fails = false;
  rename_fails = false;
  suffix = "1";
  digest = λ b. "sha";
}

path-IsBelow_example : IsBelow (dir files) "reports/erasure-reports/etc/passwd"
unfolding path dir join clean safe safe_from split resolve joined is_rooted
path-IsBelow_example =
    path-IsBelow files "../../../etc//./passwd" "reports/erasure-reports/etc/passwd" (λ e. cc e)
      refl

put_object-IsAtomic_example :
    let out =
      put_object files
        (record quiet { rename_fails = true })
        "reports/c.json"
        "application/json"
        (1 ∷ 2 ∷ [])
        (("reports/erasure-reports/reports/c.json", 9 ∷ []) ∷ []) in
    IsAtomic out.0
      (1 ∷ 2 ∷ [])
      "reports/erasure-reports/reports/c.json"
      "reports/erasure-reports/reports/c.json"
      (("reports/erasure-reports/reports/c.json", 9 ∷ []) ∷ [])
      out.1
unfolding path dir join clean safe safe_from split resolve joined is_rooted
put_object-IsAtomic_example =
    put_object-IsAtomic files (record quiet { rename_fails = true }) "reports/c.json"
      "reports/erasure-reports/reports/c.json" "application/json" (1 ∷ 2 ∷ [])
      (("reports/erasure-reports/reports/c.json", 9 ∷ []) ∷ [])
      "reports/erasure-reports/reports/c.json" refl (λ e. cc e)

abbrev erased_store : Memory
erased_store = store AssetStatus.erasure_verified DiskStatus.verified ApprovalStatus.approved []

abbrev http_server : Server
http_server = record {
  backend = "filesystem";
  object = λ key. get_object files true key [];
  worker = none;
  env = envs;
  now = 1000;
  in_some_order = λ l. l;
}

abbrev by_carol : Request
by_carol = record { header = λ k. if k == "X-Operator" then " carol " else ""; query = λ k. "" }

abbrev by_nobody : Request
by_nobody = record { header = λ k. "  "; query = λ k. "" }

abbrev disposal_input : DisposalInput
disposal_input = record {
  method = "resale";
  receiver = "erin";
  receiver_org = "recycler";
  note = "";
  operator = "";
}

serve-unnamed_example :
    IsRefused erased_store
      (serve http_server by_nobody (Endpoint.post_disposal "a1" (some disposal_input)) erased_store)
unfolding operator needs_operator trim_space trim_left trim_right is_space
serve-unnamed_example =
    serve-unnamed http_server by_nobody (Endpoint.post_disposal "a1" (some disposal_input))
      erased_store refl refl

dispose-IsReported_example :
    IsReported "a1"
      (record disposal_input { operator = "carol" })
      erased_store
      (serve http_server by_carol (Endpoint.post_disposal "a1" (some disposal_input)) erased_store)
unfolding serve operator trim_space trim_left trim_right is_space code respond confirm_disposal
    known_method get_asset ready_for_disposal approved_approval get_active_approval find_active
    save_disposal get_disposal can_transition_asset lookup put
dispose-IsReported_example =
    dispose-IsReported http_server by_carol "a1" disposal_input erased_store refl

abbrev certificate : Certificate
certificate = record {
  cert_no = "CERT-1";
  disk_id = "d1";
  asset_id = "a1";
  job_id = "j1";
  standard = "nist_clear";
  standard_name = "";
  disk_serial = "";
  disk_model = "";
  capacity_gb = 0;
  asset_tag = "";
  passes = [];
  started_at = 0;
  finished_at = 0;
  attempts = 1;
  verify_mode = "full";
  verify_bytes = 4;
  report_key = "reports/CERT-1.json";
  cert_key = "reports/CERT-1.html";
  report_sha256 = "sha";
  operator = "carol";
  created_at = 0;
}

abbrev with_report : Files
with_report = (put_object files quiet "reports/CERT-1.json" "application/json" (1 ∷ 2 ∷ []) []).1

abbrev with_both : Files
with_both =
    (put_object files quiet "reports/CERT-1.html" "text/html; charset=utf-8" (3 ∷ []) with_report).1

abbrev file_server : Server
file_server = record http_server { object = λ key. get_object files true key with_both }

abbrev certified : Memory
certified = record erased_store { certs = ("CERT-1", certificate) ∷ [] }

download-stored_example :
    ((serve file_server by_nobody (Endpoint.get_report "CERT-1") certified).0
      ≡ ok_reply (
          Payload.stream "application/json"
            (some 2)
            (some (file_name "reports/CERT-1.json"))
            (1 ∷ 2 ∷ [])))
    × ((serve file_server by_nobody (Endpoint.get_certificate_file "CERT-1") certified).0
        ≡ ok_reply (Payload.stream "text/html; charset=utf-8" (some 1) none (3 ∷ [])))
unfolding put_object get_object write_file path dir join clean safe safe_from split resolve joined
    is_rooted lookup put remove
download-stored_example =
    download-stored file_server by_nobody files certified "CERT-1" certificate (1 ∷ 2 ∷ []) (3 ∷ [])
      refl (omega arith) (omega arith)
      (record {
        disturbance = quiet;
        content_type = "application/json";
        before = [];
        object = _;
        stored = refl;
        reads = refl;
      })
      (record {
        disturbance = quiet;
        content_type = "text/html; charset=utf-8";
        before = with_report;
        object = _;
        stored = refl;
        reads = refl;
      })

loaded : ((load getenv).workers ≡ pos 1) × ((load getenv).chunk_bytes ≡ pos 4096)
unfolding load atoi parse_digits
loaded = (refl, refl)
