-- ===== src/Api/Downloads.antt =====
-- What the download endpoints send of the files that the worker stored.
use xiesg0915_work.Prelude.{
  ◌<◌, String, Bool, Option, arith, true, ◌≡◌, ap, ◌∙◌, none, some, length, lookup, lt→ltb,
  if◌then◌else◌,
}
use xiesg0915_work.Result.{ok}
use xiesg0915_work.Domain.Entities.{Certificate}
use xiesg0915_work.Store.State.{Memory}
use xiesg0915_work.Store.Documents.{get_certificate}
use xiesg0915_work.Objects.{Bytes, Object}
use xiesg0915_work.Objects.Filesystem.{Files, Filesystem, Disturbance, put_object, get_object, stat}
use xiesg0915_work.Objects.Stored.{put_object-get_object}
use xiesg0915_work.Api.Reply.{Payload, Reply, ok_reply, reply_to}
use xiesg0915_work.Api.Request.{Request}
use xiesg0915_work.Api.Handlers.{Server, file_name, streamed}
use xiesg0915_work.Api.Endpoints.{Endpoint, serve}

get_certificate-found :
    (cert_no : String) (c : Certificate) (m : Memory)
    → lookup cert_no m.certs ≡ some c
    → (get_certificate cert_no m).0 ≡ ok c
unfolding get_certificate
get_certificate-found cert_no c m h = ground (arith, h)

-- The server reads the files that a Put of the content under the key left.
pub record Serves (s : Server) (fs : Filesystem) (key : String) (content : Bytes) : Type 0 where
  pub disturbance : Disturbance
  pub content_type : String
  pub before : Files
  pub object : Object
  pub stored : (put_object fs disturbance key content_type content before).0 ≡ ok object
  pub reads :
      s.object key
      ≡ get_object fs true key (put_object fs disturbance key content_type content before).1

served-content :
    (s : Server) (fs : Filesystem) (key : String) (content : Bytes)
    → Serves s fs key content
    → s.object key ≡ ok (content, stat key content)
served-content s fs key content v =
    v.reads
    ∙ put_object-get_object fs v.disturbance key v.content_type content v.before v.object v.stored

abbrev json : String
json = "application/json"

abbrev html : String
html = "text/html; charset=utf-8"

-- A stream as a reply, with the length if it is positive.
abbrev sent_with : String → Option String → Bytes → Bool → Reply
sent_with type name content positive =
    ok_reply (Payload.stream type (if positive then some (length content) else none) name content)

-- A report or a certificate that a Put stored under the key of a certificate is sent as it was
-- stored, with its length; a report is an attachment that is named after its key.
pub download-stored :
    (s : Server) (r : Request) (fs : Filesystem) (m : Memory) (cert_no : String) (c : Certificate)
    (report page : Bytes)
    → lookup cert_no m.certs ≡ some c
    → 0 < length report
    → 0 < length page
    → Serves s fs c.report_key report
    → Serves s fs c.cert_key page
    → ((serve s r (Endpoint.get_report cert_no) m).0
        ≡ ok_reply (
            Payload.stream "application/json"
              (some (length report))
              (some (file_name c.report_key))
              report))
      × ((serve s r (Endpoint.get_certificate_file cert_no) m).0
          ≡ ok_reply (Payload.stream "text/html; charset=utf-8" (some (length page)) none page))
unfolding serve
download-stored s r fs m cert_no c report page h n k v w =
    let found = get_certificate-found cert_no c m h in
    (
      ap (reply_to (λ x. streamed x.report_key json (s.object x.report_key))) found
          ∙ ap (streamed c.report_key json) (served-content s fs c.report_key report v)
          ∙ ap (sent_with json (some (file_name c.report_key)) report) (lt→ltb 0 (length report) n),
      ap (reply_to (λ x. streamed x.cert_key html (s.object x.cert_key))) found
          ∙ ap (streamed c.cert_key html) (served-content s fs c.cert_key page w)
          ∙ ap (sent_with html none page) (lt→ltb 0 (length page) k),
    )
