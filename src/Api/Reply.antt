-- ===== src/Api/Reply.antt =====
-- internal/api/respond.go: what is sent back. The text of an error message is left out.
use xiesg0915_work.Prelude.{ℕ, String, Option, List}
use xiesg0915_work.Result.{Error, not_found, conflict, other, Result, ok, err, Exec}
use xiesg0915_work.Domain.Status.{DiskStatus}
use xiesg0915_work.Domain.Entities.{
  Time, Asset, Disk, Standard, ErasureJob, ErasureRun, VerifyResult, Certificate,
  DisposalConfirmation, DecommissionApproval, AuditLog,
}
use xiesg0915_work.Objects.{Bytes}
use xiesg0915_work.Store.State.{Memory}

-- A disk and a request as the timeline shows them.
pub record DiskItem : Type 0 where
  pub id : String
  pub serial : String
  pub status : DiskStatus
  pub events : List AuditLog
  pub jobs : List ErasureJob

pub record ApprovalItem : Type 0 where
  pub approval : DecommissionApproval
  pub events : List AuditLog

-- The data of an envelope, or the content that is streamed, with the headers that go with it.
pub data Payload : Type 0 where
  health : (store object_backend : String) → Time → Payload
  standards : List Standard → Payload
  asset : Asset → Payload
  assets : List Asset → (total limit offset : ℕ) → Payload
  pulled : Asset → List Disk → Payload
  disks : List Disk → Payload
  certificates : List Certificate → Payload
  certificate : Certificate → Payload
  disposal : DisposalConfirmation → Payload
  timeline : List AuditLog → List DiskItem → List ApprovalItem → Payload
  approval : DecommissionApproval → Payload
  approvals : List DecommissionApproval → Payload
  disk : Disk → Payload
  job : ErasureJob → Payload
  jobs : List ErasureJob → Payload
  runs : List ErasureRun → Payload
  verification : VerifyResult → Payload
  status : String → Payload
  audit : List AuditLog → (total limit offset : ℕ) → Payload
  stream :
      (content_type : String)
      → (content_length : Option ℕ) → (filename : Option String) → (content : Bytes) → Payload

-- The envelope holds data or an error, beside the HTTP status.
pub data Reply : Type 0 where
  data_reply : (code : ℕ) → Payload → Reply
  error_reply : (code : ℕ) → (name : String) → Reply

unfoldable pub code : Reply → ℕ
code (data_reply n p) = n
code (error_reply n e) = n

abbrev pub ok_reply : Payload → Reply
ok_reply = data_reply 200

abbrev pub created : Payload → Reply
created = data_reply 201

abbrev pub fail : ℕ → String → Reply
fail = error_reply

-- writeStoreErr
unfoldable pub write_store_err : Error → Reply
write_store_err (not_found e) = fail 404 "not_found"
write_store_err (conflict e) = fail 409 "conflict"
write_store_err (other e) = fail 500 "internal"

-- A handler answers a request in a state of the store.
abbrev pub Handler : Type 0
Handler = Memory → Reply × Memory

module _ {A : Type 0} where
  abbrev pub reply_to : (A → Reply) → Result A → Reply
  reply_to f (ok a) = f a
  reply_to f (err e) = write_store_err e

  -- `v, err := call(); if err != nil { writeStoreErr(w, err); return }; f(w, v)`
  unfoldable pub respond : (A → Reply) → Exec Memory A → Handler
  respond f call m = (reply_to f (call m).0, (call m).1)
