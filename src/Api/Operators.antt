-- ===== src/Api/Operators.antt =====
-- Who may change the store by a request, and what a reply tells of the change.
use xiesg0915_work.Prelude.{
  ◌≤◌, String, Bool, true, false, ◌≡◌, refl, inl, inr, Option, none, some, List, arith, ◌==◌,
  Bool-cases,
}
use xiesg0915_work.Result.{Error, not_found, other, err, Exec, conflict}
use xiesg0915_work.Domain.Entities.{Time}
use xiesg0915_work.Store.State.{Memory}
use xiesg0915_work.Service.Requests.{
  Envs, RegisterInput, ApprovalInput, register_asset, submit_approval, review, withdraw,
}
use xiesg0915_work.Service.Execution.{
  DiskInput, DisposalInput, pull_disks, create_erasure_job, scrap_disk, confirm_disposal,
}
use xiesg0915_work.Api.Reply.{Reply, fail, respond, code, write_store_err}
use xiesg0915_work.Api.Request.{Request, operator}
use xiesg0915_work.Api.Handlers.{Server, review_request, scrap}
use xiesg0915_work.Api.Endpoints.{Endpoint, serve}

-- The endpoints that change the store, but for the verification of a wiped disk.
unfoldable pub needs_operator : Endpoint → Bool
needs_operator (Endpoint.post_asset body) = true
needs_operator (Endpoint.post_disks id body) = true
needs_operator (Endpoint.post_disposal id body) = true
needs_operator (Endpoint.post_approval id body) = true
needs_operator (Endpoint.post_review id body) = true
needs_operator (Endpoint.post_withdrawal id) = true
needs_operator (Endpoint.post_job id body) = true
needs_operator (Endpoint.post_scrap id has_content body) = true
needs_operator _ = false

-- An error reply that leaves the store as it is.
pub record IsRefused (m : Memory) (out : Reply × Memory) : Type 0 where
  pub error : 400 ≤ code out.0
  pub unchanged : out.1 ≡ m

write_store_err-code : (e : Error) → 400 ≤ code (write_store_err e)
unfolding write_store_err code
write_store_err-code (not_found t) = omega arith
write_store_err-code (conflict t) = omega arith
write_store_err-code (other t) = omega arith

-- A call that fails and leaves the store as it is.
abbrev IsStopped : {A : Type 0} → Exec Memory A → Memory → Type 0
IsStopped call m = (e : Error) × (call m ≡ (err e, m))

respond-IsRefused :
    {A : Type 0} (f : A → Reply) (call : Exec Memory A) (m : Memory)
    → IsStopped call m
    → IsRefused m (respond f call m)
unfolding respond
respond-IsRefused f call m (e, h) =
    rw h (record { error = write_store_err-code e; unchanged = refl })

bad_request : (m : Memory) → IsRefused m (fail 400 "bad_request", m)
unfolding code
bad_request m = record { error = omega arith; unchanged = refl }

-- The operations of the service refuse an empty operator before they read the store.
register_asset-unnamed :
    (env : Envs) (i : RegisterInput) (m : Memory)
    → i.operator ≡ ""
    → IsStopped (register_asset env i) m
unfolding register_asset
register_asset-unnamed env i m h = elim (Bool-cases (i.tag == "")) [
  | inl t ↦ rw t (_, refl)
  | inr t ↦ rw (t, h) (_, refl)
]

pull_disks-unnamed :
    (env : Envs) (now : Time) (id : String) (is : List DiskInput) (m : Memory)
    → IsStopped (pull_disks env now id "" is) m
unfolding pull_disks
pull_disks-unnamed env now id is m = (_, refl)

confirm_disposal-unnamed :
    (env : Envs) (id : String) (i : DisposalInput) (m : Memory)
    → i.operator ≡ ""
    → IsStopped (confirm_disposal env id i) m
unfolding confirm_disposal
confirm_disposal-unnamed env id i m h = rw h (_, refl)

submit_approval-unnamed :
    (env : Envs) (id : String) (i : ApprovalInput) (m : Memory)
    → i.operator ≡ ""
    → IsStopped (submit_approval env id i) m
unfolding submit_approval
submit_approval-unnamed env id i m h = rw h (_, refl)

review-unnamed :
    (env : Envs) (id : String) (approve : Bool) (note : String) (m : Memory)
    → IsStopped (review env id "" approve note) m
unfolding review
review-unnamed env id approve note m = (_, refl)

withdraw-unnamed : (env : Envs) (id : String) (m : Memory) → IsStopped (withdraw env id "") m
unfolding withdraw
withdraw-unnamed env id m = (_, refl)

create_erasure_job-unnamed :
    (env : Envs) (id standard : String) (m : Memory)
    → IsStopped (create_erasure_job env id standard "") m
unfolding create_erasure_job
create_erasure_job-unnamed env id standard m = (_, refl)

scrap_disk-unnamed :
    (env : Envs) (id reason : String) (m : Memory) → IsStopped (scrap_disk env id "" reason) m
unfolding scrap_disk
scrap_disk-unnamed env id reason m = (_, refl)

module _ (s : Server) (r : Request) (m : Memory) (h : operator r ≡ "") where
  review_request-unnamed :
      (id : String) (b : Option Bool) (note : String)
      → IsRefused m (review_request s r id (some (b, note)) m)
  unfolding review_request
  review_request-unnamed id none note = bad_request m
  review_request-unnamed id (some approve) note =
      respond-IsRefused _ (review s.env id (operator r) approve note) m
        (rw h (review-unnamed s.env id approve note m))

  scrap-unnamed :
      (id : String) (has_content : Bool) (body : Option String)
      → IsRefused m (scrap s r id has_content body m)
  unfolding scrap
  scrap-unnamed id true none = bad_request m
  scrap-unnamed id true (some reason) =
      respond-IsRefused _ (scrap_disk s.env id (operator r) reason) m
        (rw h (scrap_disk-unnamed s.env id reason m))
  scrap-unnamed id false body =
      respond-IsRefused _ (scrap_disk s.env id (operator r) "") m
        (rw h (scrap_disk-unnamed s.env id "" m))

-- A request without an operator is refused by every endpoint that changes the store but the
-- verification of a wiped disk: the reply is an error, and the store is as it was.
pub serve-unnamed :
    (s : Server) (r : Request) (e : Endpoint) (m : Memory)
    → operator r ≡ ""
    → needs_operator e ≡ true
    → IsRefused m (serve s r e m)
unfolding serve needs_operator
serve-unnamed s r (Endpoint.post_asset none) m h n = bad_request m
serve-unnamed s r (Endpoint.post_asset (some i)) m h n =
    respond-IsRefused _ (register_asset s.env (record i { operator = operator r })) m
      (register_asset-unnamed s.env (record i { operator = operator r }) m h)
serve-unnamed s r (Endpoint.post_disks id none) m h n = bad_request m
serve-unnamed s r (Endpoint.post_disks id (some is)) m h n =
    respond-IsRefused _ (pull_disks s.env s.now id (operator r) is) m
      (rw h (pull_disks-unnamed s.env s.now id is m))
serve-unnamed s r (Endpoint.post_disposal id none) m h n = bad_request m
serve-unnamed s r (Endpoint.post_disposal id (some i)) m h n =
    respond-IsRefused _ (confirm_disposal s.env id (record i { operator = operator r })) m
      (confirm_disposal-unnamed s.env id (record i { operator = operator r }) m h)
serve-unnamed s r (Endpoint.post_approval id none) m h n = bad_request m
serve-unnamed s r (Endpoint.post_approval id (some i)) m h n =
    respond-IsRefused _ (submit_approval s.env id (record i { operator = operator r })) m
      (submit_approval-unnamed s.env id (record i { operator = operator r }) m h)
serve-unnamed s r (Endpoint.post_review id none) m h n = bad_request m
serve-unnamed s r (Endpoint.post_review id (some (b, note))) m h n =
    review_request-unnamed s r m h id b note
serve-unnamed s r (Endpoint.post_withdrawal id) m h n =
    respond-IsRefused _ (withdraw s.env id (operator r)) m (rw h (withdraw-unnamed s.env id m))
serve-unnamed s r (Endpoint.post_job id none) m h n = bad_request m
serve-unnamed s r (Endpoint.post_job id (some standard)) m h n =
    respond-IsRefused _ (create_erasure_job s.env id standard (operator r)) m
      (rw h (create_erasure_job-unnamed s.env id standard m))
serve-unnamed s r (Endpoint.post_scrap id has_content body) m h n =
    scrap-unnamed s r m h id has_content body
serve-unnamed s r _ m h n = absurd (cc n)
