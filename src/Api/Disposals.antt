-- ===== src/Api/Disposals.antt =====
-- What a reply of the disposal endpoint and of the review endpoint says of the store.
use xiesg0915_work.Prelude.{ℕ, ◌<◌, String, ◌≡◌, ap, sym, ◌∙◌, inl, inr, arith, some}
use xiesg0915_work.Result.{Error, Result-cases, Exec, ok, not_found, conflict, other}
use xiesg0915_work.Domain.Entities.{DisposalConfirmation}
use xiesg0915_work.Store.State.{Memory}
use xiesg0915_work.Service.Execution.{DisposalInput, confirm_disposal}
use xiesg0915_work.Service.Disposal.{MayDispose, confirm_disposal_gate}
use xiesg0915_work.Service.Signing.{IsSigned, confirm_disposal-IsSigned}
use xiesg0915_work.Api.Reply.{Payload, Reply, data_reply, respond, reply_to, code, write_store_err}
use xiesg0915_work.Api.Request.{Request, operator}
use xiesg0915_work.Api.Handlers.{Server}
use xiesg0915_work.Api.Endpoints.{Endpoint, serve}

-- A call behind a reply with the code `n`, which no error has.
write_store_err-ne : (e : Error) (n : ℕ) → n < 400 → code (write_store_err e) ≡ n → ⊥
unfolding write_store_err code
write_store_err-ne (not_found t) n b h = omega arith
write_store_err-ne (conflict t) n b h = omega arith
write_store_err-ne (other t) n b h = omega arith

respond-ok :
    {A : Type 0} (f : A → Reply) (call : Exec Memory A) (m : Memory) (n : ℕ)
    → n < 400
    → code (respond f call m).0 ≡ n
    → (a : A) × ((call m).0 ≡ ok a) × ((respond f call m).0 ≡ f a)
unfolding respond
respond-ok f call m n b h = elim (Result-cases (call m).0) [
  | inl (a, e) ↦ (a, e, ap (reply_to f) e)
  | inr (e, g) ↦ absurd (write_store_err-ne e n b (sym (ap (λ x. code (reply_to f x)) g) ∙ h))
]

-- A disposal as its endpoint reports it: the confirmation in the reply is the one that was signed.
pub record IsReported (id : String) (i : DisposalInput) (m : Memory) (out : Reply × Memory)
    : Type 0 where
  pub confirmation : DisposalConfirmation
  pub reply : out.0 ≡ data_reply 201 (Payload.disposal confirmation)
  pub allowed : MayDispose id i.method m
  pub signature : IsSigned id i m confirmation out.1

-- The disposal endpoint answers 201 only if the asset may be disposed of with the method in the
-- request; the confirmation in the reply is then the one that the store keeps, it is the asset's
-- first, its operator is the one that the request names, and the asset is disposed.
pub dispose-IsReported :
    (s : Server) (r : Request) (id : String) (i : DisposalInput) (m : Memory)
    → code (serve s r (Endpoint.post_disposal id (some i)) m).0 ≡ 201
    → IsReported id
        (record i { operator = operator r })
        m
        (serve s r (Endpoint.post_disposal id (some i)) m)
unfolding serve
dispose-IsReported s r id i m h =
    let named = record i { operator = operator r } in
    let call = confirm_disposal s.env id named in
    let found = respond-ok _ call m 201 (omega arith) h in
    record {
      confirmation = found.0;
      reply = found.2;
      allowed = confirm_disposal_gate s.env id named m found.0 found.1;
      signature = confirm_disposal-IsSigned s.env id named m found.0 found.1;
    }
