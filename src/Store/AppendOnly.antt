-- ===== src/Store/AppendOnly.antt =====
-- What the store never changes or removes: certificates, disposal confirmations, the run history
-- and the audit log.
use xiesg0915_work.Prelude.{
  String, ◌≡◌, refl, ◌++◌, ◌==◌, eq_iff, none, some, List, [], ◌∷◌, Extends, same, more,
  Extends-trans, Table, put, subst, sym, lookup, lookup-put, Option, Bool, true, false,
  if◌then◌else◌, arith,
}
use xiesg0915_work.Domain.Status.{JobStatus}
use xiesg0915_work.Domain.Entities.{ErasureJob, Certificate, DisposalConfirmation, ErasureRun}
use xiesg0915_work.Store.State.{Memory, Env}
use xiesg0915_work.Store.Jobs
use xiesg0915_work.Store.Jobs.{list_at}
use xiesg0915_work.Store.Documents
use xiesg0915_work.Store.Commands.{Command, step, run}

-- Everything that was issued, signed or recorded in `m` stands unchanged in `m'`.
pub record Keeps (m m' : Memory) : Type 0 where
  pub certs :
      (k : String) (c : Certificate) → lookup k m.certs ≡ some c → lookup k m'.certs ≡ some c
  pub disposals :
      (k : String) (d : DisposalConfirmation)
      → lookup k m.disposals ≡ some d
      → lookup k m'.disposals ≡ some d
  pub runs : (k : String) → Extends (list_at k m.runs) (list_at k m'.runs)
  pub audit : Extends m.audit m'.audit

step-certs :
    (env : Env) (cmd : Command) (m : Memory) (k : String) (c : Certificate)
    → lookup k m.certs ≡ some c
    → lookup k (step env cmd m).certs ≡ some c
unfolding step
step-certs env (Command.save_certificate d) m k c h =
    ground (
      arith,
      eq_iff d.cert_no k,
      lookup-put d.cert_no k (record d { created_at = env.now }) m.certs,
    )
step-certs env _ m k c h = ground arith

step-disposals :
    (env : Env) (cmd : Command) (m : Memory) (k : String) (d : DisposalConfirmation)
    → lookup k m.disposals ≡ some d
    → lookup k (step env cmd m).disposals ≡ some d
unfolding step
step-disposals env (Command.save_disposal e) m k d h =
    ground
      (arith, eq_iff e.asset_id k, lookup-put e.asset_id k (Documents.signed env e) m.disposals)
step-disposals env _ m k d h = ground arith

step-audit : (env : Env) (cmd : Command) (m : Memory) → Extends m.audit (step env cmd m).audit
unfolding step
step-audit env (Command.append_audit l) m = more same _
step-audit env _ m = grind (arith, same, more)

list_at-put :
    (k id : String) (t : Table (List ErasureRun)) (rs : List ErasureRun)
    → list_at k (put id rs t) ≡ (if id == k then rs else list_at k t)
list_at-put k id t rs = ground (arith, lookup-put id k rs t)

-- A run put at the end of one job's list extends that list and leaves every other alone.
Extends-put :
    (k id : String) (t : Table (List ErasureRun)) (r : ErasureRun)
    → Extends (list_at k t) (list_at k (put id (list_at id t ++ r ∷ []) t))
Extends-put k id t r =
    subst (Extends (list_at k t)) (sym (list_at-put k id t (list_at id t ++ r ∷ [])))
      (branch (id == k) refl)
  where
    branch :
        (b : Bool)
        → (id == k) ≡ b
        → Extends (list_at k t) (if b then list_at id t ++ r ∷ [] else list_at k t)
    branch true e =
        subst (λ (x : String). Extends (list_at k t) (list_at x t ++ r ∷ []))
          (sym ((eq_iff id k).0 e)) (more same r)
    branch false e = same

complete_job-runs :
    (env : Env) (id k msg : String) (s : JobStatus) (r : ErasureRun) (m : Memory)
    (o : Option ErasureJob)
    → lookup id m.jobs ≡ o
    → Extends (list_at k m.runs) (list_at k (Jobs.complete_job env id s msg r m).1.runs)
unfolding Jobs.complete_job
complete_job-runs env id k msg s r m none e = rw (e, Jobs.complete_job) same
complete_job-runs env id k msg s r m (some j) e =
    rw (e, Jobs.complete_job) (Extends-put k id m.runs _)

step-runs :
    (env : Env) (cmd : Command) (m : Memory) (k : String)
    → Extends (list_at k m.runs) (list_at k (step env cmd m).runs)
unfolding step
step-runs env (Command.complete_job id s e r) m k =
    complete_job-runs env id k e s r m (lookup id m.jobs) refl
step-runs env (Command.record_run r) m k = Extends-put k r.job_id m.runs _
step-runs env _ m k = grind (arith, same)

-- Every call of every method, also one that fails, leaves each issued certificate and each signed
-- disposal as it is, and only adds at the end of each job's runs and of the audit log.
pub step-Keeps : (env : Env) (cmd : Command) (m : Memory) → Keeps m (step env cmd m)
step-Keeps env cmd m = record {
  certs = step-certs env cmd m;
  disposals = step-disposals env cmd m;
  runs = step-runs env cmd m;
  audit = step-audit env cmd m;
}

Keeps-trans : {a b c : Memory} → Keeps a b → Keeps b c → Keeps a c
Keeps-trans h g = record {
  certs = λ k v e. g.certs k v (h.certs k v e);
  disposals = λ k v e. g.disposals k v (h.disposals k v e);
  runs = λ k. Extends-trans (h.runs k) (g.runs k);
  audit = Extends-trans h.audit g.audit;
}

-- Over any calls of the store's methods, in any order and by any callers, a certificate once
-- issued and a disposal once signed are never changed or removed, and the run history of every job
-- and the audit log only grow at the end.
pub run-Keeps : (calls : List (Env × Command)) (m : Memory) → Keeps m (run calls m)
unfolding run
run-Keeps [] m = record {
  certs = λ k v e. e;
  disposals = λ k v e. e;
  runs = λ k. same;
  audit = same;
}
run-Keeps ((env, c) ∷ rest) m = Keeps-trans (step-Keeps env c m) (run-Keeps rest (step env c m))
