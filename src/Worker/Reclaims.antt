-- ===== src/Worker/Reclaims.antt =====
-- internal/store/memory.go and internal/worker/worker.go: a claimed job is not claimed again,
-- whatever the store does in between.
use xiesg0915_work.Prelude.{
  ℕ, ◌≤◌, ◌≡◌, ◌≢◌, sym, ◌∙◌, ap, subst, String, some, List, [], ◌∷◌, put, inl, inr, arith, none,
}
use xiesg0915_work.Result.{ok, Result-cases}
use xiesg0915_work.Domain.Entities.{ErasureJob}
use xiesg0915_work.Store.State.{Memory, Env}
use xiesg0915_work.Store.Acquire.{Claim, claimed, acquire_next_job}
use xiesg0915_work.Store.Commands.{Command, step, run}
use xiesg0915_work.Store.Keyed.{IsKeyed, put-IsKeyed, step-IsKeyed, run_from-IsKeyed}
use xiesg0915_work.Store.Claims.{IsClaimOf, acquire_next_job-IsClaimOf, acquire_next_job-idle}
use xiesg0915_work.Worker.Scheduler.{IsForeign}
use xiesg0915_work.Worker.Slots.{acquire_next_job-ok, got_job}
use xiesg0915_work.Worker.Locks.{
  IsMine, IsTimely, mine-not-IsClaimable, other-IsMine, claimed-IsMine, step-IsMine,
}

-- A call behind the claim: a claim by the owner again or within its own timeout, or a call that is
-- no claim and puts no job back into the queue.
abbrev pub IsSparing : (w : String) (since : ℕ) → Env → Command → Memory → Type 0
IsSparing w since env (Command.acquire_next_job v stale) m = IsTimely w since env v stale
IsSparing w since env cmd m = IsForeign env cmd m

-- Calls one after another, none of which reads a clock behind the claim's.
abbrev pub AreSparing : (w : String) (since : ℕ) → List (Env × Command) → Memory → Type 0
AreSparing w since [] m = Unit
AreSparing w since ((env, c) ∷ rest) m =
    (since ≤ env.now) × IsSparing w since env c m × AreSparing w since rest (step env c m)

-- A claim by somebody else leaves a held job.
acquire-IsMine :
    (env : Env) (w v i : String) (since stale : ℕ) (m : Memory)
    → IsKeyed m.jobs
    → IsTimely w since env v stale
    → IsMine w since m.jobs i
    → IsMine w since (acquire_next_job env v stale m).1.jobs i
acquire-IsMine env w v i since stale m keyed t h =
    elim (Result-cases (acquire_next_job env v stale m).0) [
      | inr (e, f) ↦ absurd (acquire_next_job-ok env v stale m e f)
      | inl (none, f) ↦
          subst (λ (n : Memory). IsMine w since n.jobs i)
            (sym (acquire_next_job-idle env v stale m f).1) h
      | inl (some k, f) ↦
          let c = acquire_next_job-IsClaimOf env v stale m _ k keyed (got_job env v stale m k f) in
          subst (λ t. IsMine w since t i) (sym c.jobs)
            (other-IsMine w since i c.job.id k.job m.jobs
              (mine-not-IsClaimable env w v since stale m c.job i t h c.stored c.claimable) h)
    ]

sparing-IsMine :
    (env : Env) (w i : String) (since : ℕ) (c : Command) (m : Memory)
    → IsKeyed m.jobs
    → since ≤ env.now
    → IsSparing w since env c m
    → IsMine w since m.jobs i
    → IsMine w since (step env c m).jobs i
unfolding step
sparing-IsMine env w i since (Command.acquire_next_job v stale) m keyed l s h =
    acquire-IsMine env w v i since stale m keyed s h
sparing-IsMine env w i since cmd m keyed l s h = step-IsMine w since i env cmd m l s h

run-IsMine :
    (w i : String) (since : ℕ) (calls : List (Env × Command)) (m : Memory)
    → IsKeyed m.jobs
    → AreSparing w since calls m
    → IsMine w since m.jobs i
    → IsMine w since (run calls m).jobs i
unfolding run
run-IsMine w i since [] m keyed s h = h
run-IsMine w i since ((env, c) ∷ rest) m keyed s h =
    run-IsMine w i since rest (step env c m) (step-IsKeyed env c m keyed) s.2
      (sparing-IsMine env w i since c m keyed s.0 s.1 h)

-- A claimed job is not claimed again, whatever calls of the store come between the two claims: not
-- by its owner, and not by another worker whose claim comes within its own timeout of the first.
-- The calls in between create no job under an identifier in use, put no job back into the queue,
-- read no clock behind that of the first claim, and claim under the same condition on the timeout.
pub acquire_next_job-once :
    (env env' : Env) (w v : String) (stale stale' : ℕ) (calls : List (Env × Command))
    (m m' m'' : Memory) (k k' : Claim)
    → IsKeyed m.jobs
    → acquire_next_job env w stale m ≡ (ok (some k), m')
    → AreSparing w env.now calls m'
    → acquire_next_job env' v stale' (run calls m') ≡ (ok (some k'), m'')
    → IsTimely w env.now env' v stale'
    → k'.job.id ≢ k.job.id
acquire_next_job-once env env' w v stale stale' calls m m' m'' k k' keyed e s e' t same =
    mine-not-IsClaimable env' w v env.now stale' (run calls m') second.job k.job.id t held
      second.stored second.claimable (sym same ∙ ap (λ (x : ErasureJob). x.id) second.result)
  where
    first : IsClaimOf env w stale m k m'
    first = acquire_next_job-IsClaimOf env w stale m m' k keyed e

    id_of : k.job.id ≡ first.job.id
    id_of = ap (λ (x : ErasureJob). x.id) first.result

    keyed' : IsKeyed m'.jobs
    keyed' = subst IsKeyed (sym first.jobs) (put-IsKeyed first.job.id k.job m.jobs id_of keyed)

    held : IsMine w env.now (run calls m').jobs k.job.id
    held = run-IsMine w k.job.id env.now calls m' keyed' s (
        subst (λ t. IsMine w env.now t k.job.id) (sym first.jobs)
          (subst (λ (j : ErasureJob). IsMine w env.now (put first.job.id j m.jobs) k.job.id)
            (sym first.result)
            (subst (IsMine w env.now (put first.job.id (claimed env w first.job) m.jobs))
              (sym id_of)
              (claimed-IsMine env w first.job.id env.now first.job m.jobs (omega arith)))))

    second : IsClaimOf env' v stale' (run calls m') k' m''
    second =
        acquire_next_job-IsClaimOf env' v stale' (run calls m') m'' k'
          (run_from-IsKeyed calls m' keyed') e'
