-- ===== src/Worker/Flights.antt =====
-- internal/worker/worker.go: no job is in flight twice in a process, and a round of fillSlots leaves
-- no slot free while a job waits.
use xiesg0915_work.Prelude.{
  All-imply, ℕ, zero, suc, ◌-◌, ◌≤◌, ◌<◌, ◌≡◌, ◌≢◌, ◌⊎◌, inl, inr, ◌∙◌, ap, sym, subst, refl,
  String, none, some, List, [], ◌∷◌, ◌++◌, All, put, ltb, ltb→lt, arith, Bool-cases, values,
}
use xiesg0915_work.Result.{ok, Result-cases}
use xiesg0915_work.Domain.Entities.{ErasureJob}
use xiesg0915_work.Store.State.{Memory, Env}
use xiesg0915_work.Store.Acquire.{Claim, claimed, acquire_next_job}
use xiesg0915_work.Store.Commands
use xiesg0915_work.Store.Keyed.{IsKeyed, step-IsKeyed}
use xiesg0915_work.Store.Claims.{
  caller, IsClaimable, acquire_next_job-IsClaimOf, acquire_next_job-idle,
}
use xiesg0915_work.Worker.Scheduler.{
  System, Step, Reach, held, stale_after, new_process, start, cancel, set_reclaim_immediately,
  fill_slots,
}
use xiesg0915_work.Worker.Slots.{acquire_next_job-ok}
use xiesg0915_work.Worker.Locks.{
  IsMine, mine-not-IsClaimable, other-IsMine, claimed-IsMine, step-IsMine,
}

-- No two of the claims are of one job.
abbrev pub Distinct : List Claim → Type 0
Distinct [] = Unit
Distinct (k ∷ ks) = All (λ c. c.job.id ≢ k.job.id) ks × Distinct ks

-- The jobs in flight are the process's own in the store, each once.
record IsSound (s : System) : Type 0 where
  keyed : IsKeyed s.memory.jobs
  mine : All (λ (c : Claim). IsMine s.process.instance_id 0 s.memory.jobs c.job.id) s.process.flying
  apart : Distinct s.process.flying

All-both :
    {P Q R : Claim → Type 0} (ks : List Claim)
    → ((k : Claim) → P k → Q k → R k)
    → All P ks
    → All Q ks
    → All R ks
All-both [] f a b = tt
All-both (k ∷ ks) f a b = (f k a.0 b.0, All-both ks f a.1 b.1)

All-without :
    (P : Claim → Type 0) (xs ys : List Claim) (k : Claim) → All P (xs ++ k ∷ ys) → All P (xs ++ ys)
All-without P [] ys k a = a.1
All-without P (x ∷ xs) ys k a = (a.0, All-without P xs ys k a.1)

Distinct-without : (xs ys : List Claim) (k : Claim) → Distinct (xs ++ k ∷ ys) → Distinct (xs ++ ys)
Distinct-without [] ys k d = d.1
Distinct-without (x ∷ xs) ys k d =
    (All-without (λ c. c.job.id ≢ x.job.id) xs ys k d.0, Distinct-without xs ys k d.1)

step-acquire :
    (env : Env) (w : String) (stale : ℕ) (m : Memory)
    → Commands.step env (Commands.Command.acquire_next_job w stale) m
      ≡ (acquire_next_job env w stale m).1
unfolding Commands.step
step-acquire env w stale m = refl

turn-IsSound :
    (s : System) (env : Env) (k : Claim) (m : Memory)
    → acquire_next_job env s.process.instance_id (stale_after s.process) s.memory ≡ (ok (some k), m)
    → IsSound s
    → IsSound (record { process = record s.process { flying = k ∷ s.process.flying }; memory = m })
turn-IsSound s env k m e v =
    let w = s.process.instance_id in
    let stale = stale_after s.process in
    let c = acquire_next_job-IsClaimOf env w stale s.memory m k v.keyed e in
    let kid : k.job.id ≡ c.job.id = ap (λ (j : ErasureJob). j.id) c.result in
    let apart : All (λ (x : Claim). x.job.id ≢ k.job.id) s.process.flying =
      All-imply s.process.flying
        (λ x mine same.
          mine-not-IsClaimable env w w 0 stale s.memory c.job x.job.id (inl refl) mine c.stored
            c.claimable (same ∙ kid))
        v.mine in
    record {
      keyed =
          subst (λ (p : Memory). IsKeyed p.jobs)
            (step-acquire env w stale s.memory ∙ ap (λ p. p.1) e)
            (step-IsKeyed env (Commands.Command.acquire_next_job w stale) s.memory v.keyed);
      mine =
          subst (λ t. All (λ (x : Claim). IsMine w 0 t x.job.id) (k ∷ s.process.flying))
            (sym c.jobs)
            (
              subst (λ (j : ErasureJob). IsMine w 0 (put c.job.id j s.memory.jobs) k.job.id)
                  (sym c.result)
                  (subst (IsMine w 0 (put c.job.id (claimed env w c.job) s.memory.jobs)) (sym kid)
                    (claimed-IsMine env w c.job.id 0 c.job s.memory.jobs (omega arith))),
              All-both s.process.flying
                  (λ x n mine.
                    other-IsMine w 0 x.job.id c.job.id k.job s.memory.jobs
                      (λ same. n (same ∙ sym kid)) mine)
                  apart v.mine,
            );
      apart = (apart, v.apart);
    }

Step-IsSound : {s t : System} → Step s t → IsSound s → IsSound t
unfolding start cancel set_reclaim_immediately
Step-IsSound {s} (Step.turn env k l e) v = turn-IsSound s env k _ e v
Step-IsSound {s} (Step.land before after k e) v = record {
  keyed = v.keyed;
  mine =
      All-without (λ (x : Claim). IsMine s.process.instance_id 0 s.memory.jobs x.job.id) before
        after k
        (subst (All (λ (x : Claim). IsMine s.process.instance_id 0 s.memory.jobs x.job.id)) e
          v.mine);
  apart = Distinct-without before after k (subst Distinct e v.apart);
}
Step-IsSound (Step.check l) v = record { keyed = v.keyed; mine = v.mine; apart = v.apart }
Step-IsSound (Step.checked n e) v = record { keyed = v.keyed; mine = v.mine; apart = v.apart }
Step-IsSound Step.started v = record { keyed = v.keyed; mine = v.mine; apart = v.apart }
Step-IsSound Step.cancelled v = record { keyed = v.keyed; mine = v.mine; apart = v.apart }
Step-IsSound (Step.switched b) v = record { keyed = v.keyed; mine = v.mine; apart = v.apart }
Step-IsSound {s} (Step.call env cmd f) v = record {
  keyed = step-IsKeyed env cmd s.memory v.keyed;
  mine =
      All-imply s.process.flying
        (λ x. step-IsMine s.process.instance_id 0 x.job.id env cmd s.memory (omega arith) f) v.mine;
  apart = v.apart;
}

Reach-IsSound :
    (name suffix : String) (workers stale : ℕ) (m : Memory) {s : System}
    → IsKeyed m.jobs
    → Reach name suffix workers stale m s
    → IsSound s
unfolding new_process
Reach-IsSound name suffix workers stale m k Reach.begin = record {
  keyed = k;
  mine = tt;
  apart = tt;
}
Reach-IsSound name suffix workers stale m k (Reach.next r st) =
    Step-IsSound st (Reach-IsSound name suffix workers stale m k r)

-- A process that is the only one to claim jobs of its store never has one job in flight twice,
-- whatever order its turns, its goroutines, the switches and the service's calls come in.
pub Reach-Distinct :
    (name suffix : String) (workers stale : ℕ) (m : Memory) {s : System}
    → IsKeyed m.jobs
    → Reach name suffix workers stale m s
    → Distinct s.process.flying
Reach-Distinct name suffix workers stale m k r =
    (Reach-IsSound name suffix workers stale m k r).apart

-- Nothing is left to claim by the clock of turn `i`.
abbrev pub NothingWaits : (ℕ → Env) → System → ℕ → Type 0
NothingWaits env s i =
    All
      (λ j. ¬ IsClaimable s.memory (caller (env i) s.process.instance_id (stale_after s.process)) j)
      (values s.memory.jobs)

-- A round of fillSlots that nothing interrupts ends with every slot taken or with nothing left to
-- claim, and it takes no more slots than there are.
pub fill_slots-full :
    (env : ℕ → Env) (fuel turn : ℕ) (s : System)
    → held s.process ≤ s.process.workers
    → s.process.workers - held s.process < fuel
    → let s' = fill_slots env fuel turn s in
      (held s'.process ≡ s'.process.workers)
      ⊎ (held s'.process < s'.process.workers) × ((i : ℕ) × NothingWaits env s' i)
unfolding fill_slots
fill_slots-full env zero turn s h l = absurd (omega arith)
fill_slots-full env (suc fuel) turn s h l =
    let got = acquire_next_job (env turn) s.process.instance_id (stale_after s.process) s.memory in
    elim (Bool-cases (ltb (held s.process) s.process.workers)) [
      | inr b ↦ rw (b, fill_slots) (inl (ground arith))
      | inl b ↦
          rw (b, fill_slots)
            (elim (Result-cases got.0) [
              | inr (e, f) ↦ absurd (acquire_next_job-ok (env turn) _ _ s.memory e f)
              | inl (none, f) ↦
                  let idle =
                    acquire_next_job-idle (env turn) s.process.instance_id (stale_after s.process)
                      s.memory f in
                  rw f (
                    inr (
                      ltb→lt (held s.process) s.process.workers b,
                      (
                        turn,
                        subst (λ m. NothingWaits env (record s { memory = m }) turn) (sym idle.1)
                            idle.0,
                      ),
                    ))
              | inl (some k, f) ↦
                  rw f (fill_slots-full env fuel (suc turn) _ (ground arith) (ground arith))
            ])
    ]
