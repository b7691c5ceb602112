-- ===== src/Store/Claims.antt =====
-- What AcquireNextJob hands to a worker, against an independent description of a claimable job.
use xiesg0915_work.Prelude.{
  All-imply, ℕ, ◌*◌, ◌-◌, ◌<◌, ◌≤◌, String, true, ◌≡◌, ◌≢◌, refl, ◌⊎◌, inl, inr, eq_iff, none, some,
  List, [], ◌∷◌, Option, Bool-cases, subst, lookup, put, values, All, arith,
}
use xiesg0915_work.Result.{ok}
use xiesg0915_work.Domain.Status.{JobStatus}
use xiesg0915_work.Domain.Entities.{ErasureJob}
use xiesg0915_work.Store.State.{Memory, Env}
use xiesg0915_work.Store.Keyed.{IsKeyed, values-lookup}
use xiesg0915_work.Store.Acquire.{
  Claim, Caller, heartbeat, is_orphan, takes, pick_job, claimed, disk_or_zero, acquire_next_job,
}

-- The owner of a started job is gone, in the eyes of this caller.
pub record IsOrphaned (m : Memory) (c : Caller) (j : ErasureJob) : Type 0 where
  pub started : (j.status ≡ JobStatus.running) ⊎ (j.status ≡ JobStatus.verifying)
  pub foreign : j.locked_by ≢ c.worker
  pub gone :
      (c.stale_after_sec ≡ 0)
      ⊎ (heartbeat m j ≡ 0)
      ⊎ (c.stale_after_sec * 1000000000 < c.now - heartbeat m j)

-- A job that a caller may claim: it is queued, or its owner is gone.
abbrev pub IsClaimable : Memory → Caller → ErasureJob → Type 0
IsClaimable m c j = (j.status ≡ JobStatus.pending) ⊎ IsOrphaned m c j

is_orphan-IsOrphaned :
    (m : Memory) (c : Caller) (j : ErasureJob)
    → (j.status ≡ JobStatus.running) ⊎ (j.status ≡ JobStatus.verifying)
    → is_orphan m c j ≡ true
    → IsOrphaned m c j
unfolding is_orphan
is_orphan-IsOrphaned m c j s h = record {
  started = s;
  foreign = λ e. ground (arith, eq_iff j.locked_by c.worker);
  gone = ground (arith, eq_iff j.locked_by c.worker);
}

-- What the loop takes is claimable.
takes-IsClaimable :
    (s : JobStatus) (m : Memory) (c : Caller) (pick : Option ErasureJob) (j : ErasureJob)
    → j.status ≡ s
    → takes s m c pick j ≡ true
    → IsClaimable m c j
unfolding takes
takes-IsClaimable JobStatus.pending m c pick j e h = inl e
takes-IsClaimable JobStatus.running m c pick j e h = inr (is_orphan-IsOrphaned m c j (inl e) h)
takes-IsClaimable JobStatus.verifying m c pick j e h = inr (is_orphan-IsOrphaned m c j (inr e) h)
takes-IsClaimable _ m c pick j e h = cc

-- A claimable job is taken where nothing was picked before.
IsClaimable-takes :
    (s : JobStatus) (m : Memory) (c : Caller) (j : ErasureJob)
    → j.status ≡ s
    → IsClaimable m c j
    → takes s m c none j ≡ true
unfolding takes
IsClaimable-takes JobStatus.pending m c j e h = ground arith
IsClaimable-takes s m c j e (inl h) = ground arith
IsClaimable-takes s m c j e (inr h) =
    ground (arith, eq_iff j.locked_by c.worker, h.started, h.foreign, h.gone)

-- What holds of an optional job, if there is one.
abbrev pub IfPicked : (ErasureJob → Type 0) → Option ErasureJob → Type 0
IfPicked P none = Unit
IfPicked P (some j) = P j

module _ (m : Memory) (c : Caller) where
  pick_job-IfPicked :
      (P : ErasureJob → Type 0) (pick : Option ErasureJob) (js : List ErasureJob)
      → All (λ j. IsClaimable m c j → P j) js
      → IfPicked P pick
      → IfPicked P (pick_job m c pick js)
  unfolding pick_job
  pick_job-IfPicked P pick [] a h = h
  pick_job-IfPicked P pick (j ∷ js) a h = elim (Bool-cases (takes j.status m c pick j)) [
    | inl t ↦
        rw t
          (pick_job-IfPicked P (some j) js a.1 (a.0 (takes-IsClaimable j.status m c pick j refl t)))
    | inr t ↦ rw t (pick_job-IfPicked P pick js a.1 h)
  ]

  pick_job-ne-none : (p : ErasureJob) (js : List ErasureJob) → pick_job m c (some p) js ≢ none
  unfolding pick_job
  pick_job-ne-none p [] h = cc
  pick_job-ne-none p (j ∷ js) h = elim (Bool-cases (takes j.status m c (some p) j)) [
    | inl t ↦ pick_job-ne-none j js (rw t at h)
    | inr t ↦ pick_job-ne-none p js (rw t at h)
  ]

  pick_job-none :
      (js : List ErasureJob) → pick_job m c none js ≡ none → All (λ j. ¬ IsClaimable m c j) js
  unfolding pick_job
  pick_job-none [] h = tt
  pick_job-none (j ∷ js) h = elim (Bool-cases (takes j.status m c none j)) [
    | inl t ↦ absurd (pick_job-ne-none j js (rw t at h))
    | inr t ↦ (λ e. cc (t, IsClaimable-takes j.status m c j refl e), pick_job-none js (rw t at h))
  ]

abbrev pub caller : Env → String → ℕ → Caller
caller env worker stale = record { now = env.now; worker = worker; stale_after_sec = stale }

-- The claim `k` of a worker leads from `m` to `m'`: a stored claimable job got the worker's lock,
-- and it runs if it was queued.
pub record IsClaimOf (env : Env) (w : String) (stale : ℕ) (m : Memory) (k : Claim) (m' : Memory)
    : Type 0 where
  pub job : ErasureJob
  pub stored : lookup job.id m.jobs ≡ some job
  pub claimable : IsClaimable m (caller env w stale) job
  pub result : k.job ≡ claimed env w job
  pub disk : k.disk ≡ disk_or_zero job.disk_id m
  pub jobs : m'.jobs ≡ put job.id k.job m.jobs

abbrev Picked : Env → String → ℕ → Memory → Option ErasureJob → Type 0
Picked env w stale m =
    IfPicked (λ j. IsClaimable m (caller env w stale) j × (lookup j.id m.jobs ≡ some j))

picked :
    (env : Env) (w : String) (stale : ℕ) (m : Memory) (o : Option ErasureJob)
    → IsKeyed m.jobs
    → pick_job m (caller env w stale) none (values m.jobs) ≡ o
    → Picked env w stale m o
picked env w stale m o h e = subst (Picked env w stale m) e (
    pick_job-IfPicked m (caller env w stale) _ none (values m.jobs)
      (All-imply (values m.jobs) (λ j found c. (c, found)) (values-lookup m.jobs h)) tt)

claim_of :
    (env : Env) (w : String) (stale : ℕ) (m m' : Memory) (k : Claim) (o : Option ErasureJob)
    → pick_job m (caller env w stale) none (values m.jobs) ≡ o
    → Picked env w stale m o
    → acquire_next_job env w stale m ≡ (ok (some k), m')
    → IsClaimOf env w stale m k m'
unfolding acquire_next_job
claim_of env w stale m m' k none e p h = ground (arith, e)
claim_of env w stale m m' k (some j) e p h = record {
  job = j;
  stored = p.1;
  claimable = p.0;
  result = ground (arith, e, p.1);
  disk = ground (arith, e, p.1);
  jobs = ground (arith, e, p.1);
}

-- A claim that AcquireNextJob returns is a stored job that was queued or whose owner is gone, now
-- locked by the caller and running if it was queued, with its disk; nothing else in the job table
-- changes.
pub acquire_next_job-IsClaimOf :
    (env : Env) (w : String) (stale : ℕ) (m m' : Memory) (k : Claim)
    → IsKeyed m.jobs
    → acquire_next_job env w stale m ≡ (ok (some k), m')
    → IsClaimOf env w stale m k m'
acquire_next_job-IsClaimOf env w stale m m' k h e =
    claim_of env w stale m m' k _ refl (picked env w stale m _ h refl) e

idle_of :
    (env : Env) (w : String) (stale : ℕ) (m : Memory) (o : Option ErasureJob)
    → pick_job m (caller env w stale) none (values m.jobs) ≡ o
    → (acquire_next_job env w stale m).0 ≡ ok none
    → (o ≡ none) × ((acquire_next_job env w stale m).1 ≡ m)
unfolding acquire_next_job
idle_of env w stale m none e h = (refl, ground (arith, e))
idle_of env w stale m (some j) e h = ground (arith, e)

-- AcquireNextJob comes back empty-handed only where no stored job is queued or without its owner,
-- and then it changes nothing.
pub acquire_next_job-idle :
    (env : Env) (w : String) (stale : ℕ) (m : Memory)
    → (acquire_next_job env w stale m).0 ≡ ok none
    → All (λ j. ¬ IsClaimable m (caller env w stale) j) (values m.jobs)
      × ((acquire_next_job env w stale m).1 ≡ m)
acquire_next_job-idle env w stale m h =
    let r = idle_of env w stale m (pick_job m (caller env w stale) none (values m.jobs)) refl h in
    (pick_job-none m (caller env w stale) (values m.jobs) r.0, r.1)

pub heartbeat-ge : (m : Memory) (j : ErasureJob) → j.locked_at ≤ heartbeat m j
unfolding heartbeat
heartbeat-ge m j = ground arith
