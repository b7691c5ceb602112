-- ===== src/Worker/Slots.antt =====
-- internal/worker/worker.go: the slots of a process and the jobs in flight, over any events.
use xiesg0915_work.Prelude.{ℕ, ◌≡◌, ◌≢◌, ap, String, some, arith}
use xiesg0915_work.Result.{Error, ok, err}
use xiesg0915_work.Store.State.{Memory, Env}
use xiesg0915_work.Store.Acquire.{Claim, acquire_next_job}

pub acquire_next_job-ok :
    (env : Env) (w : String) (stale : ℕ) (m : Memory) (e : Error)
    → (acquire_next_job env w stale m).0 ≢ err e
unfolding acquire_next_job
acquire_next_job-ok env w stale m e h = ground arith

pub got_job :
    (env : Env) (w : String) (stale : ℕ) (m : Memory) (k : Claim)
    → (acquire_next_job env w stale m).0 ≡ ok (some k)
    → acquire_next_job env w stale m ≡ (ok (some k), (acquire_next_job env w stale m).1)
got_job env w stale m k e = ap (λ y. (y, (acquire_next_job env w stale m).1)) e
