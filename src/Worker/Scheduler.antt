-- ===== src/Worker/Scheduler.antt =====
-- internal/worker/worker.go: New, Start, Stop, SetReclaimImmediately and fillSlots. A process holds
-- one slot for each job in flight and one for each standalone verification; its goroutines and the
-- other callers of the store act between any two turns of the loop.
use xiesg0915_work.Prelude.{
  ℕ, zero, suc, ◌+◌, ◌<◌, ◌≡◌, ◌≢◌, String, Bool, true, false, none, some, List, [], ◌∷◌, ◌==◌,
  ◌++◌, length, lookup, ltb, if◌then◌else◌,
}
use Prim.Native.String
use xiesg0915_work.Result.{ok, err}
use xiesg0915_work.Domain.Status.{JobStatus}
use xiesg0915_work.Store.State.{Memory, Env, or_fresh}
use xiesg0915_work.Store.Acquire.{Claim, acquire_next_job}
use xiesg0915_work.Store.Commands
use xiesg0915_work.Store.Commands.{Command}

-- `instance` is the lock owner; `workers` and `stale_after_sec` are the configuration's.
pub record Process : Type 0 where
  pub name : String
  pub instance_id : String
  pub workers : ℕ
  pub stale_after_sec : ℕ
  pub reclaim_immediately : Bool
  pub running : Bool
  pub flying : List Claim
  pub verifying : ℕ

-- New: an empty name has a default, and the owner's name ends in eight random characters.
unfoldable pub new_process : (name suffix : String) (workers stale_after_sec : ℕ) → Process
new_process name suffix workers stale_after_sec =
    let base = if name == "" then "worker" else name in
    record {
      name = base;
      instance_id = Prim.Native.String.◌++◌ base (Prim.Native.String.◌++◌ "-" suffix);
      workers = workers;
      stale_after_sec = stale_after_sec;
      reclaim_immediately = false;
      running = false;
      flying = [];
      verifying = 0;
    }

-- Start: the loop runs, and the jobs of earlier processes are taken over at once.
unfoldable pub start : Process → Process
start p = record p { reclaim_immediately = true; running = true }

-- Stop and KillForDemo: the context is cancelled.
unfoldable pub cancel : Process → Process
cancel p = record p { running = false }

-- SetReclaimImmediately; the grace window ends by a call with `false`.
unfoldable pub set_reclaim_immediately : Bool → Process → Process
set_reclaim_immediately b p = record p { reclaim_immediately = b }

-- `len(w.sem)`, the slots that are taken.
abbrev pub held : Process → ℕ
held p = length p.flying + p.verifying

abbrev pub stale_after : Process → ℕ
stale_after p = if p.reclaim_immediately then 0 else p.stale_after_sec

pub record System : Type 0 where
  pub process : Process
  pub memory : Memory

-- The loop: `fuel` bounds the turns, and each turn reads the clock of its own.
unfoldable pub fill_slots : (ℕ → Env) → (fuel turn : ℕ) → System → System
fill_slots env zero turn s = s
fill_slots env (suc fuel) turn s = elim (ltb (held s.process) s.process.workers) [
  | false ↦ s
  | true ↦
      let got =
        acquire_next_job (env turn) s.process.instance_id (stale_after s.process) s.memory in
      elim got.0 [
        | err e ↦ record s { memory = got.1 }
        | ok none ↦ record s { memory = got.1 }
        | ok (some k) ↦ fill_slots env fuel (suc turn) (record {
          process = record s.process { flying = k ∷ s.process.flying };
          memory = got.1;
        })
      ]
]

-- A call that leaves this process's locks alone: a job is created under a new identifier, and no
-- call puts a job back into the queue or claims one for another process.
abbrev pub IsForeign : Env → Command → Memory → Type 0
IsForeign env (Command.create_job j) m = lookup (or_fresh j.id env.fresh_id) m.jobs ≡ none
IsForeign env (Command.acquire_next_job w stale) m = ⊥
IsForeign env (Command.save_progress id p o t s) m = s ≢ JobStatus.pending
IsForeign env (Command.complete_job id s msg r) m = s ≢ JobStatus.pending
IsForeign env _ m = Unit

-- One event of a process: a turn of the loop, a job's goroutine that ends and gives its slot back, a
-- standalone verification that takes a slot or gives it back, the switches, and any call of the
-- store by the goroutines and the service.
pub data Step (s : System) : System → Type 0 where
  turn :
      (env : Env) (k : Claim) {m : Memory}
      → held s.process < s.process.workers
      → acquire_next_job env s.process.instance_id (stale_after s.process) s.memory
        ≡ (ok (some k), m)
      → Step s (record { process = record s.process { flying = k ∷ s.process.flying }; memory = m })
  land :
      (before after : List Claim) (k : Claim)
      → s.process.flying ≡ before ++ k ∷ after
      → Step s (record s { process = record s.process { flying = before ++ after } })
  check :
      held s.process < s.process.workers
      → Step s (record s { process = record s.process { verifying = suc s.process.verifying } })
  checked :
      (n : ℕ)
      → s.process.verifying ≡ suc n
      → Step s (record s { process = record s.process { verifying = n } })
  started : Step s (record s { process = start s.process })
  cancelled : Step s (record s { process = cancel s.process })
  switched : (b : Bool) → Step s (record s { process = set_reclaim_immediately b s.process })
  call :
      (env : Env) (cmd : Command)
      → IsForeign env cmd s.memory
      → Step s (record s { memory = Commands.step env cmd s.memory })

-- The states that a new process over the store `m` can reach.
pub data Reach (name suffix : String) (workers stale : ℕ) (m : Memory) : System → Type 0 where
  begin :
      Reach name suffix workers stale m
        (record { process = new_process name suffix workers stale; memory = m })
  next :
      {s t : System}
      → Reach name suffix workers stale m s
      → Step s t
      → Reach name suffix workers stale m t
