-- ===== src/Erasure/Engine.antt =====
-- internal/erasure/engine.go: Run, Verify, overwrite, verify and countMismatches. A run acts on a
-- rig, the device beside the caller's own state `S`, which the progress function changes.
use xiesg0915_work.Prelude.{
  ℕ, zero, suc, ◌+◌, ◌-◌, String, true, false, ◌&&◌, ◌||◌, Option, none, some, List, [], ◌∷◌, eqb,
  ltb, leb, if◌then◌else◌,
}
use xiesg0915_work.Domain.Entities.{PassSpec, Standard}
use xiesg0915_work.Erasure.Stream.{Buffer, Keystream, stream_at}
use xiesg0915_work.Erasure.Device.{
  Device, write_at, sync, RunError, Fault, fault, Progress, World, unknown_pattern, out_of_fuel,
  overwriting,
}
use xiesg0915_work.Erasure.Samples.{Generator}

pub record Options : Type 0 where
  pub standard : Standard
  pub job_id : String
  pub chunk_size : ℕ
  pub checkpoint_step : ℕ
  pub resume_pass : ℕ
  pub resume_offset : ℕ

-- The external parts of a run: the cipher, the random generator and the product of the size and
-- the sample fraction.
pub record Externals : Type 0 where
  pub keystream : Keystream
  pub generator : Generator
  pub scaled : ℕ → ℕ

-- The defaults that Run and Verify put in place of sizes that are not positive.
unfoldable pub with_defaults : Options → Options
with_defaults opt = record opt {
  chunk_size = if eqb opt.chunk_size 0 then 4194304 else opt.chunk_size;
  checkpoint_step = if eqb opt.checkpoint_step 0 then 67108864 else opt.checkpoint_step;
}

-- The last element of the passes; the first argument stands for the panic on an empty list.
abbrev pub last_pass : PassSpec → List PassSpec → PassSpec
last_pass p [] = p
last_pass p (q ∷ qs) = last_pass q qs

-- The bytes of the next chunk: as many as the buffer has, up to `end`.
abbrev pub chunk_at : (chunk end offset : ℕ) → ℕ
chunk_at chunk end offset = if ltb end (offset + chunk) then end - offset else chunk

-- countMismatches over the first n bytes.
unfoldable pub count_mismatches : Buffer → Buffer → ℕ → ℕ
count_mismatches a b zero = 0
count_mismatches a b (suc n) =
    let rest = count_mismatches a b n in if eqb (a n) (b n) then rest else suc rest

pub record Rig (S : Type 0) : Type 0 where
  pub device : Device
  pub state : S

-- What a part of a run returns: its error, if any, and the rig that it leaves.
abbrev pub Outcome : Type 0 → Type 0
Outcome S = Option RunError × Rig S

abbrev pub faulty : Option Fault → Option RunError
faulty none = none
faulty (some e) = some (fault e)

module _ {S : Type 0} (x : Externals) (w : World)
    (on_progress : Progress → S → Option Fault × S) where
  -- A call of the progress function.
  abbrev pub report : Progress → Rig S → Outcome S
  report p r = (faulty (on_progress p r.state).0, record r { state = (on_progress p r.state).1 })

  -- `dev.Sync()` at a checkpoint and the report behind it.
  unfoldable pub checkpoint : PassSpec → ℕ → Rig S → Outcome S
  checkpoint spec offset r = elim (w.sync_fault spec.index offset) [
    | some e ↦ (some (fault e), r)
    | none ↦
        report
          (record {
            pass = spec.index;
            offset = offset;
            total = r.device.size;
            phase = overwriting;
          })
          (record r { device = sync r.device })
  ]

  -- `dev.WriteAt(chunk, offset)`
  unfoldable pub write_chunk : PassSpec → (offset n : ℕ) → Buffer → Rig S → Outcome S
  write_chunk spec offset n buf r = elim (w.write_fault spec.index offset) [
    | some (e, part) ↦ (
      some (fault e),
      record r { device = write_at offset (if ltb part n then part else n) buf r.device },
    )
    | none ↦ (none, record r { device = write_at offset n buf r.device })
  ]

  -- One round of the loop over a pass: the check, the stream, the write.
  unfoldable pub fill_chunk : Options → PassSpec → (offset n : ℕ) → Rig S → Outcome S
  unfolding write_chunk stream_at
  fill_chunk opt spec offset n r = elim (w.check spec.index offset) [
    | some e ↦ (some (fault e), r)
    | none ↦ elim (stream_at x.keystream spec.pattern opt.job_id spec.index n offset) [
      | none ↦ (some unknown_pattern, r)
      | some buf ↦ write_chunk spec offset n buf r
    ]
  ]

  -- `for offset < size`, on fuel.
  unfoldable pub write_loop :
      Options → PassSpec → (fuel offset last_checkpoint : ℕ) → Rig S → Outcome S
  unfolding fill_chunk checkpoint
  write_loop opt spec zero offset last r = (some out_of_fuel, r)
  write_loop opt spec (suc fuel) offset last r = elim (ltb offset r.device.size) [
    | false ↦ (none, r)
    | true ↦
        let n = chunk_at opt.chunk_size r.device.size offset in
        let filled = fill_chunk opt spec offset n r in
        elim filled.0 [
          | some e ↦ (some e, filled.1)
          | none ↦
              elim (leb opt.checkpoint_step (offset + n - last) || leb r.device.size (offset + n)) [
                | false ↦ write_loop opt spec fuel (offset + n) last filled.1
                | true ↦
                    let saved = checkpoint spec (offset + n) filled.1 in
                    elim saved.0 [
                      | some e ↦ (some e, saved.1)
                      | none ↦ write_loop opt spec fuel (offset + n) (offset + n) saved.1
                    ]
              ]
        ]
  ]

  -- One pass from `start`, with the Sync at its end.
  unfoldable pub write_pass : Options → PassSpec → (start : ℕ) → Rig S → Outcome S
  unfolding write_loop
  write_pass opt spec start r =
      let written = write_loop opt spec (suc r.device.size) start start r in
      elim written.0 [
        | some e ↦ (some e, written.1)
        | none ↦ elim (w.end_sync_fault spec.index) [
          | some e ↦ (some (fault e), written.1)
          | none ↦ (none, record written.1 { device = sync written.1.device })
        ]
      ]

  -- Where a pass begins: the resumed one at its offset.
  abbrev pub start_of : Options → ℕ → ℕ
  start_of opt pass_idx =
      if eqb pass_idx opt.resume_pass && ltb 0 opt.resume_offset then opt.resume_offset else 0

  -- The loop over the passes from number `pass_idx` on, which are those of the list.
  unfoldable pub write_passes : Options → (pass_idx : ℕ) → List PassSpec → Rig S → Outcome S
  unfolding write_pass
  write_passes opt pass_idx [] r = (none, r)
  write_passes opt pass_idx (spec ∷ rest) r =
      elim (eqb pass_idx opt.resume_pass
        && ltb 0 opt.resume_offset
        && leb r.device.size opt.resume_offset) [
          | true ↦ write_passes opt (suc pass_idx) rest r
          | false ↦
              let written = write_pass opt spec (start_of opt pass_idx) r in
              elim written.0 [
                | some e ↦ (some e, written.1)
                | none ↦ write_passes opt (suc pass_idx) rest written.1
              ]
        ]
