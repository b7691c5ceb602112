-- ===== src/Erasure/Verify.antt =====
-- internal/erasure/engine.go: verify, and Run and Verify as a whole. A nil progress function is one
-- that returns no error and changes nothing.
use xiesg0915_work.Prelude.{
  ℕ, zero, suc, ◌+◌, ◌-◌, ◌*◌, true, false, ◌||◌, Option, none, some, List, [], ◌∷◌, ◌++◌, ◌==◌,
  drop, eqb, ltb, leb, if◌then◌else◌,
}
use xiesg0915_work.Domain.Entities.{PassSpec, SamplePoint, VerifyResult}
use xiesg0915_work.Erasure.Stream.{stream_at}
use xiesg0915_work.Erasure.Device.{
  read_at, RunError, Fault, fault, Progress, World, unknown_pattern, zero_size, out_of_fuel,
  verifying,
}
use xiesg0915_work.Erasure.Samples.{Span, sample_ranges}
use xiesg0915_work.Erasure.Engine.{
  Options, Externals, with_defaults, last_pass, chunk_at, count_mismatches, Rig, report,
  write_passes,
}

-- The variables of the loop: the counts of the result, the samples, and sinceReport.
pub record Tally : Type 0 where
  pub bytes : ℕ
  pub mismatches : ℕ
  pub samples : List SamplePoint
  pub since_report : ℕ

abbrev pub Verified : Type 0 → Type 0
Verified S = Option RunError × Tally × Rig S

abbrev pub no_pass : PassSpec
no_pass = record { index = 0; pattern = "" }

abbrev pub final_pass : Options → PassSpec
final_pass opt = last_pass no_pass opt.standard.passes

module _ {S : Type 0} (x : Externals) (w : World)
    (on_progress : Progress → S → Option Fault × S) where
  -- One round: the check, the read, the stream and the comparison.
  unfoldable pub compare_chunk : Options → PassSpec → (offset n : ℕ) → Tally → Rig S → Verified S
  unfolding stream_at count_mismatches
  compare_chunk opt final offset n t r = elim (w.check_verify offset) [
    | some e ↦ (some (fault e), t, r)
    | none ↦ elim (w.read_fault offset) [
      | some e ↦ (some (fault e), t, r)
      | none ↦ elim (stream_at x.keystream final.pattern opt.job_id final.index n offset) [
        | none ↦ (some unknown_pattern, t, r)
        | some want ↦ (
          none,
          record t {
            bytes = t.bytes + n;
            mismatches = t.mismatches + count_mismatches (read_at offset r.device) want n;
            since_report = t.since_report + n;
          },
          r,
        )
      ]
    ]
  ]

  -- The report behind a round, when it is due.
  unfoldable pub report_verify : Options → PassSpec → (offset end : ℕ) → Tally → Rig S → Verified S
  report_verify opt final offset end t r =
      elim (leb (opt.checkpoint_step * 4) t.since_report || leb end offset) [
        | false ↦ (none, t, r)
        | true ↦
            let told =
              report x w on_progress
                (record {
                  pass = final.index;
                  offset = offset;
                  total = r.device.size;
                  phase = verifying;
                })
                r in
            (told.0, record t { since_report = 0 }, told.1)
      ]

  -- `for offset < rn.end`, on fuel.
  unfoldable pub verify_loop :
      Options → PassSpec → (fuel offset end : ℕ) → Tally → Rig S → Verified S
  unfolding compare_chunk report_verify
  verify_loop opt final zero offset end t r = (some out_of_fuel, t, r)
  verify_loop opt final (suc fuel) offset end t r = elim (ltb offset end) [
    | false ↦ (none, t, r)
    | true ↦
        let n = chunk_at opt.chunk_size end offset in
        let seen = compare_chunk opt final offset n t r in
        elim seen.0 [
          | some e ↦ seen
          | none ↦
              let told = report_verify opt final (offset + n) end seen.1 seen.2 in
              elim told.0 [
                | some e ↦ told
                | none ↦ verify_loop opt final fuel (offset + n) end told.1 told.2
              ]
        ]
  ]

  -- The sample point that a sampled verification keeps of a range.
  abbrev pub sampled : Options → Span → Tally → Tally
  sampled opt rn t =
      if opt.standard.verify_mode == "sample"
      then record t {
        samples = t.samples ++ record { offset = rn.start; extent = rn.end - rn.start } ∷ [];
      }
      else t

  unfoldable pub verify_ranges : Options → PassSpec → List Span → Tally → Rig S → Verified S
  verify_ranges opt final [] t r = (none, t, r)
  verify_ranges opt final (rn ∷ rest) t r =
      let seen = verify_loop opt final (suc (rn.end - rn.start)) rn.start rn.end t r in
      elim seen.0 [
        | some e ↦ seen
        | none ↦ verify_ranges opt final rest (sampled opt rn seen.1) seen.2
      ]

  abbrev pub ranges_of : Options → ℕ → Option (List Span)
  ranges_of opt size =
      if opt.standard.verify_mode == "sample"
      then sample_ranges x.generator size (x.scaled size) opt.job_id
      else some (record { start = 0; end = size } ∷ [])

  -- The loop over the ranges; where their choice has used up its fuel, nothing is compared.
  abbrev pub verify_chosen : Options → Option (List Span) → Tally → Rig S → Verified S
  verify_chosen opt none t r = (some out_of_fuel, t, r)
  verify_chosen opt (some rs) t r = verify_ranges opt (final_pass opt) rs t r

  -- The result that a verification returns, with its error.
  abbrev pub Finished : Type 0
  Finished = Option RunError × VerifyResult × Rig S

  unfoldable pub verify : Options → Rig S → Finished
  verify opt r =
      let seen =
        verify_chosen opt (ranges_of opt r.device.size)
          (record { bytes = 0; mismatches = 0; samples = []; since_report = 0 }) r in
      (
        seen.0,
        record {
          mode = opt.standard.verify_mode;
          bytes = seen.1.bytes;
          mismatches = seen.1.mismatches;
          samples = seen.1.samples;
        },
        seen.2,
      )

  abbrev pub no_result : VerifyResult
  no_result = record { mode = ""; bytes = 0; mismatches = 0; samples = [] }

  -- `size, err := dev.Size()` and the two checks that Run and Verify begin with.
  abbrev pub sized : Rig S → Finished → Finished
  sized r rest = elim w.size_fault [
    | some e ↦ (some (fault e), no_result, r)
    | none ↦ if eqb r.device.size 0 then (some zero_size, no_result, r) else rest
  ]

  -- Verify
  unfoldable pub verify_only : Options → Rig S → Finished
  verify_only opt r = sized r (verify (with_defaults opt) r)

  -- Run
  unfoldable pub run : Options → Rig S → Finished
  run opt r =
      let opt' = with_defaults opt in
      let written =
        write_passes x w on_progress opt' opt'.resume_pass
          (drop opt'.resume_pass opt'.standard.passes) r in
      sized r
        (elim written.0 [ some e ↦ (some e, no_result, written.1) | none ↦ verify opt' written.1 ])
