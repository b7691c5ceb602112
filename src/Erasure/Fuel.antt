-- ===== src/Erasure/Fuel.antt =====
-- The loops of the engine end: the fuel that they are given is enough.
use xiesg0915_work.Prelude.{
  ℕ, zero, suc, ◌+◌, ◌-◌, ◌<◌, ◌≡◌, ◌≢◌, refl, inl, inr, ◌&&◌, ◌||◌, Option, none, some, String,
  List, [], ◌∷◌, ◌++◌, length, length-append, ◌≤◌, ◌==◌, drop, eqb, ltb, leb, arith, sym, ◌∙◌,
  subst, Bool-cases, Option-cases, ltb→lt,
}
use xiesg0915_work.Domain.Entities.{PassSpec}
use xiesg0915_work.Erasure.Device.{Fault, out_of_fuel, Progress, World}
use xiesg0915_work.Erasure.Samples.{
  Span, Generator, min64, max64, window, more_spans, sample_ranges,
}
use xiesg0915_work.Erasure.Engine.{
  Options, Externals, Rig, chunk_at, with_defaults, checkpoint, fill_chunk, write_loop, write_pass,
  write_passes, start_of,
}
use xiesg0915_work.Erasure.Verify.{
  Tally, compare_chunk, report_verify, verify_loop, verify_ranges, final_pass, ranges_of,
  verify_chosen, verify, run, sampled,
}
use xiesg0915_work.Erasure.Wipe.{fill_chunk-size, checkpoint-device}

-- A round makes progress and leaves less to do.
shorter :
    (c size o fuel : ℕ)
    → 0 < c
    → o < size
    → size - o < suc fuel
    → size - (o + chunk_at c size o) < fuel
shorter c size o fuel p h l = ground arith

-- The loop over the samples has its fuel left when it leaves behind the 4096th span.
more_spans-fuel :
    (gen : Generator) (seed size target fuel draw covered : ℕ) (spans : List Span)
    → length spans ≤ 4096
    → 4096 < length spans + fuel
    → more_spans gen seed size target fuel draw covered spans ≢ none
unfolding more_spans
more_spans-fuel gen seed size target zero draw covered spans l f = absurd (omega arith)
more_spans-fuel gen seed size target (suc fuel) draw covered spans l f =
    let start = gen seed draw (max64 1 (size - window)) in
    let end = min64 (start + window) size in
    let s : Span = record { start = start; end = end } in
    let spans' = spans ++ s ∷ [] in
    let longer = length-append spans (s ∷ []) in
    elim (Bool-cases (ltb covered target)) [
      | inr b ↦ rw b (λ h. cc)
      | inl b ↦ rw b (elim (Bool-cases (ltb 4096 (length spans'))) [
        | inl c ↦ rw c (λ h. cc)
        | inr c ↦ rw c (
            more_spans-fuel gen seed size target fuel (suc draw) (covered + (end - start)) spans'
              (ground (arith, c)) (omega (arith, longer)))
      ])
    ]

sample_ranges-fuel :
    (gen : Generator) (size scaled : ℕ) (id : String) → sample_ranges gen size scaled id ≢ none
unfolding sample_ranges
sample_ranges-fuel gen size scaled id =
    let head : Span = record { start = 0; end = min64 window size } in
    let tail : Span = record { start = size - window; end = size } in
    more_spans-fuel gen _ size _ 4096 0 _ (head ∷ tail ∷ []) (omega arith) (omega arith)

ranges_of-fuel :
    {S : Type 0} (x : Externals) (w : World) (on_progress : Progress → S → Option Fault × S)
    (opt : Options) (size : ℕ)
    → ranges_of x w on_progress opt size ≢ none
ranges_of-fuel x w on_progress opt size = elim (Bool-cases (opt.standard.verify_mode == "sample")) [
  | inl b ↦ rw b (sample_ranges-fuel x.generator size (x.scaled size) opt.job_id)
  | inr b ↦ rw b (λ h. cc)
]

module _ {S : Type 0} (x : Externals) (w : World) (on_progress : Progress → S → Option Fault × S)
    (opt : Options) (pos : 0 < opt.chunk_size) where
  fill_chunk-fuel :
      (spec : PassSpec) (o n : ℕ) (r : Rig S)
      → (fill_chunk x w on_progress opt spec o n r).0 ≢ some out_of_fuel
  unfolding fill_chunk
  fill_chunk-fuel spec o n r h = ground arith

  checkpoint-fuel :
      (spec : PassSpec) (o : ℕ) (r : Rig S)
      → (checkpoint x w on_progress spec o r).0 ≢ some out_of_fuel
  unfolding checkpoint
  checkpoint-fuel spec o r h = ground arith

  write_loop-fuel :
      (spec : PassSpec) (fuel o last size : ℕ) (r : Rig S)
      → r.device.size ≡ size
      → size - o < fuel
      → (write_loop x w on_progress opt spec fuel o last r).0 ≢ some out_of_fuel
  unfolding write_loop
  write_loop-fuel spec zero o last size r v l = absurd (omega arith)
  write_loop-fuel spec (suc fuel) o last size r v l =
      let n = chunk_at opt.chunk_size r.device.size o in
      let filled = fill_chunk x w on_progress opt spec o n r in
      let saved = checkpoint x w on_progress spec (o + n) filled.1 in
      let due = leb opt.checkpoint_step (o + n - last) || leb r.device.size (o + n) in
      let f' = fill_chunk-size x w on_progress opt size spec o n r ∙ v in
      let s' = (checkpoint-device x w on_progress opt size spec (o + n) filled.1).0 ∙ f' in
      elim (Bool-cases (ltb o r.device.size)) [
        | inr b ↦ rw (b, write_loop) (λ h. cc)
        | inl b ↦
            let less =
              subst (λ (s : ℕ). s - (o + n) < fuel) v
                (shorter opt.chunk_size r.device.size o fuel pos (ltb→lt o r.device.size b)
                  (subst (λ (s : ℕ). s - o < suc fuel) (sym v) l)) in
            rw (b, write_loop)
              (elim (Option-cases filled.0) [
                | inr (e, f) ↦ rw f (λ h. fill_chunk-fuel spec o n r (f ∙ h))
                | inl f ↦ rw f (elim (Bool-cases due) [
                  | inr d ↦ rw d (write_loop-fuel spec fuel (o + n) last size filled.1 f' less)
                  | inl d ↦ rw d (elim (Option-cases saved.0) [
                    | inr (e, g) ↦ rw g (λ h. checkpoint-fuel spec (o + n) filled.1 (g ∙ h))
                    | inl g ↦ rw g (write_loop-fuel spec fuel (o + n) (o + n) size saved.1 s' less)
                  ])
                ])
              ])
      ]

  write_pass-fuel :
      (spec : PassSpec) (start : ℕ) (r : Rig S)
      → (write_pass x w on_progress opt spec start r).0 ≢ some out_of_fuel
  unfolding write_pass
  write_pass-fuel spec start r =
      let written = write_loop x w on_progress opt spec (suc r.device.size) start start r in
      let ends =
        write_loop-fuel spec (suc r.device.size) start start r.device.size r refl (omega arith) in
      elim (Option-cases written.0) [
        | inr (e, f) ↦ rw (f, write_pass) (λ h. ends (f ∙ h))
        | inl f ↦
            rw (f, write_pass)
              (elim (Option-cases (w.end_sync_fault spec.index)) [
                | inr (e, g) ↦ rw g (λ h. cc)
                | inl g ↦ rw g (λ h. cc)
              ])
      ]

  pub write_passes-fuel :
      (idx : ℕ) (ps : List PassSpec) (r : Rig S)
      → (write_passes x w on_progress opt idx ps r).0 ≢ some out_of_fuel
  unfolding write_passes
  write_passes-fuel idx [] r = λ h. cc
  write_passes-fuel idx (p ∷ ps) r =
      let skip =
        eqb idx opt.resume_pass && ltb 0 opt.resume_offset && leb r.device.size opt.resume_offset in
      let start = start_of x w on_progress opt idx in
      let written = write_pass x w on_progress opt p start r in
      elim (Bool-cases skip) [
        | inl b ↦ rw (b, write_passes) (write_passes-fuel (suc idx) ps r)
        | inr b ↦
            rw (b, write_passes)
              (elim (Option-cases written.0) [
                | inr (e, f) ↦ rw f (λ h. write_pass-fuel p start r (f ∙ h))
                | inl f ↦ rw f (write_passes-fuel (suc idx) ps written.1)
              ])
      ]

  compare_chunk-fuel :
      (spec : PassSpec) (o n : ℕ) (t : Tally) (r : Rig S)
      → (compare_chunk x w on_progress opt spec o n t r).0 ≢ some out_of_fuel
  unfolding compare_chunk
  compare_chunk-fuel spec o n t r h = ground arith

  report_verify-fuel :
      (spec : PassSpec) (o e : ℕ) (t : Tally) (r : Rig S)
      → (report_verify x w on_progress opt spec o e t r).0 ≢ some out_of_fuel
  unfolding report_verify
  report_verify-fuel spec o e t r h = ground arith

  verify_loop-fuel :
      (spec : PassSpec) (fuel o end : ℕ) (t : Tally) (r : Rig S)
      → end - o < fuel
      → (verify_loop x w on_progress opt spec fuel o end t r).0 ≢ some out_of_fuel
  unfolding verify_loop
  verify_loop-fuel spec zero o end t r l = absurd (omega arith)
  verify_loop-fuel spec (suc fuel) o end t r l =
      let n = chunk_at opt.chunk_size end o in
      let seen = compare_chunk x w on_progress opt spec o n t r in
      let told = report_verify x w on_progress opt spec (o + n) end seen.1 seen.2 in
      elim (Bool-cases (ltb o end)) [
        | inr b ↦ rw (b, verify_loop) (λ h. cc)
        | inl b ↦
            rw (b, verify_loop)
              (elim (Option-cases seen.0) [
                | inr (e, f) ↦ rw f (λ h. compare_chunk-fuel spec o n t r h)
                | inl f ↦ rw f (elim (Option-cases told.0) [
                  | inr (e, g) ↦ rw g (λ h. report_verify-fuel spec (o + n) end seen.1 seen.2 h)
                  | inl g ↦ rw g (
                      verify_loop-fuel spec fuel (o + n) end told.1 told.2
                        (shorter opt.chunk_size end o fuel pos (ltb→lt o end b) l))
                ])
              ])
      ]

  verify_ranges-fuel :
      (spec : PassSpec) (spans : List Span) (t : Tally) (r : Rig S)
      → (verify_ranges x w on_progress opt spec spans t r).0 ≢ some out_of_fuel
  unfolding verify_ranges
  verify_ranges-fuel spec [] t r = λ h. cc
  verify_ranges-fuel spec (s ∷ rest) t r =
      let seen = verify_loop x w on_progress opt spec (suc (s.end - s.start)) s.start s.end t r in
      elim (Option-cases seen.0) [
        | inr (e, f) ↦
            rw (f, verify_ranges)
              (λ h. verify_loop-fuel spec (suc (s.end - s.start)) s.start s.end t r (omega arith) h)
        | inl f ↦
            rw (f, verify_ranges)
              (verify_ranges-fuel spec rest (sampled x w on_progress opt s seen.1) seen.2)
      ]

  verify_chosen-fuel :
      (rs : Option (List Span)) (t : Tally) (r : Rig S)
      → rs ≢ none
      → (verify_chosen x w on_progress opt rs t r).0 ≢ some out_of_fuel
  verify_chosen-fuel none t r n = absurd (n refl)
  verify_chosen-fuel (some rs) t r n = verify_ranges-fuel (final_pass opt) rs t r

  verify-fuel : (r : Rig S) → (verify x w on_progress opt r).0 ≢ some out_of_fuel
  unfolding verify
  verify-fuel r = verify_chosen-fuel _ _ r (ranges_of-fuel x w on_progress opt r.device.size)

with_defaults-pos : (opt : Options) → 0 < (with_defaults opt).chunk_size
unfolding with_defaults
with_defaults-pos opt = ground arith

-- Every run of the engine ends by its own tests, whatever faults the device, the context and the
-- progress function come up with: the loops over chunks and the loop that chooses the samples never
-- use up their fuel.
pub run-ends :
    {S : Type 0} (x : Externals) (w : World) (on_progress : Progress → S → Option Fault × S)
    (opt : Options) (r : Rig S)
    → (run x w on_progress opt r).0 ≢ some out_of_fuel
unfolding run
run-ends x w on_progress opt r h =
    let opt' = with_defaults opt in
    let ps = drop opt'.resume_pass opt'.standard.passes in
    let written = write_passes x w on_progress opt' opt'.resume_pass ps r in
    ground (
      arith,
      write_passes-fuel x w on_progress opt' (with_defaults-pos opt) opt'.resume_pass ps r,
      verify-fuel x w on_progress opt' (with_defaults-pos opt) written.1,
    )
