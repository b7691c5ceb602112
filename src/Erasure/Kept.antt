-- ===== src/Erasure/Kept.antt =====
-- internal/erasure/engine.go: what a run keeps of its caller's state, and a verification of the rig.
use xiesg0915_work.Prelude.{
  Option, none, some, ℕ, zero, suc, ◌+◌, ◌*◌, ◌-◌, ◌&&◌, ◌||◌, ◌≡◌, subst, inl, inr, List, [], ◌∷◌,
  ltb, leb, eqb, Bool-cases, Option-cases, arith,
}
use xiesg0915_work.Domain.Entities.{PassSpec}
use xiesg0915_work.Erasure.Device.{Fault, Progress, World}
use xiesg0915_work.Erasure.Samples.{Span}
use xiesg0915_work.Erasure.Engine.{
  Options, Externals, Rig, chunk_at, checkpoint, fill_chunk, write_chunk, write_loop, write_pass,
  start_of, write_passes,
}
use xiesg0915_work.Erasure.Verify.{
  Tally, final_pass, ranges_of, verify_chosen, sampled, compare_chunk, report_verify, verify_loop,
  verify_ranges, verify,
}

module _ {S : Type 0} (x : Externals) (w : World) (on_progress : Progress → S → Option Fault × S)
    (opt : Options) (P : S → Type 0)
    (keeps : (p : Progress) (s : S) → P s → P (on_progress p s).1) where
  checkpoint-kept :
      (spec : PassSpec) (o : ℕ) (r : Rig S)
      → P r.state
      → P (checkpoint x w on_progress spec o r).1.state
  unfolding checkpoint
  checkpoint-kept spec o r h = elim (Option-cases (w.sync_fault spec.index o)) [
    | inr (e, f) ↦ rw (f, checkpoint) h
    | inl f ↦ rw (f, checkpoint) (keeps _ r.state h)
  ]

  fill_chunk-state :
      (spec : PassSpec) (o n : ℕ) (r : Rig S)
      → r.state ≡ (fill_chunk x w on_progress opt spec o n r).1.state
  unfolding fill_chunk write_chunk
  fill_chunk-state spec o n r = ground arith

  write_loop-kept :
      (spec : PassSpec) (fuel o last : ℕ) (r : Rig S)
      → P r.state
      → P (write_loop x w on_progress opt spec fuel o last r).1.state
  unfolding write_loop
  write_loop-kept spec zero o last r h = h
  write_loop-kept spec (suc fuel) o last r h =
      let n = chunk_at opt.chunk_size r.device.size o in
      let filled = fill_chunk x w on_progress opt spec o n r in
      let saved = checkpoint x w on_progress spec (o + n) filled.1 in
      let due = leb opt.checkpoint_step (o + n - last) || leb r.device.size (o + n) in
      let h' = subst P (fill_chunk-state spec o n r) h in
      elim (Bool-cases (ltb o r.device.size)) [
        | inr b ↦ rw (b, write_loop) h
        | inl b ↦
            rw (b, write_loop)
              (elim (Option-cases filled.0) [
                | inr (e, f) ↦ rw f h'
                | inl f ↦ rw f (elim (Bool-cases due) [
                  | inr d ↦ rw d (write_loop-kept spec fuel (o + n) last filled.1 h')
                  | inl d ↦ rw d (elim (Option-cases saved.0) [
                    | inr (e, g) ↦ rw g (checkpoint-kept spec (o + n) filled.1 h')
                    | inl g ↦ rw g (
                        write_loop-kept spec fuel (o + n) (o + n) saved.1
                          (checkpoint-kept spec (o + n) filled.1 h'))
                  ])
                ])
              ])
      ]

  write_pass-kept :
      (spec : PassSpec) (start : ℕ) (r : Rig S)
      → P r.state
      → P (write_pass x w on_progress opt spec start r).1.state
  unfolding write_pass
  write_pass-kept spec start r h =
      let written = write_loop x w on_progress opt spec (suc r.device.size) start start r in
      let h' = write_loop-kept spec (suc r.device.size) start start r h in
      elim (Option-cases written.0) [
        | inr (e, f) ↦ rw (f, write_pass) h'
        | inl f ↦
            rw (f, write_pass)
              (elim (Option-cases (w.end_sync_fault spec.index)) [
                | inr (e, g) ↦ rw g h'
                | inl g ↦ rw g h'
              ])
      ]

  pub write_passes-kept :
      (idx : ℕ) (ps : List PassSpec) (r : Rig S)
      → P r.state
      → P (write_passes x w on_progress opt idx ps r).1.state
  unfolding write_passes
  write_passes-kept idx [] r h = h
  write_passes-kept idx (spec ∷ rest) r h =
      let written = write_pass x w on_progress opt spec (start_of x w on_progress opt idx) r in
      let h' = write_pass-kept spec (start_of x w on_progress opt idx) r h in
      let skipped =
        eqb idx opt.resume_pass && ltb 0 opt.resume_offset && leb r.device.size opt.resume_offset in
      elim (Bool-cases skipped) [
        | inl b ↦ rw (b, write_passes) (write_passes-kept (suc idx) rest r h)
        | inr b ↦
            rw (b, write_passes)
              (elim (Option-cases written.0) [
                | inr (e, f) ↦ rw f h'
                | inl f ↦ rw f (write_passes-kept (suc idx) rest written.1 h')
              ])
      ]

module _ {S : Type 0} (x : Externals) (w : World) (on_progress : Progress → S → Option Fault × S)
    (opt : Options) (Q : Rig S → Type 0)
    (keeps : (p : Progress) (r : Rig S)
      → Q r
      → Q (record r { state = (on_progress p r.state).1 })) where
  pub compare_chunk-rig :
      (final : PassSpec) (o n : ℕ) (t : Tally) (r : Rig S)
      → r ≡ (compare_chunk x w on_progress opt final o n t r).2
  unfolding compare_chunk
  compare_chunk-rig final o n t r = ground arith

  report_verify-kept :
      (final : PassSpec) (o e : ℕ) (t : Tally) (r : Rig S)
      → Q r
      → Q (report_verify x w on_progress opt final o e t r).2
  unfolding report_verify
  report_verify-kept final o e t r h =
      elim (Bool-cases (leb (opt.checkpoint_step * 4) t.since_report || leb e o)) [
        | inr b ↦ rw (b, report_verify) h
        | inl b ↦ rw (b, report_verify) (keeps _ r h)
      ]

  verify_loop-kept :
      (final : PassSpec) (fuel o e : ℕ) (t : Tally) (r : Rig S)
      → Q r
      → Q (verify_loop x w on_progress opt final fuel o e t r).2
  unfolding verify_loop
  verify_loop-kept final zero o e t r h = h
  verify_loop-kept final (suc fuel) o e t r h =
      let n = chunk_at opt.chunk_size e o in
      let seen = compare_chunk x w on_progress opt final o n t r in
      let told = report_verify x w on_progress opt final (o + n) e seen.1 seen.2 in
      let h' = subst Q (compare_chunk-rig final o n t r) h in
      let h'' = report_verify-kept final (o + n) e seen.1 seen.2 h' in
      elim (Bool-cases (ltb o e)) [
        | inr b ↦ rw (b, verify_loop) h
        | inl b ↦
            rw (b, verify_loop)
              (elim (Option-cases seen.0) [
                | inr (f, g) ↦ rw g h'
                | inl g ↦ rw g (elim (Option-cases told.0) [
                  | inr (f, k) ↦ rw k h''
                  | inl k ↦ rw k (verify_loop-kept final fuel (o + n) e told.1 told.2 h'')
                ])
              ])
      ]

  verify_ranges-kept :
      (final : PassSpec) (rs : List Span) (t : Tally) (r : Rig S)
      → Q r
      → Q (verify_ranges x w on_progress opt final rs t r).2
  unfolding verify_ranges
  verify_ranges-kept final [] t r h = h
  verify_ranges-kept final (rn ∷ rest) t r h =
      let seen =
        verify_loop x w on_progress opt final (suc (rn.end - rn.start)) rn.start rn.end t r in
      let h' = verify_loop-kept final (suc (rn.end - rn.start)) rn.start rn.end t r h in
      elim (Option-cases seen.0) [
        | inr (e, f) ↦ rw (f, verify_ranges) h'
        | inl f ↦
            rw (f, verify_ranges)
              (verify_ranges-kept final rest (sampled x w on_progress opt rn seen.1) seen.2 h')
      ]

  verify_chosen-kept :
      (rs : Option (List Span)) (t : Tally) (r : Rig S)
      → Q r
      → Q (verify_chosen x w on_progress opt rs t r).2
  verify_chosen-kept none t r h = h
  verify_chosen-kept (some rs) t r h = verify_ranges-kept (final_pass opt) rs t r h

  pub verify-kept : (r : Rig S) → Q r → Q (verify x w on_progress opt r).2
  unfolding verify
  verify-kept r h = verify_chosen-kept (ranges_of x w on_progress opt r.device.size) _ r h
