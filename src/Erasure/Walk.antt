-- ===== src/Erasure/Walk.antt =====
-- internal/erasure/engine.go, overwrite: a rule for what holds of the rig however a pass ends.
use xiesg0915_work.Prelude.{
  ℕ, zero, suc, ◌+◌, ◌-◌, ◌<◌, ◌≡◌, ◌||◌, none, inl, inr, leb, ltb, Bool-cases, Option-cases,
  ltb→lt,
}
use xiesg0915_work.Domain.Entities.{PassSpec}
use xiesg0915_work.Erasure.Device.{sync, Fault, Progress, World}
use xiesg0915_work.Erasure.Engine.{
  Options, Externals, Rig, Outcome, chunk_at, checkpoint, fill_chunk, write_loop, write_pass,
}
use xiesg0915_work.Prelude.{Option}

-- `At` holds at the head of the loop and `End` wherever the pass ends, with a Sync or without.
module _ {S : Type 0} (x : Externals) (w : World) (on_progress : Progress → S → Option Fault × S)
    (opt : Options) (spec : PassSpec) (At : ℕ → Rig S → Type 0) (End : Rig S → Type 0)
    (stop : (o : ℕ) (r : Rig S) → At o r → End r × End (record r { device = sync r.device }))
    (fill : (o : ℕ) (r : Rig S)
      → At o r
      → o < r.device.size
      → let filled =
          fill_chunk x w on_progress opt spec o (chunk_at opt.chunk_size r.device.size o) r in
        End filled.1
        × (filled.0 ≡ none → At (o + chunk_at opt.chunk_size r.device.size o) filled.1))
    (save : (o : ℕ) (r : Rig S) → At o r → At o (checkpoint x w on_progress spec o r).1) where
  abbrev Ends : Outcome S → Type 0
  Ends out = End out.1 × (out.0 ≡ none → End (record out.1 { device = sync out.1.device }))

  write_loop-Ends :
      (fuel o last : ℕ) (r : Rig S)
      → At o r
      → Ends (write_loop x w on_progress opt spec fuel o last r)
  unfolding write_loop
  write_loop-Ends zero o last r v = ((stop o r v).0, λ h. (stop o r v).1)
  write_loop-Ends (suc fuel) o last r v =
      let n = chunk_at opt.chunk_size r.device.size o in
      let filled = fill_chunk x w on_progress opt spec o n r in
      let saved = checkpoint x w on_progress spec (o + n) filled.1 in
      let due = leb opt.checkpoint_step (o + n - last) || leb r.device.size (o + n) in
      elim (Bool-cases (ltb o r.device.size)) [
        | inr b ↦ rw (b, write_loop) ((stop o r v).0, λ h. (stop o r v).1)
        | inl b ↦
            let next = fill o r v (ltb→lt o r.device.size b) in
            rw (b, write_loop)
              (elim (Option-cases filled.0) [
                | inr (e, f) ↦ rw f (next.0, λ h. cc)
                | inl f ↦ rw f (elim (Bool-cases due) [
                  | inr d ↦ rw d (write_loop-Ends fuel (o + n) last filled.1 (next.1 f))
                  | inl d ↦
                      let kept = save (o + n) filled.1 (next.1 f) in
                      rw d (elim (Option-cases saved.0) [
                        | inr (e, g) ↦ rw g ((stop (o + n) saved.1 kept).0, λ h. cc)
                        | inl g ↦ rw g (write_loop-Ends fuel (o + n) (o + n) saved.1 kept)
                      ])
                ])
              ])
      ]

  -- Whatever ends the pass, `End` holds of the rig that it leaves.
  pub write_pass-End :
      (start : ℕ) (r : Rig S) → At start r → End (write_pass x w on_progress opt spec start r).1
  unfolding write_pass
  write_pass-End start r v =
      let written = write_loop x w on_progress opt spec (suc r.device.size) start start r in
      let ends = write_loop-Ends (suc r.device.size) start start r v in
      elim (Option-cases written.0) [
        | inr (e, f) ↦ rw (f, write_pass) ends.0
        | inl f ↦
            rw (f, write_pass)
              (elim (Option-cases (w.end_sync_fault spec.index)) [
                | inr (e, g) ↦ rw g ends.0
                | inl g ↦ rw g (ends.1 f)
              ])
      ]
