-- ===== src/Erasure/Clean.antt =====
-- internal/erasure/engine.go: what a run's result says of the device that it leaves.
use xiesg0915_work.Prelude.{
  ◌==◌, ◌≡◌, refl, sym, subst, ◌∙◌, ap, false, Option, none, inl, inr, drop, Option-cases,
  Bool-cases, eqb, arith,
}
use xiesg0915_work.Domain.Entities.{VerifyResult}
use xiesg0915_work.Erasure.Device.{Fault, Progress, World}
use xiesg0915_work.Erasure.Engine.{Options, Externals, Rig, with_defaults, write_passes}
use xiesg0915_work.Erasure.Verify.{verify, run}
use xiesg0915_work.Erasure.Sound.{IsClean, verify-exact, overwritten, run-parts}
use xiesg0915_work.Erasure.Kept.{write_passes-kept, verify-kept}

module _ {S : Type 0} (x : Externals) (w : World)
    (on_progress : Progress → S → Option Fault × S) where
  -- A verification leaves the device as it is.
  verify-device : (opt : Options) (r : Rig S) → (verify x w on_progress opt r).2.device ≡ r.device
  verify-device opt r =
      verify-kept x w on_progress opt (λ q. q.device ≡ r.device) (λ p q h. h) r refl

  run-rig :
      (opt : Options) (r : Rig S)
      → (run x w on_progress opt r).0 ≡ none
      → (run x w on_progress opt r).2
        ≡ (verify x w on_progress (with_defaults opt) (overwritten x w on_progress opt r).1).2
  unfolding run
  run-rig opt r h = ground arith

  pub full_mode :
      (opt : Options)
      → (opt.standard.verify_mode == "sample") ≡ false
      → ((with_defaults opt).standard.verify_mode == "sample") ≡ false
  unfolding with_defaults
  full_mode opt full = full

  -- A run of a standard with a full verification that returns no error and counts no mismatch leaves
  -- a device on which every byte is the last pass's, wherever the run began.
  pub run-IsClean :
      (opt : Options) (r : Rig S)
      → (opt.standard.verify_mode == "sample") ≡ false
      → (run x w on_progress opt r).0 ≡ none
      → (run x w on_progress opt r).1.mismatches ≡ 0
      → IsClean x w on_progress (with_defaults opt) (run x w on_progress opt r).2.device
  run-IsClean opt r full h z =
      let opt' = with_defaults opt in
      let written = (overwritten x w on_progress opt r).1 in
      let parts = run-parts x w on_progress opt r h in
      let exact = verify-exact x w on_progress opt' written (full_mode opt full) parts.1 in
      subst (IsClean x w on_progress opt')
        (sym (ap (λ (q : Rig S). q.device) (run-rig opt r h) ∙ verify-device opt' written))
        (exact.1.0 (sym (ap (λ (v : VerifyResult). v.mismatches) parts.2) ∙ z))

  -- What the progress function keeps of the caller's state, a run keeps.
  pub run-kept :
      (opt : Options) (P : S → Type 0)
      → ((p : Progress) (s : S) → P s → P (on_progress p s).1)
      → (r : Rig S) → P r.state
      → P (run x w on_progress opt r).2.state
  unfolding run write_passes
  run-kept opt P keeps r h =
      let opt' = with_defaults opt in
      let written = overwritten x w on_progress opt r in
      let h' =
        write_passes-kept x w on_progress opt' P keeps opt'.resume_pass
          (drop opt'.resume_pass opt'.standard.passes) r h in
      let h'' =
        verify-kept x w on_progress opt' (λ q. P q.state) (λ p q k. keeps p q.state k) written.1
          h' in
      elim (Option-cases w.size_fault) [
        | inr (e, f) ↦ rw (f, run) h
        | inl f ↦
            rw (f, run)
              (elim (Bool-cases (eqb r.device.size 0)) [
                | inl b ↦ rw b h
                | inr b ↦
                    rw b (elim (Option-cases written.0) [ inr (e, g) ↦ rw g h' | inl g ↦ rw g h'' ])
              ])
      ]
