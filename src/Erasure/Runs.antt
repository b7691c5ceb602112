-- ===== src/Erasure/Runs.antt =====
-- internal/erasure/engine.go: whole runs, cut off in either phase and resumed.
use xiesg0915_work.Prelude.{
  ℕ, suc, ◌+◌, ◌≡◌, ◌<◌, ◌⊎◌, inl, inr, ◌∙◌, sym, subst, refl, ◌==◌, Option, none, false, List, [],
  ◌∷◌, length, arith,
}
use xiesg0915_work.Domain.Entities.{PassSpec, VerifyResult}
use xiesg0915_work.Domain.Standards.{Numbered}
use xiesg0915_work.Erasure.Device.{Device, Fault, Progress, RunError, World}
use xiesg0915_work.Erasure.Engine.{Options, Externals, Rig, Outcome, last_pass, with_defaults}
use xiesg0915_work.Erasure.Verify.{no_pass, final_pass, verify, run}
use xiesg0915_work.Erasure.Image.{image, Agrees}
use xiesg0915_work.Erasure.Resume.{
  Point, point, resumed, Saves, IsResumable, IsLeftOf, power_loss-IsResumable, attempt,
}
use xiesg0915_work.Erasure.Attempts.{
  attempt-IsResumable, attempt-Agrees, IsRest-of, rest_at, Entry-ResumeOk,
}
use xiesg0915_work.Erasure.Checked.{IsSynced, write_passes-IsSynced}
use xiesg0915_work.Erasure.Wipe.{ResumeOk}
use xiesg0915_work.Erasure.Clean.{full_mode}
use xiesg0915_work.Erasure.Sound.{run-verifies}
use xiesg0915_work.Erasure.Verifying.{IsDone, verify-IsResumable}

module _ {S : Type 0} (x : Externals) (opt₀ : Options) (size : ℕ) (saved : S → Option Point) where
  abbrev normal : Options
  normal = with_defaults opt₀

  -- A run that begins at the checkpoint.
  abbrev pub run_on :
      World → (Progress → S → Option Fault × S) → Rig S → Option RunError × VerifyResult × Rig S
  run_on w on_progress r = run x w on_progress (resumed opt₀ (point (saved r.state))) r

  -- Any runs, losses of power, and restarts of the caller that keep its checkpoint, in any order, on a
  -- disk that begins without one.
  pub data Runs : Rig S → Type 0 where
    fresh : (r : Rig S) → r.device.size ≡ size → saved r.state ≡ none → Runs r
    again :
        {r : Rig S} (w : World) (on_progress : Progress → S → Option Fault × S)
        → Runs r
        → Saves x (with_defaults opt₀) size saved on_progress
        → Runs (run_on w on_progress r).2
    power_loss :
        {r : Rig S} (d : Device) → Runs r → IsLeftOf r.device d → Runs (record r { device = d })
    restart : {r : Rig S} (t : S) → Runs r → saved t ≡ saved r.state → Runs (record r { state = t })

  -- The overwriting of a run from the checkpoint.
  abbrev overwriting_of : World → (Progress → S → Option Fault × S) → Rig S → Outcome S
  overwriting_of w on_progress r = attempt x normal size saved w on_progress r

  run-cases :
      (w : World) (on_progress : Progress → S → Option Fault × S) (r : Rig S)
      → let c = point (saved r.state) in
        let tried = overwriting_of w on_progress r in
        ((run_on w on_progress r).2 ≡ r)
        ⊎ ((run_on w on_progress r).2 ≡ tried.1)
        ⊎ (tried.0 ≡ none)
          × ((run_on w on_progress r).2 ≡ (verify x w on_progress (resumed normal c) tried.1).2)
  unfolding run with_defaults
  run-cases w on_progress r = ground arith

  last-index :
      (i : ℕ) (q : PassSpec) (qs : List PassSpec)
      → Numbered i (q ∷ qs)
      → (last_pass q qs).index + 1 ≡ i + length (q ∷ qs)
  last-index i q [] k = omega (arith, k.0)
  last-index i q (p ∷ ps) k = omega (arith, last-index (suc i) p ps k.2)

  last-known :
      (ps : List PassSpec)
      → Numbered 0 ps
      → 0 < length ps
      → (last_pass no_pass ps).index < length ps
  last-known [] k l = absurd (omega arith)
  last-known (p ∷ ps) k l = omega (arith, last-index 0 p ps k)

  module _ (numbered : Numbered 0 opt₀.standard.passes)
      (some_pass : 0 < length opt₀.standard.passes)
      (full : (opt₀.standard.verify_mode == "sample") ≡ false) where
    overwriting-IsSynced :
        (w : World) (on_progress : Progress → S → Option Fault × S) (r : Rig S)
        → Saves x normal size saved on_progress
        → IsResumable x normal size saved r
        → (overwriting_of w on_progress r).0 ≡ none
        → IsSynced x normal size saved w on_progress
            (point (saved r.state))
            (overwriting_of w on_progress r).1.device
    unfolding with_defaults
    overwriting-IsSynced w on_progress r saves v =
        let c = point (saved r.state) in
        let rest =
          IsRest-of c.0 0 no_pass opt₀.standard.passes
            (rest_at x normal size saved numbered some_pass r v) numbered in
        rw rest.dropped (
          write_passes-IsSynced x normal size saved w on_progress c saves c.0 rest.first rest.rest r
            (subst (λ j. Numbered j (rest.first ∷ rest.rest)) (omega arith) rest.numbered)
            rest.count (inl (refl, v, refl)))

    overwriting-IsDone :
        (w : World) (on_progress : Progress → S → Option Fault × S) (r : Rig S)
        → Saves x normal size saved on_progress
        → IsResumable x normal size saved r
        → (overwriting_of w on_progress r).0 ≡ none
        → IsDone x normal size saved w on_progress
            (point (saved r.state))
            (overwriting_of w on_progress r).1.device
    unfolding with_defaults
    overwriting-IsDone w on_progress r saves v h =
        let written = attempt-Agrees x normal size saved numbered some_pass w on_progress r v h in
        record {
          sized =
              (attempt-IsResumable x normal size saved numbered some_pass w on_progress r saves
                v).sized;
          bytes = written;
          durable = elim (overwriting-IsSynced w on_progress r saves v h) [
            | inl e ↦
                subst (λ u. Agrees 0 size u (image x normal (final_pass normal) size)) (sym e)
                  written
            | inr a ↦ a
          ];
        }

    final-known : (final_pass normal).index < length normal.standard.passes
    unfolding with_defaults
    final-known = last-known opt₀.standard.passes numbered some_pass

    run_on-IsResumable :
        (w : World) (on_progress : Progress → S → Option Fault × S) (r : Rig S)
        → Saves x normal size saved on_progress
        → IsResumable x normal size saved r
        → IsResumable x normal size saved (run_on w on_progress r).2
    unfolding with_defaults
    run_on-IsResumable w on_progress r saves v =
        let tried = overwriting_of w on_progress r in
        let v' =
          attempt-IsResumable x normal size saved numbered some_pass w on_progress r saves v in
        elim (run-cases w on_progress r) [
          | inl e ↦ subst (IsResumable x normal size saved) (sym e) v
          | inr (inl e) ↦ subst (IsResumable x normal size saved) (sym e) v'
          | inr (inr (h, e)) ↦ subst (IsResumable x normal size saved) (sym e) (
              verify-IsResumable x normal size saved w on_progress (point (saved r.state)) saves
                final-known tried.1 (full_mode x w on_progress opt₀ full)
                (overwriting-IsDone w on_progress r saves v h) v')
        ]

    Runs-IsResumable : {r : Rig S} → Runs r → IsResumable x normal size saved r
    Runs-IsResumable (Runs.fresh r e n) = record { sized = e; safe = λ c h. cc }
    Runs-IsResumable (Runs.again {r} w on_progress a saves) =
        run_on-IsResumable w on_progress r saves (Runs-IsResumable a)
    Runs-IsResumable (Runs.power_loss {r} d a l) =
        power_loss-IsResumable x normal size saved r d (Runs-IsResumable a) l
    Runs-IsResumable (Runs.restart {r} t a e) =
        let v = Runs-IsResumable a in record { sized = v.sized; safe = λ c h. v.safe c (sym e ∙ h) }

    -- Under the same options, of a standard with a full verification and passes numbered from 0:
    -- however often a disk's runs were cut off, while overwriting or while verifying, by an error, a
    -- cancelled context, a restart or a loss of power that kept any part of what was not synced, and
    -- resumed from the last checkpoint that was saved, a run that returns no error has compared every
    -- byte of the disk with that of the last pass and found no mismatch.
    pub Runs-verified :
        {r : Rig S} (w : World) (on_progress : Progress → S → Option Fault × S)
        → Runs r
        → (run_on w on_progress r).0 ≡ none
        → ((run_on w on_progress r).1.mismatches ≡ 0) × ((run_on w on_progress r).1.bytes ≡ size)
    unfolding with_defaults
    Runs-verified {r} w on_progress a h =
        let v = Runs-IsResumable a in
        let c = point (saved r.state) in
        let rest =
          IsRest-of c.0 0 no_pass opt₀.standard.passes
            (rest_at x normal size saved numbered some_pass r v) numbered in
        let ok : ResumeOk x w on_progress (resumed normal c) r.device.size c.0 rest.first rest.rest
            r =
          subst (λ z. ResumeOk x w on_progress (resumed normal c) z c.0 rest.first rest.rest r)
            (sym v.sized)
            (Entry-ResumeOk x normal size saved w on_progress c c.0 rest.first rest.rest r
              rest.count rest.last (inl (refl, v, refl))) in
        let seen =
          run-verifies x w on_progress (resumed opt₀ c) rest.first rest.rest r rest.dropped full ok
            h in
        (seen.0, seen.1 ∙ v.sized)
