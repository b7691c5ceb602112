-- ===== src/Erasure/Checked.antt =====
-- internal/erasure/engine.go: what the overwriting leaves on stable storage, and the verification
-- behind it, which saves checkpoints of its own.
use xiesg0915_work.Prelude.{
  ℕ, suc, ◌+◌, ◌≡◌, ◌≤◌, ◌⊎◌, inl, inr, ◌&&◌, Option, none, true, List, [], ◌∷◌, length, eqb, ltb,
  leb, arith, Option-cases, Bool-cases,
}
use xiesg0915_work.Domain.Entities.{PassSpec}
use xiesg0915_work.Domain.Standards.{Numbered}
use xiesg0915_work.Erasure.Device.{Device, Fault, Progress, World}
use xiesg0915_work.Erasure.Engine.{Options, Externals, Rig, start_of, write_pass, write_passes}
use xiesg0915_work.Erasure.Verify.{final_pass}
use xiesg0915_work.Erasure.Image.{image, Agrees}
use xiesg0915_work.Erasure.Resume.{Point, resumed, Saves}
use xiesg0915_work.Erasure.Attempts.{Entry, Entry-IsEarly, Entry-le, IsEarly-any, point_of}
use xiesg0915_work.Erasure.Cut.{write_pass-IsEarly}

module _ {S : Type 0} (x : Externals) (opt : Options) (size : ℕ) (saved : S → Option Point)
    (w : World) (on_progress : Progress → S → Option Fault × S) (c₀ : Point) where
  write_pass-synced :
      (p : PassSpec) (start : ℕ) (r : Rig S)
      → (write_pass x w on_progress (resumed opt c₀) p start r).0 ≡ none
      → let d = (write_pass x w on_progress (resumed opt c₀) p start r).1.device in
        d.durable ≡ d.bytes
  unfolding write_pass
  write_pass-synced p start r h = ground arith

  -- What is written is synced, or it was before.
  abbrev pub IsSynced : Device → Type 0
  IsSynced d = (d.durable ≡ d.bytes) ⊎ Agrees 0 size d.durable (image x opt (final_pass opt) size)

  -- A last pass that is skipped was synced up to its checkpoint, behind the last byte.
  skipped :
      (idx : ℕ) (p : PassSpec) (r : Rig S)
      → idx + 1 ≡ length opt.standard.passes
      → Entry x opt size saved w on_progress c₀ idx r
      → (eqb idx c₀.0 && ltb 0 c₀.1 && leb r.device.size c₀.1) ≡ true
      → Agrees 0 size r.device.durable (image x opt (final_pass opt) size)
  skipped idx p r n (inr v) b = absurd (ground (arith, v.0))
  skipped idx p r n (inl v) b = elim (point_of (saved r.state) c₀ v.2) [
    | inr z ↦ absurd (ground arith)
    | inl e ↦
        let beyond : size ≤ c₀.1 = ground (arith, v.1.sized) in
        let a = (v.1.safe c₀ e).last (omega (arith, v.0)) in λ i f l. a.2 i f (omega arith)
  ]

  pub write_passes-IsSynced :
      Saves x opt size saved on_progress
      → (idx : ℕ) (p : PassSpec) (ps : List PassSpec) (r : Rig S) → Numbered idx (p ∷ ps)
      → idx + length (p ∷ ps) ≡ length opt.standard.passes
      → Entry x opt size saved w on_progress c₀ idx r
      → (write_passes x w on_progress (resumed opt c₀) idx (p ∷ ps) r).0 ≡ none
      → IsSynced (write_passes x w on_progress (resumed opt c₀) idx (p ∷ ps) r).1.device
  unfolding write_passes
  write_passes-IsSynced saves idx p [] r k n v =
      let skip = eqb idx c₀.0 && ltb 0 c₀.1 && leb r.device.size c₀.1 in
      let start = start_of x w on_progress (resumed opt c₀) idx in
      let written = write_pass x w on_progress (resumed opt c₀) p start r in
      elim (Bool-cases skip) [
        | inl b ↦ rw (b, write_passes) λ h. inr (skipped idx p r n v b)
        | inr b ↦
            rw (b, write_passes)
              (elim (Option-cases written.0) [
                | inr (e, g) ↦ rw g λ h. cc
                | inl g ↦ rw g λ h. inl (write_pass-synced p start r g)
              ])
      ]
  write_passes-IsSynced saves idx p (q ∷ qs) r k n v =
      let skip = eqb idx c₀.0 && ltb 0 c₀.1 && leb r.device.size c₀.1 in
      let start = start_of x w on_progress (resumed opt c₀) idx in
      let written = write_pass x w on_progress (resumed opt c₀) p start r in
      let early = Entry-IsEarly x opt size saved w on_progress c₀ idx p r (omega arith) v in
      let after =
        write_pass-IsEarly x opt size saved w on_progress c₀ p start r saves (omega (arith, k.0))
          early in
      let le = Entry-le x opt size saved w on_progress c₀ idx r v in
      let go = λ (t : Rig S). write_passes-IsSynced saves (suc idx) q qs t k.2 (omega arith) in
      elim (Bool-cases skip) [
        | inl b ↦
            rw (b, write_passes)
              (go r (inr (le, λ z. IsEarly-any x opt size saved w on_progress c₀ idx p z r early)))
        | inr b ↦
            rw (b, write_passes)
              (elim (Option-cases written.0) [
                | inr (e, g) ↦ rw g λ h. cc
                | inl g ↦ rw g (
                    go written.1 (
                      inr (
                        le,
                        λ z. IsEarly-any x opt size saved w on_progress c₀ idx p z written.1 after,
                      )))
              ])
      ]
