-- ===== src/Erasure/Attempts.antt =====
-- internal/erasure/engine.go, overwrite from the last checkpoint: whatever cuts an attempt off, the
-- next one can go on from the checkpoint, and one that ends without an error has wiped the disk.
use xiesg0915_work.Prelude.{
  ℕ, zero, suc, ◌+◌, ◌≡◌, ◌<◌, ◌⊎◌, inl, inr, ◌∙◌, ap, sym, subst, refl, ◌&&◌, Option, none, some,
  List, [], ◌∷◌, length, drop, eqb, ltb, leb, arith, Option-cases, Bool-cases,
}
use xiesg0915_work.Domain.Entities.{PassSpec}
use xiesg0915_work.Domain.Standards.{Numbered}
use xiesg0915_work.Erasure.Device.{Fault, Progress, World}
use xiesg0915_work.Erasure.Engine.{
  Options, Externals, Rig, last_pass, start_of, write_pass, write_passes,
}
use xiesg0915_work.Erasure.Verify.{no_pass, final_pass}
use xiesg0915_work.Erasure.Image.{image, Agrees}
use xiesg0915_work.Erasure.Wipe.{ResumeOk, started, overwrite-Wiped}
use xiesg0915_work.Erasure.Resume.{Point, point, resumed, attempt, Saves, IsResumable}
use xiesg0915_work.Erasure.Cut.{
  IsEarly, write_pass-IsEarly, IsWriting, image-resumed, write_pass-IsResumable,
}

pub point_of : (s : Option Point) (c : Point) → point s ≡ c → (s ≡ some c) ⊎ (c.1 ≡ 0)
point_of none c e = inr (ap (λ (z : Point). z.1) (sym e))
point_of (some d) c e = inl (ap some e)

point_is : (s : Option Point) (c d : Point) → point s ≡ c → s ≡ some d → d ≡ c
point_is none c d e h = cc
point_is (some b) c d e h = cc

module _ {S : Type 0} (x : Externals) (opt : Options) (size : ℕ) (saved : S → Option Point)
    (w : World) (on_progress : Progress → S → Option Fault × S) (c₀ : Point) where
  -- A pass is entered at the checkpoint, or behind a pass that was not the last one.
  abbrev pub Entry : ℕ → Rig S → Type 0
  Entry idx r =
      (idx ≡ c₀.0) × IsResumable x opt size saved r × (point (saved r.state) ≡ c₀)
      ⊎ (c₀.0 < idx) × ((p : PassSpec) → IsEarly x opt size saved w on_progress c₀ p r)

  Entry-sized : (idx : ℕ) (r : Rig S) → Entry idx r → r.device.size ≡ size
  Entry-sized idx r (inl v) = v.1.sized
  Entry-sized idx r (inr v) = (v.1 (record { index = 0; pattern = "" })).sized

  pub Entry-IsEarly :
      (idx : ℕ) (p : PassSpec) (r : Rig S)
      → idx + 1 < length opt.standard.passes
      → Entry idx r
      → IsEarly x opt size saved w on_progress c₀ p r
  Entry-IsEarly idx p r l (inr v) = v.1 p
  Entry-IsEarly idx p r l (inl v) = record {
    sized = v.1.sized;
    early = λ c e.
        let same = point_is (saved r.state) c₀ c v.2 e in
        omega (arith, ap (λ (z : Point). z.0) same, v.0);
  }

  pub Entry-ResumeOk :
      (idx : ℕ) (p : PassSpec) (ps : List PassSpec) (r : Rig S)
      → idx + length (p ∷ ps) ≡ length opt.standard.passes
      → final_pass opt ≡ last_pass p ps
      → Entry idx r
      → ResumeOk x w on_progress (resumed opt c₀) size idx p ps r
  Entry-ResumeOk idx p (q ∷ qs) r n f v = tt
  Entry-ResumeOk idx p [] r n f (inr v) = λ e. absurd (omega (arith, v.0))
  Entry-ResumeOk idx p [] r n f (inl v) = λ e pos. elim (point_of (saved r.state) c₀ v.2) [
    | inr z ↦ absurd (omega arith)
    | inl s ↦
        let a = (v.1.safe c₀ s).last (omega (arith, v.0)) in
        (
          a.0,
          subst (Agrees 0 c₀.1 r.device.bytes)
              (ap (λ q. image x opt q size) f
                ∙ sym (image-resumed x opt size saved w on_progress c₀ p))
              a.1,
        )
  ]

  -- The last pass begins with what was written before.
  Entry-IsWriting :
      (idx : ℕ) (p : PassSpec) (r : Rig S)
      → idx + 1 ≡ length opt.standard.passes
      → final_pass opt ≡ p
      → Entry idx r
      → IsWriting x opt size saved w on_progress c₀ p
          (start_of x w on_progress (resumed opt c₀) idx)
          r
  Entry-IsWriting idx p r n f v = record {
    written =
        started x w on_progress (resumed opt c₀) size idx p r (Entry-sized idx r v)
          (Entry-ResumeOk idx p [] r n f v);
    behind = λ c e. elim v [
      | inr u ↦ let l = (u.1 p).early c e in (omega arith, λ z. absurd (omega arith))
      | inl u ↦
          let same = point_is (saved r.state) c₀ c u.2 e in
          let s = u.1.safe c e in
          (
            s.pass,
            λ z. (
              ground (arith, u.0, ap (λ (d : Point). d.1) same),
              (s.last z).0,
              subst (λ q. Agrees 0 c.1 r.device.durable (image x opt q size)) f (s.last z).2,
            ),
          )
    ];
  }

  pub Entry-le : (idx : ℕ) (r : Rig S) → Entry idx r → c₀.0 < suc idx
  Entry-le idx r (inl v) = omega (arith, v.0)
  Entry-le idx r (inr v) = omega (arith, v.0)

  pub IsEarly-any :
      (idx : ℕ) (p q : PassSpec) (r : Rig S)
      → IsEarly x opt size saved w on_progress c₀ p r
      → IsEarly x opt size saved w on_progress c₀ q r
  IsEarly-any idx p q r v = record { sized = v.sized; early = v.early }

  IsEarly-IsResumable :
      (p : PassSpec) (r : Rig S)
      → IsEarly x opt size saved w on_progress c₀ p r
      → IsResumable x opt size saved r
  IsEarly-IsResumable p r v = record {
    sized = v.sized;
    safe = λ c e.
        let l = v.early c e in record { pass = omega arith; last = λ z. absurd (omega arith) };
  }

  -- The passes from `idx` on, cut off anywhere or not, leave a rig from which an attempt can go on.
  write_passes-IsResumable :
      Saves x opt size saved on_progress
      → (idx : ℕ) (p : PassSpec) (ps : List PassSpec) (r : Rig S) → Numbered idx (p ∷ ps)
      → idx + length (p ∷ ps) ≡ length opt.standard.passes
      → final_pass opt ≡ last_pass p ps
      → Entry idx r
      → IsResumable x opt size saved
          (write_passes x w on_progress (resumed opt c₀) idx (p ∷ ps) r).1
  unfolding write_passes
  write_passes-IsResumable saves idx p [] r k n f v =
      let skip = eqb idx c₀.0 && ltb 0 c₀.1 && leb r.device.size c₀.1 in
      let start = start_of x w on_progress (resumed opt c₀) idx in
      let written = write_pass x w on_progress (resumed opt c₀) p start r in
      let done =
        write_pass-IsResumable x opt size saved w on_progress c₀ p saves f (omega (arith, k.0))
          start r (Entry-IsWriting idx p r (omega arith) f v) in
      elim (Bool-cases skip) [
        | inl b ↦
            rw (b, write_passes) (elim v [ inl u ↦ u.1 | inr u ↦ absurd (ground (arith, u.0)) ])
        | inr b ↦
            rw (b, write_passes)
              (elim (Option-cases written.0) [ inr (e, g) ↦ rw g done | inl g ↦ rw g done ])
      ]
  write_passes-IsResumable saves idx p (q ∷ qs) r k n f v =
      let skip = eqb idx c₀.0 && ltb 0 c₀.1 && leb r.device.size c₀.1 in
      let start = start_of x w on_progress (resumed opt c₀) idx in
      let written = write_pass x w on_progress (resumed opt c₀) p start r in
      let early = Entry-IsEarly idx p r (omega arith) v in
      let after =
        write_pass-IsEarly x opt size saved w on_progress c₀ p start r saves (omega (arith, k.0))
          early in
      let go = λ (t : Rig S). write_passes-IsResumable saves (suc idx) q qs t k.2 (omega arith) f in
      elim (Bool-cases skip) [
        | inl b ↦
            rw (b, write_passes) (go r (inr (Entry-le idx r v, λ z. IsEarly-any idx p z r early)))
        | inr b ↦
            rw (b, write_passes)
              (elim (Option-cases written.0) [
                | inr (e, g) ↦ rw g (IsEarly-IsResumable p written.1 after)
                | inl g ↦ rw g (
                    go written.1 (inr (Entry-le idx r v, λ z. IsEarly-any idx p z written.1 after)))
              ])
      ]

-- What is left of the passes from number `n` on.
pub record IsRest (n : ℕ) (i : ℕ) (d : PassSpec) (qs : List PassSpec) : Type 0 where
  pub first : PassSpec
  pub rest : List PassSpec
  pub dropped : drop n qs ≡ first ∷ rest
  pub numbered : Numbered (i + n) (first ∷ rest)
  pub count : n + length (first ∷ rest) ≡ length qs
  pub last : last_pass d qs ≡ last_pass first rest

pub IsRest-of :
    (n i : ℕ) (d : PassSpec) (qs : List PassSpec) → n < length qs → Numbered i qs → IsRest n i d qs
IsRest-of n i d [] l k = absurd (omega arith)
IsRest-of zero i d (q ∷ qs) l k = record {
  first = q;
  rest = qs;
  dropped = refl;
  numbered = subst (λ j. Numbered j (q ∷ qs)) (omega arith) k;
  count = omega arith;
  last = refl;
}
IsRest-of (suc n) i d (q ∷ qs) l k =
    let r = IsRest-of n (suc i) q qs (omega arith) k.2 in
    record {
      first = r.first;
      rest = r.rest;
      dropped = r.dropped;
      numbered = subst (λ j. Numbered j (r.first ∷ r.rest)) (omega arith) r.numbered;
      count = omega (arith, r.count);
      last = r.last;
    }

module _ {S : Type 0} (x : Externals) (opt : Options) (size : ℕ) (saved : S → Option Point)
    (numbered : Numbered 0 opt.standard.passes) (some_pass : 0 < length opt.standard.passes) where
  pub rest_at :
      (r : Rig S)
      → IsResumable x opt size saved r
      → (point (saved r.state)).0 < length opt.standard.passes
  rest_at r v = elim (Option-cases (saved r.state)) [
    | inl e ↦ rw e some_pass
    | inr (c, e) ↦ rw e (v.safe c e).pass
  ]

  pub attempt-IsResumable :
      (w : World) (on_progress : Progress → S → Option Fault × S) (r : Rig S)
      → Saves x opt size saved on_progress
      → IsResumable x opt size saved r
      → IsResumable x opt size saved (attempt x opt size saved w on_progress r).1
  attempt-IsResumable w on_progress r saves v =
      let c = point (saved r.state) in
      let rest = IsRest-of c.0 0 no_pass opt.standard.passes (rest_at r v) numbered in
      rw rest.dropped (
        write_passes-IsResumable x opt size saved w on_progress c saves c.0 rest.first rest.rest r
          (subst (λ j. Numbered j (rest.first ∷ rest.rest)) (omega arith) rest.numbered) rest.count
          rest.last (inl (refl, v, refl)))

  -- An attempt from a resumable rig that ends without an error has overwritten the disk.
  pub attempt-Agrees :
      (w : World) (on_progress : Progress → S → Option Fault × S) (r : Rig S)
      → IsResumable x opt size saved r
      → (attempt x opt size saved w on_progress r).0 ≡ none
      → Agrees 0 size
          (attempt x opt size saved w on_progress r).1.device.bytes
          (image x opt (final_pass opt) size)
  attempt-Agrees w on_progress r v h =
      let c = point (saved r.state) in
      let rest = IsRest-of c.0 0 no_pass opt.standard.passes (rest_at r v) numbered in
      let entry : Entry x opt size saved w on_progress c c.0 r = inl (refl, v, refl) in
      let ok =
        Entry-ResumeOk x opt size saved w on_progress c c.0 rest.first rest.rest r rest.count
          rest.last entry in
      let wiped =
        overwrite-Wiped x w on_progress (resumed opt c) size c.0 rest.first rest.rest r v.sized
          (omega arith) ok (rw (← rest.dropped) h) in
      let same : image x (resumed opt c) (last_pass rest.first rest.rest) size
          ≡ image x opt (final_pass opt) size =
        image-resumed x opt size saved w on_progress c (last_pass rest.first rest.rest)
        ∙ ap (λ q. image x opt q size) (sym rest.last) in
      rw rest.dropped (λ i f l. wiped.agrees i f l ∙ ap (λ (g : ℕ → ℕ). g i) same)
