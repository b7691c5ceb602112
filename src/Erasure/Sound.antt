-- ===== src/Erasure/Sound.antt =====
-- What a full verification says of the device: no mismatch exactly where every byte is the last
-- pass's, and a count of bytes that is the size.
use xiesg0915_work.Prelude.{
  ℕ, zero, suc, ◌+◌, ◌-◌, ◌≤◌, ◌<◌, ◌≡◌, ◌↔◌, refl, inl, inr, false, ◌==◌, Option, none, some, List,
  [], ◌∷◌, drop, ltb, arith, ap, sym, ◌∙◌, subst, Bool-cases, Option-cases, ltb→lt,
}
use xiesg0915_work.Domain.Entities.{PassSpec}
use xiesg0915_work.Erasure.Stream.{Buffer, stream_at}
use xiesg0915_work.Erasure.Device.{Device, read_at, Fault, Progress, World}
use xiesg0915_work.Erasure.Samples.{Span}
use xiesg0915_work.Erasure.Engine.{
  Options, Externals, Rig, Outcome, chunk_at, count_mismatches, with_defaults, last_pass,
  write_passes,
}
use xiesg0915_work.Erasure.Verify.{
  Tally, Verified, no_pass, final_pass, compare_chunk, report_verify, verify_loop, verify_ranges,
  ranges_of, verify_chosen, verify, run,
}
use xiesg0915_work.Erasure.Wipe.{Wiped, ResumeOk, overwrite-Wiped}
use xiesg0915_work.Erasure.Image.{image, Agrees, OnGrid, OnGrid-next, chunk-Agrees}

pub chunk_at-le : (c size o : ℕ) → o < size → o + chunk_at c size o ≤ size
chunk_at-le c size o h = ground arith

module _ {S : Type 0} (x : Externals) (w : World) (on_progress : Progress → S → Option Fault × S)
    (opt : Options) (size : ℕ) (spec : PassSpec) where
  -- From `t` to `t'` the bytes from `from` to `to` have been compared with the pass's image.
  record Compared (from to : ℕ) (d : Device) (t t' : Tally) : Type 0 where
    bytes : t'.bytes ≡ t.bytes + (to - from)
    extra : ℕ
    mismatches : t'.mismatches ≡ t.mismatches + extra
    clean : (extra ≡ 0) ↔ Agrees from to d.bytes (image x opt spec size)

  Compared-trans :
      {a b c : ℕ} {d : Device} {t u v : Tally}
      → a ≤ b
      → b ≤ c
      → Compared a b d t u
      → Compared b c d u v
      → Compared a c d t v
  Compared-trans {a} {b} {c} {d} p q h g = record {
    bytes = omega (arith, h.bytes, g.bytes);
    extra = h.extra + g.extra;
    mismatches = omega (arith, h.mismatches, g.mismatches);
    clean = (
      λ z i f l. elim (Bool-cases (ltb i b)) [
        | inl e ↦ h.clean.0 (omega arith) i f (ground arith)
        | inr e ↦ g.clean.0 (omega arith) i (ground arith) l
      ],
      λ z.
          let left = h.clean.1 (λ i f l. z i f (omega arith)) in
          let right = g.clean.1 (λ i f l. z i (omega arith) l) in omega arith,
    );
  }

  -- A round that returns no error leaves the device alone and compares its chunk.
  compare_chunk-Compared :
      (o : ℕ) (t : Tally) (r : Rig S) (b : Option Buffer)
      → let n = chunk_at opt.chunk_size size o in
        stream_at x.keystream spec.pattern opt.job_id spec.index n o ≡ b
        → OnGrid opt.chunk_size size o
        → o < size
        → (compare_chunk x w on_progress opt spec o n t r).0 ≡ none
        → Compared o (o + n) r.device t (compare_chunk x w on_progress opt spec o n t r).1
          × ((compare_chunk x w on_progress opt spec o n t r).2 ≡ r)
  unfolding compare_chunk
  compare_chunk-Compared o t r none e g k h = ground (arith, e)
  compare_chunk-Compared o t r (some want) e g k h =
      let n = chunk_at opt.chunk_size size o in
      (
        record {
          bytes = ground (arith, e);
          extra = count_mismatches (read_at o r.device) want n;
          mismatches = ground (arith, e);
          clean = chunk-Agrees x opt spec size o want r.device g k e;
        },
        ground (arith, e),
      )

  report_verify-keeps :
      (o e : ℕ) (t : Tally) (r : Rig S)
      → let told = report_verify x w on_progress opt spec o e t r in
        (told.1.bytes ≡ t.bytes) × (told.1.mismatches ≡ t.mismatches) × (told.2.device ≡ r.device)
  unfolding report_verify
  report_verify-keeps o e t r = ground arith

  Compared-none : (o : ℕ) (d : Device) (t : Tally) → size ≤ o → Compared o size d t t
  Compared-none o d t h = record {
    bytes = omega arith;
    extra = 0;
    mismatches = omega arith;
    clean = (λ z i f l. absurd (omega arith), λ z. refl);
  }

  -- The same tally, but for the counter of the reports and the device's place.
  moved :
      {a b : ℕ} {d : Device} {t u v : Tally}
      → Compared a b d t u
      → v.bytes ≡ u.bytes
      → v.mismatches ≡ u.mismatches
      → Compared a b d t v
  moved c e f = record {
    bytes = omega (arith, c.bytes);
    extra = c.extra;
    mismatches = omega (arith, c.mismatches);
    clean = c.clean;
  }

  -- A verification without an error has compared everything up to the end.
  abbrev Good : (from : ℕ) → Device → Tally → Verified S → Type 0
  Good from d t out = out.0 ≡ none → Compared from size d t out.1

  verify_loop-Good :
      (fuel o : ℕ) (t : Tally) (r : Rig S) (d : Device)
      → r.device ≡ d
      → OnGrid opt.chunk_size size o
      → Good o d t (verify_loop x w on_progress opt spec fuel o size t r)
  unfolding verify_loop
  verify_loop-Good zero o t r d same g = λ h. cc
  verify_loop-Good (suc fuel) o t r d same g =
      let n = chunk_at opt.chunk_size size o in
      let seen = compare_chunk x w on_progress opt spec o n t r in
      let told = report_verify x w on_progress opt spec (o + n) size seen.1 seen.2 in
      elim (Bool-cases (ltb o size)) [
        | inr b ↦ rw (b, verify_loop) (λ h. Compared-none o d t (ground arith))
        | inl b ↦
            rw (b, verify_loop)
              (elim (Option-cases seen.0) [
                | inr (e, f) ↦ rw f (λ h. cc)
                | inl f ↦
                    let done = compare_chunk-Compared o t r _ refl g (ltb→lt o size b) f in
                    let kept = report_verify-keeps (o + n) size seen.1 seen.2 in
                    rw f (elim (Option-cases told.0) [
                      | inr (e, f') ↦ rw f' (λ h. cc)
                      | inl f' ↦ rw f' (λ h.
                          Compared-trans (omega arith)
                            (chunk_at-le opt.chunk_size size o (ltb→lt o size b))
                            (subst (λ (z : Device). Compared o (o + n) z t told.1) same
                              (moved done.0 kept.0 kept.1))
                            (verify_loop-Good fuel (o + n) told.1 told.2 d
                              (kept.2 ∙ ap (λ (z : Rig S). z.device) done.1 ∙ same)
                              (OnGrid-next opt.chunk_size size o g (ltb→lt o size b)) h))
                    ])
              ])
      ]

  verify_loop-Compared :
      (fuel : ℕ) (t : Tally) (r : Rig S)
      → (verify_loop x w on_progress opt spec fuel 0 size t r).0 ≡ none
      → Compared 0 size r.device t (verify_loop x w on_progress opt spec fuel 0 size t r).1
  verify_loop-Compared fuel t r h =
      verify_loop-Good fuel 0 t r r.device refl (inl (0, grind arith)) h

module _ {S : Type 0} (x : Externals) (w : World)
    (on_progress : Progress → S → Option Fault × S) where
  abbrev whole : ℕ → List Span
  whole size = record { start = 0; end = size } ∷ []

  abbrev fresh_tally : Tally
  fresh_tally = record { bytes = 0; mismatches = 0; samples = []; since_report = 0 }

  -- The device as the last pass leaves it, byte for byte.
  abbrev pub IsClean : Options → Device → Type 0
  IsClean opt d = Agrees 0 d.size d.bytes (image x opt (final_pass opt) d.size)

  -- What a full verification without an error returns.
  abbrev Exact : Options → Device → Verified S → Type 0
  Exact opt d out = out.0 ≡ none → (out.1.bytes ≡ d.size) × ((out.1.mismatches ≡ 0) ↔ IsClean opt d)

  tally-Exact :
      (opt : Options) (r : Rig S) (out : Verified S)
      → Compared x w on_progress opt r.device.size
          (final_pass opt)
          0
          r.device.size
          r.device
          fresh_tally
          out.1
      → Exact opt r.device out
  tally-Exact opt r out c h = (
    omega (arith, c.bytes),
    (λ z. c.clean.0 (omega (arith, c.mismatches)), λ a. omega (arith, c.mismatches, c.clean.1 a)),
  )

  verify_ranges-Exact :
      (opt : Options) (r : Rig S)
      → (opt.standard.verify_mode == "sample") ≡ false
      → Exact opt r.device
          (verify_ranges x w on_progress opt (final_pass opt) (whole r.device.size) fresh_tally r)
  unfolding verify_ranges
  verify_ranges-Exact opt r full =
      let size = r.device.size in
      let final = final_pass opt in
      let seen = verify_loop x w on_progress opt final (suc (size - 0)) 0 size fresh_tally r in
      elim (Option-cases seen.0) [
        | inr (e, f) ↦ rw (f, verify_ranges) (λ h. cc)
        | inl f ↦
            rw (f, full, verify_ranges)
              (tally-Exact opt r (none, seen.1, seen.2)
                (verify_loop-Compared x w on_progress opt size final (suc (size - 0)) fresh_tally r
                  f))
      ]

  ranges_of-full :
      (opt : Options) (size : ℕ)
      → (opt.standard.verify_mode == "sample") ≡ false
      → ranges_of x w on_progress opt size ≡ some (whole size)
  ranges_of-full opt size full = rw full

  -- A full verification that ends without an error has compared as many bytes as the device has,
  -- and finds no mismatch exactly if every byte of the device is the last pass's.
  pub verify-exact :
      (opt : Options) (r : Rig S)
      → (opt.standard.verify_mode == "sample") ≡ false
      → (verify x w on_progress opt r).0 ≡ none
      → ((verify x w on_progress opt r).1.bytes ≡ r.device.size)
        × (((verify x w on_progress opt r).1.mismatches ≡ 0) ↔ IsClean opt r.device)
  unfolding verify
  verify-exact opt r full h =
      subst
        (λ (spans : Option (List Span)).
          Exact opt r.device (verify_chosen x w on_progress opt spans fresh_tally r))
        (sym (ranges_of-full opt r.device.size full)) (verify_ranges-Exact opt r full) h

  -- The overwrite phase of a run.
  abbrev pub overwritten : Options → Rig S → Outcome S
  overwritten opt r =
      let opt' = with_defaults opt in
      write_passes x w on_progress opt' opt'.resume_pass
        (drop opt'.resume_pass opt'.standard.passes) r

  pub run-parts :
      (opt : Options) (r : Rig S)
      → (run x w on_progress opt r).0 ≡ none
      → let written = overwritten opt r in
        (written.0 ≡ none)
        × ((verify x w on_progress (with_defaults opt) written.1).0 ≡ none)
        × ((run x w on_progress opt r).1 ≡ (verify x w on_progress (with_defaults opt) written.1).1)
  unfolding run
  run-parts opt r h = ground arith

  last_pass-drop :
      (n : ℕ) (d p : PassSpec) (qs ps : List PassSpec)
      → drop n qs ≡ p ∷ ps
      → last_pass d qs ≡ last_pass p ps
  last_pass-drop zero d p [] ps e = cc
  last_pass-drop zero d p (q ∷ qs) ps e = ground arith
  last_pass-drop (suc n) d p [] ps e = cc
  last_pass-drop (suc n) d p (q ∷ qs) ps e = last_pass-drop n q p qs ps e

  Wiped-IsClean :
      (opt : Options) (p : PassSpec) (size : ℕ) (r : Rig S)
      → final_pass opt ≡ p
      → Wiped x w on_progress opt size p 0 r
      → (r.device.size ≡ size) × IsClean opt r.device
  Wiped-IsClean opt p size r e v = (
    v.sized,
    subst (λ (s : ℕ). Agrees 0 s r.device.bytes (image x opt (final_pass opt) s)) (sym v.sized)
        (subst (λ (q : PassSpec). Agrees 0 size r.device.bytes (image x opt q size)) (sym e)
          v.agrees),
  )

  -- Run as a whole, on a standard that asks for a full verification: if it ends without an error,
  -- the verification has compared every byte of the device and found no mismatch. `ResumeOk` is
  -- about a resumption inside the last pass only.
  pub run-verifies :
      (opt : Options) (p : PassSpec) (ps : List PassSpec) (r : Rig S)
      → let opt' = with_defaults opt in
        drop opt'.resume_pass opt'.standard.passes ≡ p ∷ ps
        → (opt.standard.verify_mode == "sample") ≡ false
        → ResumeOk x w on_progress opt' r.device.size opt'.resume_pass p ps r
        → (run x w on_progress opt r).0 ≡ none
        → ((run x w on_progress opt r).1.mismatches ≡ 0)
          × ((run x w on_progress opt r).1.bytes ≡ r.device.size)
  run-verifies opt p ps r e full ok h =
      (rw parts.2 (exact.1.1 clean.1), rw parts.2 (exact.0 ∙ clean.0))
    where
      opt' : Options
      opt' = with_defaults opt

      parts :
          ((overwritten opt r).0 ≡ none)
          × ((verify x w on_progress opt' (overwritten opt r).1).0 ≡ none)
          × ((run x w on_progress opt r).1 ≡ (verify x w on_progress opt' (overwritten opt r).1).1)
      parts = run-parts opt r h

      wiped : Wiped x w on_progress opt' r.device.size (last_pass p ps) 0 (overwritten opt r).1
      wiped =
          subst
            (λ (qs : List PassSpec).
              (write_passes x w on_progress opt' opt'.resume_pass qs r).0 ≡ none
              → Wiped x w on_progress opt' r.device.size (last_pass p ps) 0
                  (write_passes x w on_progress opt' opt'.resume_pass qs r).1)
            (sym e)
            (overwrite-Wiped x w on_progress opt' r.device.size opt'.resume_pass p ps r refl
              (omega arith) ok)
            parts.0

      clean :
          ((overwritten opt r).1.device.size ≡ r.device.size)
          × IsClean opt' (overwritten opt r).1.device
      clean =
          Wiped-IsClean opt' (last_pass p ps) r.device.size (overwritten opt r).1
            (last_pass-drop opt'.resume_pass no_pass p opt'.standard.passes ps e) wiped

      exact :
          ((verify x w on_progress opt' (overwritten opt r).1).1.bytes
            ≡ (overwritten opt r).1.device.size)
          × (((verify x w on_progress opt' (overwritten opt r).1).1.mismatches ≡ 0)
              ↔ IsClean opt' (overwritten opt r).1.device)
      exact = verify-exact opt' (overwritten opt r).1 (unfold with_defaults in full) parts.1
