-- ===== src/Erasure/Wipe.antt =====
-- What a run of the overwrite leaves on the device: a pass that ends without an error has written
-- the pass's image, and the last pass is what remains.
use xiesg0915_work.Prelude.{
  ℕ, zero, suc, ◌+◌, ◌-◌, ◌≤◌, ◌<◌, ◌≡◌, refl, inl, inr, false, ◌&&◌, ◌||◌, Option, none, some,
  List, [], ◌∷◌, eqb, ltb, leb, arith, sym, ◌∙◌, subst, Bool-cases, Option-cases, ltb→lt,
}
use xiesg0915_work.Domain.Entities.{PassSpec}
use xiesg0915_work.Erasure.Stream.{Buffer, stream_at}
use xiesg0915_work.Erasure.Device.{write_at, Fault, Progress, World}
use xiesg0915_work.Erasure.Engine.{
  Options, Externals, Rig, Outcome, chunk_at, last_pass, checkpoint, fill_chunk, write_loop,
  write_pass, write_passes, start_of,
}
use xiesg0915_work.Erasure.Image.{image, Agrees, Agrees-write, OnGrid, OnGrid-next}

module _ {S : Type 0} (x : Externals) (w : World) (on_progress : Progress → S → Option Fault × S)
    (opt : Options) (size : ℕ) where
  -- The pass has been written from `from` up to `offset`.
  pub record Written (spec : PassSpec) (from offset : ℕ) (r : Rig S) : Type 0 where
    pub sized : r.device.size ≡ size
    pub grid : OnGrid opt.chunk_size size offset
    pub agrees : Agrees from offset r.device.bytes (image x opt spec size)

  -- The pass has been written from `from` to the end of the device.
  pub record Wiped (spec : PassSpec) (from : ℕ) (r : Rig S) : Type 0 where
    pub sized : r.device.size ≡ size
    pub agrees : Agrees from size r.device.bytes (image x opt spec size)

  Filled : PassSpec → ℕ → Rig S → Rig S → Type 0
  Filled spec o r r' =
      (buf : Buffer) × (stream_at x.keystream spec.pattern opt.job_id spec.index
          (chunk_at opt.chunk_size r.device.size o) o
        ≡ some buf)
      × (r'
          ≡ record r { device = write_at o (chunk_at opt.chunk_size r.device.size o) buf r.device })

  fill_chunk-Filled :
      (spec : PassSpec) (o : ℕ) (r : Rig S) (b : Option Buffer)
      → stream_at x.keystream spec.pattern opt.job_id spec.index
          (chunk_at opt.chunk_size r.device.size o)
          o
        ≡ b
      → let n = chunk_at opt.chunk_size r.device.size o in
        (fill_chunk x w on_progress opt spec o n r).0 ≡ none
        → Filled spec o r (fill_chunk x w on_progress opt spec o n r).1
  unfolding fill_chunk Filled
  fill_chunk-Filled spec o r none e h = ground (arith, e)
  fill_chunk-Filled spec o r (some b) e h = (b, e, ground (arith, e))

  pub fill_chunk-Written :
      (spec : PassSpec) (from o : ℕ) (r : Rig S)
      → Written spec from o r
      → o < r.device.size
      → let n = chunk_at opt.chunk_size r.device.size o in
        (fill_chunk x w on_progress opt spec o n r).0 ≡ none
        → Written spec from (o + n) (fill_chunk x w on_progress opt spec o n r).1
  unfolding Filled
  fill_chunk-Written spec from o r v k h =
      write (fill_chunk x w on_progress opt spec o _ r).1 (fill_chunk-Filled spec o r _ refl h)
    where
      write :
          (r' : Rig S)
          → Filled spec o r r'
          → Written spec from (o + chunk_at opt.chunk_size r.device.size o) r'
      write r' (buf, e, f) =
          subst (Written spec from (o + chunk_at opt.chunk_size r.device.size o)) (sym f) (
            subst
              (λ (s : ℕ).
                Written spec from (o + chunk_at opt.chunk_size s o)
                  (record r { device = write_at o (chunk_at opt.chunk_size s o) buf r.device }))
              (sym v.sized)
              (record {
                sized = v.sized;
                grid = OnGrid-next opt.chunk_size size o v.grid (subst (λ s. o < s) v.sized k);
                agrees =
                    Agrees-write x opt spec size from o buf r.device.bytes v.grid
                      (subst (λ s. o < s) v.sized k)
                      (subst
                        (λ (s : ℕ).
                          stream_at x.keystream spec.pattern opt.job_id spec.index
                            (chunk_at opt.chunk_size s o) o
                          ≡ some buf)
                        v.sized e)
                      v.agrees;
              }))

  pub checkpoint-device :
      (spec : PassSpec) (o : ℕ) (r : Rig S)
      → ((checkpoint x w on_progress spec o r).1.device.size ≡ r.device.size)
        × ((checkpoint x w on_progress spec o r).1.device.bytes ≡ r.device.bytes)
  unfolding checkpoint
  checkpoint-device spec o r = ground arith

  checkpoint-Written :
      (spec : PassSpec) (from o p : ℕ) (r : Rig S)
      → Written spec from o r
      → Written spec from o (checkpoint x w on_progress spec p r).1
  checkpoint-Written spec from o p r v =
      let same = checkpoint-device spec p r in
      record {
        sized = same.0 ∙ v.sized;
        grid = v.grid;
        agrees = subst (λ b. Agrees from o b (image x opt spec size)) (sym same.1) v.agrees;
      }

  at_end :
      (spec : PassSpec) (from o : ℕ) (r : Rig S)
      → Written spec from o r
      → ltb o r.device.size ≡ false
      → Wiped spec from r
  at_end spec from o r v h = record {
    sized = v.sized;
    agrees = λ i f l. v.agrees i f (ground (arith, v.sized));
  }

  -- An outcome without an error leaves the pass written.
  abbrev Good : PassSpec → ℕ → Outcome S → Type 0
  Good spec from out = out.0 ≡ none → Wiped spec from out.1

  write_loop-Good :
      (spec : PassSpec) (from fuel o last : ℕ) (r : Rig S)
      → Written spec from o r
      → Good spec from (write_loop x w on_progress opt spec fuel o last r)
  unfolding write_loop
  write_loop-Good spec from zero o last r v = λ h. cc
  write_loop-Good spec from (suc fuel) o last r v =
      let n = chunk_at opt.chunk_size r.device.size o in
      let filled = fill_chunk x w on_progress opt spec o n r in
      let saved = checkpoint x w on_progress spec (o + n) filled.1 in
      let due = leb opt.checkpoint_step (o + n - last) || leb r.device.size (o + n) in
      elim (Bool-cases (ltb o r.device.size)) [
        | inr b ↦ rw (b, write_loop) (λ h. at_end spec from o r v b)
        | inl b ↦
            rw (b, write_loop)
              (elim (Option-cases filled.0) [
                | inr (e, f) ↦ rw f (λ h. cc)
                | inl f ↦
                    let v' = fill_chunk-Written spec from o r v (ltb→lt o r.device.size b) f in
                    rw f (elim (Bool-cases due) [
                      | inr d ↦ rw d (write_loop-Good spec from fuel (o + n) last filled.1 v')
                      | inl d ↦ rw d (elim (Option-cases saved.0) [
                        | inr (e, g) ↦ rw g (λ h. cc)
                        | inl g ↦ rw g (
                            write_loop-Good spec from fuel (o + n) (o + n) saved.1
                              (checkpoint-Written spec from (o + n) (o + n) filled.1 v'))
                      ])
                    ])
              ])
      ]

  -- A pass that ends without an error has written its image, and all of it is on stable storage.
  record Stable (spec : PassSpec) (r : Rig S) : Type 0 where
    wiped : Wiped spec 0 r
    synced : r.device.durable ≡ r.device.bytes

  abbrev GoodPass : PassSpec → Outcome S → Type 0
  GoodPass spec out = out.0 ≡ none → Stable spec out.1

  write_pass-Good :
      (spec : PassSpec) (start : ℕ) (r : Rig S)
      → Written spec 0 start r
      → GoodPass spec (write_pass x w on_progress opt spec start r)
  unfolding write_pass
  write_pass-Good spec start r v =
      let written = write_loop x w on_progress opt spec (suc r.device.size) start start r in
      elim (Option-cases written.0) [
        | inr (e, f) ↦ rw (f, write_pass) (λ h. cc)
        | inl f ↦
            let done = write_loop-Good spec 0 (suc r.device.size) start start r v f in
            rw (f, write_pass)
              (elim (Option-cases (w.end_sync_fault spec.index)) [
                | inr (e, g) ↦ rw g (λ h. cc)
                | inl g ↦ rw g (λ h. record {
                  wiped = record { sized = done.sized; agrees = done.agrees };
                  synced = refl;
                })
              ])
      ]

  -- No part of a pass changes the size of the device.
  abbrev Sized : Outcome S → Type 0
  Sized out = out.1.device.size ≡ size

  pub fill_chunk-size :
      (spec : PassSpec) (o n : ℕ) (r : Rig S)
      → (fill_chunk x w on_progress opt spec o n r).1.device.size ≡ r.device.size
  unfolding fill_chunk
  fill_chunk-size spec o n r = ground arith

  write_loop-size :
      (spec : PassSpec) (fuel o last : ℕ) (r : Rig S)
      → r.device.size ≡ size
      → Sized (write_loop x w on_progress opt spec fuel o last r)
  unfolding write_loop
  write_loop-size spec zero o last r v = v
  write_loop-size spec (suc fuel) o last r v =
      let n = chunk_at opt.chunk_size r.device.size o in
      let filled = fill_chunk x w on_progress opt spec o n r in
      let saved = checkpoint x w on_progress spec (o + n) filled.1 in
      let due = leb opt.checkpoint_step (o + n - last) || leb r.device.size (o + n) in
      let f' = fill_chunk-size spec o n r ∙ v in
      let s' = (checkpoint-device spec (o + n) filled.1).0 ∙ f' in
      elim (Bool-cases (ltb o r.device.size)) [
        | inr b ↦ rw (b, write_loop) v
        | inl b ↦
            rw (b, write_loop)
              (elim (Option-cases filled.0) [
                | inr (e, f) ↦ rw f f'
                | inl f ↦ rw f (elim (Bool-cases due) [
                  | inr d ↦ rw d (write_loop-size spec fuel (o + n) last filled.1 f')
                  | inl d ↦ rw d (elim (Option-cases saved.0) [
                    | inr (e, g) ↦ rw g s'
                    | inl g ↦ rw g (write_loop-size spec fuel (o + n) (o + n) saved.1 s')
                  ])
                ])
              ])
      ]

  pub write_pass-size :
      (spec : PassSpec) (start : ℕ) (r : Rig S)
      → r.device.size ≡ size
      → Sized (write_pass x w on_progress opt spec start r)
  unfolding write_pass
  write_pass-size spec start r v =
      let kept = write_loop-size spec (suc r.device.size) start start r v in
      let written = write_loop x w on_progress opt spec (suc r.device.size) start start r in
      elim (Option-cases written.0) [
        | inr (e, f) ↦ rw (f, write_pass) kept
        | inl f ↦
            rw (f, write_pass)
              (elim (Option-cases (w.end_sync_fault spec.index)) [
                | inr (e, g) ↦ rw g kept
                | inl g ↦ rw g kept
              ])
      ]

  -- What a resumption in the last pass relies on: the offset lies on the grid of chunks, and what
  -- lies before it has been written.
  abbrev pub ResumeOk : ℕ → PassSpec → List PassSpec → Rig S → Type 0
  ResumeOk idx p (q ∷ qs) r = Unit
  ResumeOk idx p [] r =
      idx ≡ opt.resume_pass
      → 0 < opt.resume_offset
      → OnGrid opt.chunk_size size opt.resume_offset
        × Agrees 0 opt.resume_offset r.device.bytes (image x opt p size)

  pub started :
      (idx : ℕ) (p : PassSpec) (r : Rig S)
      → r.device.size ≡ size
      → ResumeOk idx p [] r
      → Written p 0 (start_of x w on_progress opt idx) r
  started idx p r v ok = elim (Bool-cases (eqb idx opt.resume_pass && ltb 0 opt.resume_offset)) [
    | inl b ↦
        let at_resume = ok (ground arith) (ground arith) in
        rw b (record { sized = v; grid = at_resume.0; agrees = at_resume.1 })
    | inr b ↦
        rw b (record {
          sized = v;
          grid = inl (0, grind arith);
          agrees = λ i h l. absurd (omega arith);
        })
  ]

  -- A pass behind the resumed one relies on nothing.
  later :
      (idx : ℕ) (p : PassSpec) (ps : List PassSpec) (r : Rig S)
      → opt.resume_pass ≤ idx
      → ResumeOk (suc idx) p ps r
  later idx p [] r le = λ e. absurd (omega arith)
  later idx p (q ∷ qs) r le = tt

  abbrev GoodRun : PassSpec → Outcome S → Type 0
  GoodRun spec out = out.0 ≡ none → Wiped spec 0 out.1

  write_passes-Good :
      (idx : ℕ) (p : PassSpec) (ps : List PassSpec) (r : Rig S)
      → r.device.size ≡ size
      → opt.resume_pass ≤ idx
      → ResumeOk idx p ps r
      → GoodRun (last_pass p ps) (write_passes x w on_progress opt idx (p ∷ ps) r)
  unfolding write_passes
  write_passes-Good idx p [] r v le ok =
      let skip =
        eqb idx opt.resume_pass && ltb 0 opt.resume_offset && leb r.device.size opt.resume_offset in
      let written = write_pass x w on_progress opt p (start_of x w on_progress opt idx) r in
      elim (Bool-cases skip) [
        | inl b ↦
            let at_resume = ok (ground arith) (ground arith) in
            rw (b, write_passes)
              (λ h. record { sized = v; agrees = λ i f l. at_resume.1 i f (ground (arith, v)) })
        | inr b ↦
            rw (b, write_passes)
              (elim (Option-cases written.0) [
                | inr (e, f) ↦ rw f (λ h. cc)
                | inl f ↦ rw f (λ h.
                    (write_pass-Good p (start_of x w on_progress opt idx) r (started idx p r v ok)
                      f).wiped)
              ])
      ]
  write_passes-Good idx p (q ∷ qs) r v le ok =
      let skip =
        eqb idx opt.resume_pass && ltb 0 opt.resume_offset && leb r.device.size opt.resume_offset in
      let start = start_of x w on_progress opt idx in
      let written = write_pass x w on_progress opt p start r in
      elim (Bool-cases skip) [
        | inl b ↦
            rw (b, write_passes)
              (write_passes-Good (suc idx) q qs r v (omega arith) (later idx q qs r le))
        | inr b ↦
            rw (b, write_passes)
              (elim (Option-cases written.0) [
                | inr (e, f) ↦ rw f (λ h. cc)
                | inl f ↦ rw f (
                    write_passes-Good (suc idx) q qs written.1 (write_pass-size p start r v)
                      (omega arith) (later idx q qs written.1 le))
              ])
      ]

  -- The overwrite phase, resumed or fresh: if it ends without an error, every byte of the device is
  -- the one that the last pass of the standard writes there. Where it resumes inside the last pass,
  -- the checkpoint must lie on the grid of chunks with the bytes before it already written.
  pub overwrite-Wiped :
      (idx : ℕ) (p : PassSpec) (ps : List PassSpec) (r : Rig S)
      → r.device.size ≡ size
      → opt.resume_pass ≤ idx
      → ResumeOk idx p ps r
      → (write_passes x w on_progress opt idx (p ∷ ps) r).0 ≡ none
      → Wiped (last_pass p ps) 0 (write_passes x w on_progress opt idx (p ∷ ps) r).1
  overwrite-Wiped idx p ps r v le ok = write_passes-Good idx p ps r v le ok
