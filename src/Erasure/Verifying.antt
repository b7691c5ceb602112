-- ===== src/Erasure/Verifying.antt =====
-- internal/erasure/engine.go, verify: a verification that is cut off leaves a checkpoint from which a
-- run can go on.
use xiesg0915_work.Prelude.{
  ℕ, zero, suc, ◌+◌, ◌*◌, ◌-◌, ◌≡◌, ◌≤◌, ◌<◌, inl, inr, ◌∙◌, sym, subst, refl, ◌==◌, ◌||◌, Option,
  some, false, [], ◌∷◌, length, ltb, leb, arith, Option-cases, Bool-cases, ltb→lt,
}
use xiesg0915_work.Erasure.Device.{Device, Fault, Progress, World}
use xiesg0915_work.Erasure.Engine.{Options, Externals, Rig, chunk_at}
use xiesg0915_work.Erasure.Verify.{
  Tally, final_pass, compare_chunk, report_verify, verify_loop, verify_ranges, verify,
}
use xiesg0915_work.Erasure.Image.{image, Agrees, OnGrid, OnGrid-next}
use xiesg0915_work.Erasure.Kept.{compare_chunk-rig}
use xiesg0915_work.Erasure.Resume.{Point, resumed, Saves, IsSafe, IsResumable}

module _ {S : Type 0} (x : Externals) (opt : Options) (size : ℕ) (saved : S → Option Point)
    (w : World) (on_progress : Progress → S → Option Fault × S) (c₀ : Point) where
  -- Every byte is the last pass's, on stable storage too.
  pub record IsDone (d : Device) : Type 0 where
    pub sized : d.size ≡ size
    pub bytes : Agrees 0 size d.bytes (image x opt (final_pass opt) size)
    pub durable : Agrees 0 size d.durable (image x opt (final_pass opt) size)

  -- The device is done, and the checkpoint is safe.
  record IsChecking (r : Rig S) : Type 0 where
    done : IsDone r.device
    safe : (c : Point) → saved r.state ≡ some c → IsSafe x opt size saved c r.device

  -- A checkpoint of the verification is safe on a device that is done.
  verifying-IsSafe :
      (d : Device) (o : ℕ)
      → IsDone d
      → (final_pass opt).index < length opt.standard.passes
      → OnGrid opt.chunk_size size o
      → o ≤ size
      → IsSafe x opt size saved ((final_pass opt).index, o) d
  verifying-IsSafe d o v k g l = record {
    pass = k;
    last = λ z. (g, λ i f j. v.bytes i f (omega arith), λ i f j. v.durable i f (omega arith));
  }

  module _ (saves : Saves x opt size saved on_progress)
      (known : (final_pass opt).index < length opt.standard.passes) where
    report_verify-IsChecking :
        (o : ℕ) (t : Tally) (r : Rig S)
        → OnGrid opt.chunk_size size o
        → o ≤ size
        → IsChecking r
        → IsChecking (report_verify x w on_progress (resumed opt c₀) (final_pass opt) o size t r).2
    unfolding report_verify
    report_verify-IsChecking o t r g l v =
        elim (Bool-cases (leb (opt.checkpoint_step * 4) t.since_report || leb size o)) [
          | inr b ↦ rw (b, report_verify) v
          | inl b ↦
              rw (b, report_verify)
                (record {
                  done = v.done;
                  safe = λ c e. elim (saves _ r.state) [
                    | inl k ↦ v.safe c (sym k ∙ e)
                    | inr k ↦
                        subst (λ z. IsSafe x opt size saved z r.device) (some_eq (sym k ∙ e))
                          (verifying-IsSafe r.device o v.done known g l)
                  ];
                })
        ]
      where
        some_eq : {a b : Point} → some a ≡ some b → a ≡ b
        some_eq h = cc

    chunk_le : (c o : ℕ) → o < size → o + chunk_at c size o ≤ size
    chunk_le c o l = ground arith

    verify_loop-IsChecking :
        (fuel o : ℕ) (t : Tally) (r : Rig S)
        → OnGrid opt.chunk_size size o
        → IsChecking r
        → IsChecking
            (verify_loop x w on_progress (resumed opt c₀) (final_pass opt) fuel o size t r).2
    unfolding verify_loop
    verify_loop-IsChecking zero o t r g v = v
    verify_loop-IsChecking (suc fuel) o t r g v =
        let n = chunk_at opt.chunk_size size o in
        let seen = compare_chunk x w on_progress (resumed opt c₀) (final_pass opt) o n t r in
        let told =
          report_verify x w on_progress (resumed opt c₀) (final_pass opt) (o + n) size seen.1
            seen.2 in
        let v' : IsChecking seen.2 =
          subst IsChecking
            (compare_chunk-rig x w on_progress (resumed opt c₀) (λ q. q.device ≡ q.device)
              (λ p q h. refl) (final_pass opt) o n t r)
            v in
        elim (Bool-cases (ltb o size)) [
          | inr b ↦ rw (b, verify_loop) v
          | inl b ↦
              let l = ltb→lt o size b in
              let g' = OnGrid-next opt.chunk_size size o g l in
              let v'' =
                report_verify-IsChecking (o + n) seen.1 seen.2 g' (chunk_le opt.chunk_size o l)
                  v' in
              rw (b, verify_loop)
                (elim (Option-cases seen.0) [
                  | inr (f, e) ↦ rw e v'
                  | inl e ↦ rw e (elim (Option-cases told.0) [
                    | inr (f, h) ↦ rw h v''
                    | inl h ↦ rw h (verify_loop-IsChecking fuel (o + n) told.1 told.2 g' v'')
                  ])
                ])
        ]

    range-IsChecking :
        (end : ℕ) (t : Tally) (r : Rig S)
        → end ≡ size
        → IsChecking r
        → IsChecking
            (verify_ranges x w on_progress
              (resumed opt c₀)
              (final_pass opt)
              (record { start = 0; end = end } ∷ [])
              t
              r).2
    unfolding verify_ranges
    range-IsChecking end t r e v =
        let seen =
          verify_loop x w on_progress (resumed opt c₀) (final_pass opt) (suc (end - 0)) 0 end t r in
        let v' : IsChecking seen.2 =
          subst
            (λ z.
              IsChecking
                (verify_loop x w on_progress (resumed opt c₀) (final_pass opt) (suc (end - 0)) 0 z t
                  r).2)
            (sym e) (verify_loop-IsChecking (suc (end - 0)) 0 t r (inl (0, omega arith)) v) in
        elim (Option-cases seen.0) [
          | inr (f, h) ↦ rw (h, verify_ranges) v'
          | inl h ↦ rw (h, verify_ranges) v'
        ]

    -- A full verification, cut off or not, leaves a rig from which a run can go on.
    pub verify-IsResumable :
        (r : Rig S)
        → (opt.standard.verify_mode == "sample") ≡ false
        → IsDone r.device
        → IsResumable x opt size saved r
        → IsResumable x opt size saved (verify x w on_progress (resumed opt c₀) r).2
    unfolding verify
    verify-IsResumable r full d v =
        let out : IsChecking (verify x w on_progress (resumed opt c₀) r).2 =
          rw (full, verify)
            (range-IsChecking r.device.size
              (record { bytes = 0; mismatches = 0; samples = []; since_report = 0 }) r v.sized
              (record { done = d; safe = v.safe })) in
        record { sized = out.done.sized; safe = out.safe }
