-- ===== src/Erasure/Cut.antt =====
-- internal/erasure/engine.go, overwrite: what a pass that is cut off anywhere leaves behind.
use xiesg0915_work.Prelude.{
  ℕ, ◌+◌, ◌≡◌, ◌≤◌, ◌<◌, ◌⊎◌, inl, inr, ◌∙◌, ap, sym, subst, refl, Option, none, some, length,
  arith, Option-cases,
}
use xiesg0915_work.Domain.Entities.{PassSpec}
use xiesg0915_work.Erasure.Stream.{Buffer}
use xiesg0915_work.Erasure.Device.{sync, Fault, Progress, World, overwriting}
use xiesg0915_work.Erasure.Engine.{
  Options, Externals, Rig, chunk_at, checkpoint, fill_chunk, write_chunk, write_pass,
}
use xiesg0915_work.Erasure.Verify.{final_pass}
use xiesg0915_work.Erasure.Image.{image, Agrees, OnGrid}
use xiesg0915_work.Erasure.Wipe.{Written, fill_chunk-Written, fill_chunk-size}
use xiesg0915_work.Erasure.Walk.{write_pass-End}
use xiesg0915_work.Erasure.Resume.{Point, resumed, Saves, IsResumable}

module _ {S : Type 0} (x : Externals) (w : World) (on_progress : Progress → S → Option Fault × S)
    (opt : Options) (spec : PassSpec) where
  -- A checkpoint that fails to sync changes nothing; any other has synced and called the function.
  checkpoint-cases :
      (o : ℕ) (r : Rig S)
      → let p : Progress = record {
        pass = spec.index;
        offset = o;
        total = r.device.size;
        phase = overwriting;
      } in
        ((checkpoint x w on_progress spec o r).1 ≡ r)
        ⊎ ((checkpoint x w on_progress spec o r).1
            ≡ record { device = sync r.device; state = (on_progress p r.state).1 })
  unfolding checkpoint
  checkpoint-cases o r = elim (Option-cases (w.sync_fault spec.index o)) [
    | inr (e, f) ↦ rw (f, checkpoint) (inl refl)
    | inl f ↦ rw (f, checkpoint) (inr refl)
  ]

  -- A chunk that is written, in part or whole, changes no byte before it and nothing durable.
  fill_chunk-before :
      (o n : ℕ) (r : Rig S)
      → let r' = (fill_chunk x w on_progress opt spec o n r).1 in
        ((i : ℕ) → i < o → r'.device.bytes i ≡ r.device.bytes i)
        × (r'.device.durable ≡ r.device.durable)
        × (r'.state ≡ r.state)
  unfolding fill_chunk write_chunk
  fill_chunk-before o n r = (λ i h. ground arith, ground arith, ground arith)

module _ {S : Type 0} (x : Externals) (opt : Options) (size : ℕ) (saved : S → Option Point)
    (w : World) (on_progress : Progress → S → Option Fault × S) (c₀ : Point) (spec : PassSpec) where
  -- No checkpoint of the last pass was saved.
  pub record IsEarly (r : Rig S) : Type 0 where
    pub sized : r.device.size ≡ size
    pub early : (c : Point) → saved r.state ≡ some c → c.0 + 1 < length opt.standard.passes

  -- A pass before the last one saves its own checkpoints only.
  pub write_pass-IsEarly :
      (start : ℕ) (r : Rig S)
      → Saves x opt size saved on_progress
      → spec.index + 1 < length opt.standard.passes
      → IsEarly r
      → IsEarly (write_pass x w on_progress (resumed opt c₀) spec start r).1
  write_pass-IsEarly start r saves l v =
      write_pass-End x w on_progress (resumed opt c₀) spec (λ o. IsEarly) IsEarly
        (λ o q u. (u, record { sized = u.sized; early = u.early }))
        (λ o q u k.
          let f = fill_chunk-before x w on_progress (resumed opt c₀) spec o _ q in
          let u' : IsEarly (fill_chunk x w on_progress (resumed opt c₀) spec o _ q).1 = record {
            sized = fill_chunk-size x w on_progress (resumed opt c₀) size spec o _ q ∙ u.sized;
            early = λ c e. u.early c (ap saved (sym f.2) ∙ e);
          } in
          (u', λ h. u'))
        (λ o q u. elim (checkpoint-cases x w on_progress (resumed opt c₀) spec o q) [
          | inl e ↦ subst IsEarly (sym e) u
          | inr e ↦ subst IsEarly (sym e) (record {
            sized = u.sized;
            early = λ c g. elim (saves _ q.state) [
              | inl k ↦ u.early c (sym k ∙ g)
              | inr k ↦ ground (arith, k, g, l)
            ];
          })
        ])
        start r v

  -- A checkpoint of the last pass lies at or before `o`, and the bytes before it are written.
  abbrev pub IsBehind : Point → ℕ → Buffer → Type 0
  IsBehind c o bytes =
      (c.1 ≤ o) × OnGrid opt.chunk_size size c.1 × Agrees 0 c.1 bytes (image x opt spec size)

  -- The last pass is written up to `o`, and so are the durable bytes before each checkpoint of it.
  pub record IsWriting (o : ℕ) (r : Rig S) : Type 0 where
    pub written : Written x w on_progress (resumed opt c₀) size spec 0 o r
    pub behind :
        (c : Point)
        → saved r.state ≡ some c
        → (c.0 < length opt.standard.passes)
          × (c.0 + 1 ≡ length opt.standard.passes → IsBehind c o r.device.durable)

  pub image-resumed : image x (resumed opt c₀) spec size ≡ image x opt spec size
  unfolding image
  image-resumed = refl

  written_before :
      (o : ℕ) (r : Rig S)
      → Written x w on_progress (resumed opt c₀) size spec 0 o r
      → Agrees 0 o r.device.bytes (image x opt spec size)
  written_before o r v = subst (Agrees 0 o r.device.bytes) image-resumed v.agrees

  -- A rig with the same checkpoint and the same bytes up to `o`, synced or not, is resumable.
  IsWriting-IsResumable :
      (o : ℕ) (r r' : Rig S)
      → final_pass opt ≡ spec
      → IsWriting o r
      → r'.device.size ≡ size
      → r'.state ≡ r.state
      → ((i : ℕ) → i < o → r'.device.bytes i ≡ r.device.bytes i)
      → (r'.device.durable ≡ r.device.durable) ⊎ (r'.device.durable ≡ r'.device.bytes)
      → IsResumable x opt size saved r'
  IsWriting-IsResumable o r r' e v sized st same d = record {
    sized = sized;
    safe = λ c g.
        let b = v.behind c (ap saved (sym st) ∙ g) in
        record {
          pass = b.0;
          last = λ z.
              let q = b.1 z in
              let now : Agrees 0 c.1 r'.device.bytes (image x opt spec size) = λ i f k.
                same i (omega (arith, q.0))
                ∙ written_before o r v.written i f (omega (arith, q.0)) in
              let kept : Agrees 0 c.1 r'.device.durable (image x opt spec size) = elim d [
                | inl k ↦ subst (λ u. Agrees 0 c.1 u (image x opt spec size)) (sym k) q.2
                | inr k ↦ subst (λ u. Agrees 0 c.1 u (image x opt spec size)) (sym k) now
              ] in
              subst
                (λ p.
                  OnGrid opt.chunk_size size c.1
                  × Agrees 0 c.1 r'.device.bytes (image x opt p size)
                  × Agrees 0 c.1 r'.device.durable (image x opt p size))
                (sym e) (q.1, now, kept);
        };
  }

  module _ (saves : Saves x opt size saved on_progress) (e : final_pass opt ≡ spec)
      (known : spec.index < length opt.standard.passes) where
    fill_chunk-IsWriting :
        (o : ℕ) (r : Rig S)
        → IsWriting o r
        → o < r.device.size
        → let n = chunk_at opt.chunk_size r.device.size o in
          let filled = fill_chunk x w on_progress (resumed opt c₀) spec o n r in
          IsResumable x opt size saved filled.1 × (filled.0 ≡ none → IsWriting (o + n) filled.1)
    fill_chunk-IsWriting o r v k =
        let n = chunk_at opt.chunk_size r.device.size o in
        let f = fill_chunk-before x w on_progress (resumed opt c₀) spec o n r in
        let s =
          fill_chunk-size x w on_progress (resumed opt c₀) size spec o n r ∙ v.written.sized in
        (
          IsWriting-IsResumable o r _ e v s f.2 f.0 (inl f.1),
          λ h. record {
            written =
                fill_chunk-Written x w on_progress (resumed opt c₀) size spec 0 o r v.written k h;
            behind = λ c g.
                let b = v.behind c (ap saved (sym f.2) ∙ g) in
                (
                  b.0,
                  λ z.
                      let q = b.1 z in
                      (
                        omega (arith, q.0),
                        q.1,
                        subst (λ u. Agrees 0 c.1 u (image x opt spec size)) (sym f.1) q.2,
                      ),
                );
          },
        )

    saved-IsWriting :
        (o : ℕ) (r : Rig S) → IsWriting o r → IsWriting o (checkpoint x w on_progress spec o r).1
    saved-IsWriting o r v = elim (checkpoint-cases x w on_progress (resumed opt c₀) spec o r) [
      | inl g ↦ subst (IsWriting o) (sym g) v
      | inr g ↦ subst (IsWriting o) (sym g) (record {
        written = record {
          sized = v.written.sized;
          grid = v.written.grid;
          agrees = v.written.agrees;
        };
        behind = λ c h. elim (saves _ r.state) [
          | inl k ↦
              let b = v.behind c (sym k ∙ h) in
              (
                b.0,
                λ z.
                    let q = b.1 z in
                    (q.0, q.1, λ i f l. written_before o r v.written i f (omega (arith, q.0))),
              )
          | inr k ↦ new c (some_eq (sym k ∙ h))
        ];
      })
    ]
      where
        some_eq : {a b : Point} → some a ≡ some b → a ≡ b
        some_eq h = cc

        new :
            (c : Point)
            → (spec.index, o) ≡ c
            → (c.0 < length opt.standard.passes)
              × (c.0 + 1 ≡ length opt.standard.passes → IsBehind c o r.device.bytes)
        new c h =
            subst
              (λ (z : Point).
                (z.0 < length opt.standard.passes)
                × (z.0 + 1 ≡ length opt.standard.passes → IsBehind z o r.device.bytes))
              h (known, λ l. (omega arith, v.written.grid, written_before o r v.written))

    -- The last pass, cut off anywhere or not, leaves a rig from which an attempt can go on.
    pub write_pass-IsResumable :
        (start : ℕ) (r : Rig S)
        → IsWriting start r
        → IsResumable x opt size saved (write_pass x w on_progress (resumed opt c₀) spec start r).1
    write_pass-IsResumable start r v =
        write_pass-End x w on_progress (resumed opt c₀) spec IsWriting
          (IsResumable x opt size saved)
          (λ o q u. (
            IsWriting-IsResumable o q q e u u.written.sized refl (λ i k. refl) (inl refl),
            IsWriting-IsResumable o q (record q { device = sync q.device }) e u u.written.sized refl
                (λ i k. refl) (inr refl),
          ))
          fill_chunk-IsWriting saved-IsWriting start r v
