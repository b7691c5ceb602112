-- ===== src/Erasure/Resume.antt =====
-- internal/erasure/engine.go, overwrite, cut off and resumed: a loss of power at any place, and the
-- checkpoint from which the next attempt goes on. The caller's state keeps the last checkpoint.
use xiesg0915_work.Prelude.{
  ℕ, ◌+◌, ◌≡◌, ◌<◌, ◌⊎◌, inl, inr, ◌∙◌, sym, subst, Option, none, some, length, drop,
}
use xiesg0915_work.Erasure.Device.{Device, Fault, Progress, World}
use xiesg0915_work.Erasure.Engine.{Options, Externals, Rig, Outcome, write_passes}
use xiesg0915_work.Erasure.Verify.{final_pass}
use xiesg0915_work.Erasure.Image.{image, Agrees, OnGrid}

-- The pass and the offset of a checkpoint.
abbrev pub Point : Type 0
Point = ℕ × ℕ

-- Each byte of `d'` is the durable one of `d` or one that was written and not synced yet.
pub record IsLeftOf (d d' : Device) : Type 0 where
  pub size : d'.size ≡ d.size
  pub bytes : (i : ℕ) → (d'.bytes i ≡ d.durable i) ⊎ (d'.bytes i ≡ d.bytes i)
  pub durable : d'.durable ≡ d'.bytes

-- Where an attempt begins: at the checkpoint, or at the first pass.
abbrev pub point : Option Point → Point
point none = (0, 0)
point (some c) = c

-- The options of an attempt.
abbrev pub resumed : Options → Point → Options
resumed opt c = record opt { resume_pass = c.0; resume_offset = c.1 }

module _ {S : Type 0} (x : Externals) (opt : Options) (size : ℕ) (saved : S → Option Point) where
  -- A progress function that keeps the last checkpoint: it saves what it is told, or fails to.
  abbrev pub Saves : (Progress → S → Option Fault × S) → Type 0
  Saves on_progress =
      (p : Progress) (s : S)
      → (saved (on_progress p s).1 ≡ saved s)
        ⊎ (saved (on_progress p s).1 ≡ some (p.pass, p.offset))

  -- The overwrite phase from the checkpoint on.
  abbrev pub attempt : World → (Progress → S → Option Fault × S) → Rig S → Outcome S
  attempt w on_progress r =
      let c = point (saved r.state) in
      write_passes x w on_progress (resumed opt c) c.0 (drop c.0 opt.standard.passes) r

  -- The checkpoint names a pass of the standard, and if it is the last one, then it lies on the grid
  -- of chunks and what lies before it is written, on stable storage too.
  pub record IsSafe (c : Point) (d : Device) : Type 0 where
    pub pass : c.0 < length opt.standard.passes
    pub last :
        c.0 + 1 ≡ length opt.standard.passes
        → OnGrid opt.chunk_size size c.1
          × Agrees 0 c.1 d.bytes (image x opt (final_pass opt) size)
          × Agrees 0 c.1 d.durable (image x opt (final_pass opt) size)

  -- What holds between attempts.
  pub record IsResumable (r : Rig S) : Type 0 where
    pub sized : r.device.size ≡ size
    pub safe : (c : Point) → saved r.state ≡ some c → IsSafe c r.device

  -- A loss of power keeps it.
  pub power_loss-IsResumable :
      (r : Rig S) (d : Device)
      → IsResumable r
      → IsLeftOf r.device d
      → IsResumable (record r { device = d })
  power_loss-IsResumable r d v l = record {
    sized = l.size ∙ v.sized;
    safe = λ c e.
        let s = v.safe c e in
        record {
          pass = s.pass;
          last = λ z.
              let a = s.last z in
              let b : Agrees 0 c.1 d.bytes (image x opt (final_pass opt) size) =
                λ i f k. elim (l.bytes i) [ inl g ↦ g ∙ a.2 i f k | inr g ↦ g ∙ a.1 i f k ] in
              (
                a.0,
                b,
                subst (λ u. Agrees 0 c.1 u (image x opt (final_pass opt) size)) (sym l.durable) b,
              );
        };
  }
