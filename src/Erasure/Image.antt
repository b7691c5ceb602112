-- ===== src/Erasure/Image.antt =====
-- What a device holds after a pass: chunk after chunk of the pass's stream, on the grid of chunks
-- that begins at 0.
use xiesg0915_work.Prelude.{
  ℕ, zero, suc, ◌+◌, ◌-◌, ◌*◌, ◌/◌, ◌≤◌, ◌<◌, ◌≡◌, refl, ◌⊎◌, inl, inr, Option, none, some, ltb,
  leb, lt→ltb, arith, ◌↔◌, ap, sym, ◌∙◌, Bool-cases,
}
use native.Mathlib.Nat.{div-eq_of_lt-le}
use xiesg0915_work.Domain.Entities.{PassSpec}
use xiesg0915_work.Erasure.Stream.{Buffer, stream_at, copy_into}
use xiesg0915_work.Erasure.Device.{Device, read_at}
use xiesg0915_work.Erasure.Engine.{Options, Externals, chunk_at, count_mismatches}

abbrev or_zero : Option Buffer → Buffer
or_zero none = λ i. 0
or_zero (some b) = b

-- The byte at position i of a device of `size` bytes behind the pass `spec`.
unfoldable pub image : Externals → Options → PassSpec → (size i : ℕ) → ℕ
image x opt spec size i =
    let o = i / opt.chunk_size * opt.chunk_size in
    or_zero
      (stream_at x.keystream spec.pattern opt.job_id spec.index (chunk_at opt.chunk_size size o) o)
      (i - o)

-- Between `from` and `to` the buffer holds what `img` says.
abbrev pub Agrees : (from to : ℕ) → Buffer → (ℕ → ℕ) → Type 0
Agrees from to b img = (i : ℕ) → from ≤ i → i < to → b i ≡ img i

-- A place of the grid, or the end of the device.
abbrev pub OnGrid : (chunk size offset : ℕ) → Type 0
OnGrid chunk size offset = ((q : ℕ) × (offset ≡ q * chunk)) ⊎ (size ≤ offset)

-- The chunk in which a position lies begins at the last place of the grid before it.
floor : (c q i : ℕ) → q * c ≤ i → i < q * c + c → i / c * c ≡ q * c
floor c q i h k = ap (λ t. t * c) (div-eq_of_lt-le c h (grind arith))

pub OnGrid-next :
    (c size o : ℕ) → OnGrid c size o → o < size → OnGrid c size (o + chunk_at c size o)
OnGrid-next c size o (inr h) k = absurd (omega arith)
OnGrid-next c size o (inl (q, e)) k = elim (Bool-cases (ltb size (o + c))) [
  | inl b ↦ rw b (inr (omega arith))
  | inr b ↦ rw b (inl (suc q, grind arith))
]

image_at :
    (x : Externals) (opt : Options) (spec : PassSpec) (size o i : ℕ) (buf : Buffer)
    → OnGrid opt.chunk_size size o
    → o < size
    → stream_at x.keystream spec.pattern opt.job_id spec.index (chunk_at opt.chunk_size size o) o
      ≡ some buf
    → o ≤ i
    → i < o + chunk_at opt.chunk_size size o
    → image x opt spec size i ≡ buf (i - o)
unfolding image
image_at x opt spec size o i buf (inr g) k e h l = absurd (omega arith)
image_at x opt spec size o i buf (inl (q, g)) k e h l =
    rw (floor opt.chunk_size q i (omega arith) (ground arith), ← g, e) refl

-- Writing the next chunk of the pass extends what agrees with its image.
pub Agrees-write :
    (x : Externals) (opt : Options) (spec : PassSpec) (size from o : ℕ) (buf bytes : Buffer)
    → OnGrid opt.chunk_size size o
    → o < size
    → stream_at x.keystream spec.pattern opt.job_id spec.index (chunk_at opt.chunk_size size o) o
      ≡ some buf
    → Agrees from o bytes (image x opt spec size)
    → let n = chunk_at opt.chunk_size size o in
      Agrees from (o + n) (copy_into o n 0 buf bytes) (image x opt spec size)
Agrees-write x opt spec size from o buf bytes g k e a i h l = elim (Bool-cases (leb o i)) [
  | inl b ↦
      rw (b, lt→ltb i _ l)
        (ap buf (omega arith) ∙ sym (image_at x opt spec size o i buf g k e (ground arith) l))
  | inr b ↦ rw b (a i h (ground arith))
]

count_mismatches-zero :
    (a b : Buffer) (n : ℕ) → ((i : ℕ) → i < n → a i ≡ b i) → count_mismatches a b n ≡ 0
unfolding count_mismatches
count_mismatches-zero a b zero h = refl
count_mismatches-zero a b (suc n) h =
    ground (arith, h n, count_mismatches-zero a b n (λ i l. h i (omega arith)))

zero-count_mismatches :
    (a b : Buffer) (n : ℕ) → count_mismatches a b n ≡ 0 → (i : ℕ) → i < n → a i ≡ b i
unfolding count_mismatches
zero-count_mismatches a b' zero h i l = absurd (omega arith)
zero-count_mismatches a b' (suc n) h i l = elim (Bool-cases (ltb i n)) [
  | inl b ↦ zero-count_mismatches a b' n (ground arith) i (ground arith)
  | inr b ↦ ground arith
]

-- A chunk that is read where the device agrees with the image has no mismatch, and a chunk without
-- a mismatch agrees.
pub chunk-Agrees :
    (x : Externals) (opt : Options) (spec : PassSpec) (size o : ℕ) (want : Buffer) (d : Device)
    → OnGrid opt.chunk_size size o
    → o < size
    → stream_at x.keystream spec.pattern opt.job_id spec.index (chunk_at opt.chunk_size size o) o
      ≡ some want
    → let n = chunk_at opt.chunk_size size o in
      (count_mismatches (read_at o d) want n ≡ 0) ↔ Agrees o (o + n) d.bytes (image x opt spec size)
chunk-Agrees x opt spec size o want d g k e = (
  λ z i h l.
      ap d.bytes (omega arith)
      ∙ zero-count_mismatches (read_at o d) want _ z (i - o) (omega arith)
      ∙ sym (image_at x opt spec size o i want g k e h l),
  λ a. count_mismatches-zero (read_at o d) want _ (λ p l.
      a (o + p) (omega arith) (omega arith)
      ∙ image_at x opt spec size o (o + p) want g k e (omega arith) (omega arith)
      ∙ ap want (omega arith)),
)
