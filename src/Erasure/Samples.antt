-- ===== src/Erasure/Samples.antt =====
-- internal/erasure/engine.go: sampleRanges, min64 and max64. The generator of math/rand and the
-- product of the size and the fraction, a float, are parameters.
use xiesg0915_work.Prelude.{
  Option, none, some, ℕ, zero, suc, ◌+◌, ◌-◌, ◌*◌, ◌%◌, ◌^◌, String, List, [], ◌∷◌, ◌++◌, length,
  ltb, if◌then◌else◌,
}
use xiesg0915_work.Erasure.Stream.{byte_at, text_length}

pub record Span : Type 0 where
  pub start : ℕ
  pub end : ℕ

abbrev pub min64 : ℕ → ℕ → ℕ
min64 a b = if ltb a b then a else b

abbrev pub max64 : ℕ → ℕ → ℕ
max64 a b = if ltb b a then a else b

-- 4 << 20
abbrev pub window : ℕ
window = 4194304

-- `seed = seed*131 + int64(c)` over `left` bytes from position i, in 64 bits.
unfoldable pub seed_bytes : String → (left i seed : ℕ) → ℕ
unfolding byte_at
seed_bytes s zero i seed = seed
seed_bytes s (suc left) i seed = seed_bytes s left (suc i) ((seed * 131 + byte_at s i) % 2 ^ 64)

unfoldable pub sample_seed : String → ℕ
unfolding seed_bytes text_length
sample_seed job_id =
    seed_bytes job_id (min64 (text_length job_id) 16) 0 (seed_bytes "verify-sample" 13 0 0)

-- rng.Int63n: the seed, the number of the draw and the bound.
abbrev pub Generator : Type 0
Generator = ℕ → ℕ → ℕ → ℕ

-- The bytes to cover.
unfoldable pub sample_target : (size scaled : ℕ) → ℕ
sample_target size scaled =
    let target = if ltb scaled window then window else scaled in
    if ltb size target then size else target

-- `for covered < target`: each round appends a span, and the loop leaves behind the 4096th; `none`
-- is the end of the fuel.
unfoldable pub more_spans :
    Generator → (seed size target fuel draw covered : ℕ) → List Span → Option (List Span)
more_spans gen seed size target zero draw covered spans =
    if ltb covered target then none else some spans
more_spans gen seed size target (suc fuel) draw covered spans =
    let start = gen seed draw (max64 1 (size - window)) in
    let end = min64 (start + window) size in
    let spans' = spans ++ record { start = start; end = end } ∷ [] in
    let rest = more_spans gen seed size target fuel (suc draw) (covered + (end - start)) spans' in
    if ltb covered target
    then (if ltb 4096 (length spans') then some spans' else rest)
    else some spans

unfoldable pub sample_ranges : Generator → (size scaled : ℕ) → String → Option (List Span)
unfolding sample_seed sample_target more_spans
sample_ranges gen size scaled job_id =
    let head : Span = record { start = 0; end = min64 window size } in
    let tail : Span = record { start = size - window; end = size } in
    let covered =
      if ltb window size then min64 window size + (size - (size - window)) else min64 window size in
    more_spans gen (sample_seed job_id) size (sample_target size scaled) 4096 0 covered
      (head ∷ tail ∷ [])
