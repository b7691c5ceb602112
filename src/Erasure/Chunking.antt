-- ===== src/Erasure/Chunking.antt =====
-- The random pass depends on where its chunks begin: streamAt is not a function of the offset alone.
use Prim.Native.Nat.{bit_xor}
use xiesg0915_work.Prelude.{
  ℕ, zero, suc, ◌+◌, ◌<◌, ◌≡◌, refl, String, lt→ltb, le→leb, arith, ap, ◌∙◌,
}
use xiesg0915_work.Erasure.Stream.{
  Buffer, Keystream, key, fill_blocks, random_stream, copy_into, xor_block, zero_buffer,
}

-- Later rounds leave what was filled.
fill_blocks-before :
    (ks : Keystream) (k : Buffer) (fuel n counter pos i : ℕ) (block buf : Buffer)
    → i < pos
    → fill_blocks ks k fuel n counter pos block buf i ≡ buf i
unfolding fill_blocks
fill_blocks-before ks k zero n counter pos i block buf h = refl
fill_blocks-before ks k (suc fuel) n counter pos i block buf h = ground (
  arith,
  fill_blocks-before ks k fuel n (suc counter) (pos + 64) i (xor_block ks k counter block)
      (copy_into pos 64 0 (xor_block ks k counter block) buf),
)

-- From a given block on, the byte at the place of the next block is that block's.
fill_blocks-first :
    (ks : Keystream) (k : Buffer) (fuel n counter pos : ℕ) (block buf : Buffer)
    → pos < n
    → fill_blocks ks k (suc fuel) n counter pos block buf pos ≡ bit_xor (block 0) (ks k counter 0)
unfolding fill_blocks
fill_blocks-first ks k fuel n counter pos block buf h =
    let block' = xor_block ks k counter block in
    rw (lt→ltb pos n h) (
      fill_blocks-before ks k fuel n (suc counter) (pos + 64) pos block'
        (copy_into pos 64 0 block' buf) (omega arith)
      ∙ first_copied pos block' buf)
  where
    first_copied : (p : ℕ) (b c : Buffer) → copy_into p 64 0 b c p ≡ b 0
    first_copied p b c =
        rw (le→leb p p (omega arith), lt→ltb p (p + 64) (omega arith)) (ap b (omega arith))

-- In a chunk that begins at 0 and reaches past it, byte 64 of the random pass is the sum of the
-- first two blocks of the keystream, and in a chunk that begins at 64 the same byte of the device
-- is the second block's alone: the bytes of the pass depend on where its chunks begin.
pub random_stream_chunks :
    (ks : Keystream) (job : String) (p n m : ℕ)
    → 64 < n
    → 0 < m
    → (random_stream ks job p n 0 64
        ≡ bit_xor (bit_xor 0 (ks (key job p) 0 0)) (ks (key job p) 1 0))
      × (random_stream ks job p m 64 0 ≡ bit_xor 0 (ks (key job p) 1 0))
unfolding random_stream
random_stream_chunks ks job p zero m h h' = absurd (omega arith)
random_stream_chunks ks job p (suc n) m h h' = (
  unfold fill_blocks in
      rw (lt→ltb 0 (suc n) (omega arith)) (
        fill_blocks-first ks (key job p) n (suc n) 1 64 (xor_block ks (key job p) 0 zero_buffer) _
          h),
  fill_blocks-first ks (key job p) m m 1 0 zero_buffer zero_buffer h',
)
