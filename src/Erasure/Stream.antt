-- ===== src/Erasure/Stream.antt =====
-- internal/erasure/device.go: streamAt and pad16, the bytes that a pass writes. A buffer of n bytes
-- is a function of which the first n values are read. The keystream of chacha20 is a parameter.
use Prim.Native.Nat.{bit_xor}
use Prim.Native.Char.{code}
use Prim.Native.String.{[], ◌∷◌}
use xiesg0915_work.Prelude.{
  ℕ, zero, suc, ◌+◌, ◌-◌, ◌/◌, ◌%◌, ◌^◌, String, Option, none, some, ◌==◌, ◌&&◌, ltb, leb,
  if◌then◌else◌,
}

abbrev pub Buffer : Type 0
Buffer = ℕ → ℕ

-- Byte i of a text; the program's job identifiers are hexadecimal, one byte to a character.
unfoldable pub byte_at : String → ℕ → ℕ
byte_at [] i = 0
byte_at (c ∷ s) zero = code c
byte_at (c ∷ s) (suc i) = byte_at s i

unfoldable pub text_length : String → ℕ
text_length [] = 0
text_length (c ∷ s) = suc (text_length s)

-- `copy(dst[at:], src[from:from+n])`
abbrev pub copy_into : (at n from : ℕ) → Buffer → Buffer → Buffer
copy_into at n from src dst =
    λ i. if leb at i && ltb i (at + n) then src (from + (i - at)) else dst i

-- The loop of pad16 over the bytes behind the sixteenth, from position i, `left` of them.
unfoldable pub fold_bytes : String → (left i : ℕ) → Buffer → Buffer
fold_bytes s zero i out = out
fold_bytes s (suc left) i out = fold_bytes s left (suc i) (λ k.
    if ltb k (i % 16)
    then out k
    else if ltb (i % 16) k
    then out k
    else bit_xor (out k) (byte_at s i))

unfoldable pub pad16 : String → Buffer
unfolding fold_bytes byte_at text_length
pad16 s =
    fold_bytes s (text_length s - 16) 16
      (λ i. if ltb i (text_length s) && ltb i 16 then byte_at s i else 0)

-- The key: the padded job, the pass as eight bytes, big-endian, and the head of a fixed text.
unfoldable pub key : String → ℕ → Buffer
unfolding pad16 byte_at
key job_id pass_index i =
    if ltb i 16
    then pad16 job_id i
    else if ltb i 24
    then (pass_index % 2 ^ 64) / 256 ^ (23 - i) % 256
    else byte_at "IDC-ERASURE-V1!!" (i - 24)

-- chacha20 with the zero nonce: key, block counter, position in the block.
abbrev pub Keystream : Type 0
Keystream = Buffer → ℕ → ℕ → ℕ

abbrev pub zero_buffer : Buffer
zero_buffer = λ i. 0

-- `c.XORKeyStream(blockBuf, blockBuf)` with the cipher's counter at `counter`.
abbrev pub xor_block : Keystream → Buffer → ℕ → Buffer → Buffer
xor_block ks k counter block = λ i. bit_xor (block i) (ks k counter i)

-- `for pos < len(buf)`: one block after the other; `fuel` bounds the rounds.
unfoldable pub fill_blocks :
    Keystream → Buffer → (fuel n counter pos : ℕ) → (block buf : Buffer) → Buffer
fill_blocks ks k zero n counter pos block buf = buf
fill_blocks ks k (suc fuel) n counter pos block buf =
    let block' = xor_block ks k counter block in
    let rest =
      fill_blocks ks k fuel n (suc counter) (pos + 64) block' (copy_into pos 64 0 block' buf) in
    if ltb pos n then rest else buf

-- The case "random": the counter is the low 32 bits of the block's number.
unfoldable pub random_stream : Keystream → String → (pass_index n offset : ℕ) → Buffer
unfolding fill_blocks key
random_stream ks job_id pass_index n offset =
    let k = key job_id pass_index in
    let counter = offset / 64 % 2 ^ 32 in
    let skip = offset % 64 in
    let first = xor_block ks k counter zero_buffer in
    let after_first =
      fill_blocks ks k (suc n) n (suc counter) (64 - skip) first
        (copy_into 0 (64 - skip) skip first zero_buffer) in
    let from_start = fill_blocks ks k (suc n) n counter 0 zero_buffer zero_buffer in
    if ltb 0 skip then after_first else from_start

-- streamAt; `none` is its error.
unfoldable pub stream_at :
    Keystream → (pattern job_id : String) → (pass_index n offset : ℕ) → Option Buffer
unfolding random_stream
stream_at ks pattern job_id pass_index n offset =
    if pattern == "zeros"
    then some (λ i. 0)
    else if pattern == "ones"
    then some (λ i. 255)
    else if pattern == "random"
    then some (random_stream ks job_id pass_index n offset)
    else none
