-- ===== src/Scenarios/Erasures.antt =====
-- The engine of internal/erasure on a device of four bytes.
use Prim.Native.Nat.{bit_xor}
use xiesg0915_work.Prelude.{
  ℕ, suc, ◌≡◌, ◌≢◌, ◌↔◌, refl, none, some, [], ◌+◌, ◌*◌, ◌/◌, ◌%◌, arith, eqb, if◌then◌else◌,
  Option,
}
use xiesg0915_work.Domain.Standards.{nist_clear}
use xiesg0915_work.Erasure.Stream.{random_stream, stream_at}
use xiesg0915_work.Erasure.Device.{Device, Fault, Progress, World, out_of_fuel, cancelled}
use xiesg0915_work.Erasure.Engine.{
  Options, Externals, Rig, with_defaults, count_mismatches, write_chunk, fill_chunk, checkpoint,
  write_loop, write_pass, write_passes,
}
use xiesg0915_work.Erasure.Verify.{
  verify, run, compare_chunk, report_verify, verify_loop, verify_ranges,
}
use xiesg0915_work.Erasure.Wipe.{Wiped, overwrite-Wiped}
use xiesg0915_work.Erasure.Sound.{IsClean, verify-exact, run-verifies}
use xiesg0915_work.Erasure.Fuel.{run-ends}
use xiesg0915_work.Erasure.Chunking.{random_stream_chunks}

abbrev pub faultless : World
faultless = record {
  size_fault = none;
  check = λ p o. none;
  write_fault = λ p o. none;
  sync_fault = λ p o. none;
  end_sync_fault = λ p. none;
  check_verify = λ o. none;
  read_fault = λ o. none;
}

-- A cipher and a generator of constants.
abbrev pub externals : Externals
externals = record {
  keystream = λ k c i. (c * 64 + i) % 256;
  generator = λ seed draw bound. 0;
  scaled = λ size. size / 100;
}

abbrev silent : Progress → ℕ → Option Fault × ℕ
silent p n = (none, suc n)

abbrev options : Options
options = record {
  standard = nist_clear;
  job_id = "j1";
  chunk_size = 3;
  checkpoint_step = 2;
  resume_pass = 0;
  resume_offset = 0;
}

abbrev pub used : Device
used = record { size = 4; bytes = λ i. 7; durable = λ i. 7 }

abbrev rig : Rig ℕ
rig = record { device = used; state = 0 }

overwrite-Wiped_example :
    Wiped externals faultless silent options 4
      (record { index = 0; pattern = "zeros" })
      0
      (write_passes externals faultless silent options 0 nist_clear.passes rig).1
unfolding write_passes write_pass write_loop fill_chunk write_chunk checkpoint stream_at
overwrite-Wiped_example =
    overwrite-Wiped externals faultless silent options 4 0 (record { index = 0; pattern = "zeros" })
      [] rig refl (omega arith) (λ e h. absurd (omega arith)) refl

verify-exact_example :
    ((verify externals faultless silent options rig).1.bytes ≡ 4)
    × (((verify externals faultless silent options rig).1.mismatches ≡ 0)
        ↔ IsClean externals faultless silent options used)
unfolding verify verify_ranges verify_loop compare_chunk report_verify stream_at count_mismatches
verify-exact_example = verify-exact externals faultless silent options rig refl refl

run-verifies_example :
    ((run externals faultless silent options rig).1.mismatches ≡ 0)
    × ((run externals faultless silent options rig).1.bytes ≡ 4)
unfolding run with_defaults write_passes write_pass write_loop fill_chunk write_chunk checkpoint
    stream_at verify verify_ranges verify_loop compare_chunk report_verify count_mismatches
run-verifies_example =
    run-verifies externals faultless silent options (record { index = 0; pattern = "zeros" }) [] rig
      refl refl (λ e h. absurd (omega arith)) refl

-- A context that is cancelled at the last byte.
abbrev pub cut : World
cut = record faultless { check = λ p o. if eqb o 3 then some cancelled else none }

run-ends_example : (run externals cut silent options rig).0 ≢ some out_of_fuel
run-ends_example = run-ends externals cut silent options rig

random_stream_chunks_example :
    (random_stream externals.keystream "j1" 1 128 0 64 ≡ bit_xor (bit_xor 0 0) 64)
    × (random_stream externals.keystream "j1" 1 128 64 0 ≡ bit_xor 0 64)
random_stream_chunks_example =
    random_stream_chunks externals.keystream "j1" 1 128 128 (omega arith) (omega arith)
