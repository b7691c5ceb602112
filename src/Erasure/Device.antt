-- ===== src/Erasure/Device.antt =====
-- internal/erasure/device.go: the Device that the engine writes and reads, as an array of bytes with
-- a copy on stable storage; and what can go wrong at each call, which is a parameter.
use xiesg0915_work.Prelude.{ℕ, ◌+◌, Option}
use xiesg0915_work.Erasure.Stream.{Buffer, copy_into}

-- `bytes` is what ReadAt sees, `durable` what a loss of power leaves.
pub record Device : Type 0 where
  pub size : ℕ
  pub bytes : Buffer
  pub durable : Buffer

abbrev pub write_at : (offset n : ℕ) → Buffer → Device → Device
write_at offset n buf d = record d { bytes = copy_into offset n 0 buf d.bytes }

abbrev pub sync : Device → Device
sync d = record d { durable = d.bytes }

abbrev pub read_at : ℕ → Device → Buffer
read_at offset d = λ i. d.bytes (offset + i)

-- What a call outside the engine can return: the error of a cancelled context, or another one.
pub data Fault : Type 0 where
  cancelled io_error : Fault

-- Why a run ends early. `out_of_fuel` is no error of the source: it is shown never to be returned.
pub data RunError : Type 0 where
  fault : Fault → RunError
  unknown_pattern zero_size out_of_fuel : RunError

pub data Phase : Type 0 where
  overwriting verifying : Phase

pub record Progress : Type 0 where
  pub pass : ℕ
  pub offset : ℕ
  pub total : ℕ
  pub phase : Phase

-- The faults of one run: what `ctx.Err()`, Size, WriteAt, Sync and ReadAt return at each place. A
-- write that fails has written a first part of its buffer.
pub record World : Type 0 where
  pub size_fault : Option Fault
  pub check : (pass offset : ℕ) → Option Fault
  pub write_fault : (pass offset : ℕ) → Option (Fault × ℕ)
  pub sync_fault : (pass offset : ℕ) → Option Fault
  pub end_sync_fault : (pass : ℕ) → Option Fault
  pub check_verify : (offset : ℕ) → Option Fault
  pub read_fault : (offset : ℕ) → Option Fault
