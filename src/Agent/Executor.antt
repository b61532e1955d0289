-- ===== src/Agent/Executor.antt =====
-- internal/agent/executor/executor.go. What a script writes, in which order, and how cmd.Run ends are
-- the operating system's answer to a script and a deadline. The standard library's Buffer takes any
-- number of bytes.
pub mod Streamed
use m_cloud.Base.{
  ℕ, ◌+◌, ◌-◌, ◌*◌, ◌%◌, ◌^◌, Bool, true, false, List, [], ◌∷◌, ◌++◌, Text, if◌then◌else◌, Option,
  none, some, ltb,
}
use m_cloud.Base.Int.{ℤ, pos, negsuc}

pub record Result : Type 0 where
  pub exit_code : ℤ
  pub output : Text
  pub error : Text

-- A write of the script, to one of its two outputs.
pub data Chunk : Type 0 where
  stdout : Text → Chunk
  stderr : Text → Chunk

-- The error of cmd.Run: an *exec.ExitError with its code, or another one with its text.
pub data RunError : Type 0 where
  exit_error : ℤ → RunError
  other_error : Text → RunError

pub record Process : Type 0 where
  pub chunks : List Chunk
  pub ended : Option RunError

-- A time.Duration is an int64 of nanoseconds, so the product wraps around.
unfoldable pub to_int64 : ℕ → ℤ
to_int64 n = let w = n % 2 ^ 64 in if ltb w (2 ^ 63) then pos w else negsuc (2 ^ 64 - w - 1)

-- The deadline in nanoseconds from the start, if the timeout is positive.
unfoldable pub deadline : ℤ → Option ℤ
unfolding to_int64
deadline (negsuc n) = none
deadline (pos seconds) = if ltb 0 seconds then some (to_int64 (seconds * 1000000000)) else none

-- The two buffers, and what was sent on the channel, oldest first.
pub record Buffers : Type 0 where
  pub out_bytes : Text
  pub error_bytes : Text
  pub streamed : List Text

-- A write to cmd.Stdout or cmd.Stderr: with a channel it goes through a streamWriter, which fills
-- the same buffer and sends the bytes on.
unfoldable pub write : Bool → Chunk → Buffers → Buffers
write streaming (stdout chunk) b = record b {
  out_bytes = b.out_bytes ++ chunk;
  streamed = if streaming then b.streamed ++ chunk ∷ [] else b.streamed;
}
write streaming (stderr chunk) b = record b {
  error_bytes = b.error_bytes ++ chunk;
  streamed = if streaming then b.streamed ++ chunk ∷ [] else b.streamed;
}

unfoldable pub write_all : Bool → List Chunk → Buffers → Buffers
unfolding write
write_all streaming [] b = b
write_all streaming (c ∷ cs) b = write_all streaming cs (write streaming c b)

abbrev pub fresh : Buffers
fresh = record { out_bytes = []; error_bytes = []; streamed = [] }

-- The part of RunScript behind cmd.Run.
unfoldable pub result_of : Option RunError → Buffers → Result
result_of none b = record { exit_code = pos 0; output = b.out_bytes; error = b.error_bytes }
result_of (some (exit_error code)) b = record {
  exit_code = code;
  output = b.out_bytes;
  error = b.error_bytes;
}
result_of (some (other_error text)) b = record {
  exit_code = negsuc 0;
  output = b.out_bytes;
  error = text;
}

-- The result, and what was sent on the channel; without a context the background context is used,
-- which has no deadline of its own.
unfoldable pub run_script : (Text → Option ℤ → Process) → Text → ℤ → Bool → Result × List Text
unfolding write_all result_of
run_script system script timeout streaming =
    let process = system script (deadline timeout) in
    let buffers = write_all streaming process.chunks fresh in
    (result_of process.ended buffers, buffers.streamed)
