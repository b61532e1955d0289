-- ===== src/Agent/System.antt =====
-- internal/agent/system: what the agent tells of its machine. The commands that it runs are the
-- operating system's, a float is its bit pattern, and the operations on floats are the processor's.
-- A parser of a number whose error is ignored gives the value that it returns beside the error.
pub mod Info
pub mod Metrics
pub mod Read
pub mod Reported
use m_cloud.Base.{
  ℕ, Bool, true, false, List, [], ◌∷◌, Text, codes, if◌then◌else◌, Option, none, some, split,
  trim_space,
}
use m_cloud.Protocol.{Float64}

-- What a command wrote to its standard output, and whether it ended well.
pub record Output : Type 0 where
  pub ok : Bool
  pub out : Text

-- exec.Command for a command with its arguments.
abbrev pub Exec : Type 0
Exec = List Text → Output

pub record Floats : Type 0 where
  -- strconv.ParseFloat with 64 bits: the value, and whether there was no error
  pub parse : Text → Float64 × Bool
  pub of_uint : ℕ → Float64
  pub divided : Float64 → Float64 → Float64
  pub times : Float64 → Float64 → Float64
  pub to_uint : Float64 → ℕ

-- 0.0
abbrev pub zero_float : Float64
zero_float = 0

-- The output of a command, where it ended well.
unfoldable pub output : Exec → List Text → Option Text
output exec cmd = if (exec cmd).ok then some ((exec cmd).out) else none

abbrev pub lines : Text → List Text
lines text = split b'\n' text

-- run: the output whether the command ended well or not.
unfoldable pub run : Exec → List Text → Text
run exec cmd = trim_space ((exec cmd).out)
