-- ===== src/Agent/Executor/Streamed.antt =====
-- What RunScript returns, and that streaming does not change it.
use m_cloud.Base.{
  ◌≡◌, refl, ◌∙◌, ◌*◌, Bool, true, false, List, [], ◌∷◌, ◌++◌, append-nil, append_assoc, Text,
  Option, none, some, if◌then◌else◌, ◌≤◌, ◌<◌, ℕ, arith,
}
use m_cloud.Base.Int.{ℤ, pos, negsuc}
use m_cloud.Agent.Executor.{
  Chunk, stdout, stderr, Buffers, fresh, write, write_all, result_of, Process, run_script, deadline,
  to_int64, RunError, exit_error, other_error,
}

-- The bytes of the standard output, those of the standard error, and each write by itself.
abbrev pub outs : List Chunk → Text
outs [] = []
outs (stdout chunk ∷ cs) = chunk ++ outs cs
outs (stderr chunk ∷ cs) = outs cs

abbrev pub errors : List Chunk → Text
errors [] = []
errors (stdout chunk ∷ cs) = errors cs
errors (stderr chunk ∷ cs) = chunk ++ errors cs

abbrev pub writes : List Chunk → List Text
writes [] = []
writes (stdout chunk ∷ cs) = chunk ∷ writes cs
writes (stderr chunk ∷ cs) = chunk ∷ writes cs

write_all_lem :
    (streaming : Bool) (cs : List Chunk) (b : Buffers)
    → write_all streaming cs b ≡ record {
      out_bytes = b.out_bytes ++ outs cs;
      error_bytes = b.error_bytes ++ errors cs;
      streamed = b.streamed ++ (if streaming then writes cs else []);
    }
unfolding write_all write
write_all_lem true [] b = simp append-nil refl
write_all_lem false [] b = simp append-nil refl
write_all_lem true (stdout chunk ∷ cs) b =
    write_all_lem true cs (write true (stdout chunk) b) ∙ simp append_assoc refl
write_all_lem true (stderr chunk ∷ cs) b =
    write_all_lem true cs (write true (stderr chunk) b) ∙ simp append_assoc refl
write_all_lem false (stdout chunk ∷ cs) b =
    write_all_lem false cs (write false (stdout chunk) b) ∙ simp append_assoc refl
write_all_lem false (stderr chunk ∷ cs) b =
    write_all_lem false cs (write false (stderr chunk) b) ∙ simp append_assoc refl

-- The exit code and the error text, from how the process ended and what it wrote as errors.
abbrev pub code_of : Option RunError → ℤ
code_of none = pos 0
code_of (some (exit_error code)) = code
code_of (some (other_error text)) = negsuc 0

abbrev pub error_of : Option RunError → Text → Text
error_of none said = said
error_of (some (exit_error code)) said = said
error_of (some (other_error text)) said = text

result_of_lem :
    (e : Option RunError) (b : Buffers)
    → result_of e b
      ≡ record { exit_code = code_of e; output = b.out_bytes; error = error_of e b.error_bytes }
unfolding result_of
result_of_lem none b = refl
result_of_lem (some (exit_error code)) b = refl
result_of_lem (some (other_error text)) b = refl

-- With a channel and without, RunScript returns all that the script wrote to its standard output
-- and to its standard error, in order, and its exit code; an error that is not an exit of the
-- script gives the code -1 and the text of that error in place of what the script wrote as errors.
-- The channel gets every write to either output, in the order of the writes.
pub run_script_lem :
    (system : Text → Option ℤ → Process) (script : Text) (timeout : ℤ) (streaming : Bool)
    → let process = system script (deadline timeout) in
      run_script system script timeout streaming ≡ (
        record {
          exit_code = code_of process.ended;
          output = outs process.chunks;
          error = error_of process.ended (errors process.chunks);
        },
        if streaming then writes process.chunks else [],
      )
unfolding run_script
run_script_lem system script timeout streaming =
    let process = system script (deadline timeout) in
    rw (write_all_lem streaming process.chunks fresh, result_of_lem) refl

-- A timeout of at most 9223372036 seconds gives that deadline; the next one gives a deadline before
-- the start.
pub deadline_lem :
    ((n : ℕ) → 0 < n → n ≤ 9223372036 → deadline (pos n) ≡ some (pos (n * 1000000000)))
    × (deadline (pos 9223372037) ≡ some (negsuc 9223372036709551615))
unfolding deadline to_int64
deadline_lem = (λ n h k. ground arith, refl)
