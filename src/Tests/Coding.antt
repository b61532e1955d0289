-- ===== src/Tests/Coding.antt =====
-- A toy encoding in the place of encoding/json, with each text behind its length, that reads back
-- what it wrote.
use m_cloud.Base.{
  ℕ, zero, suc, ◌≡◌, refl, ap, List, [], ◌∷◌, ◌++◌, Text, length, take, drop, Option, none, some,
  drop-length_append, ◌>>=◌,
}
use m_cloud.Base.Int.{ℤ, pos, negsuc}
use m_cloud.Protocol.{ExecRequest, ExecResponse, TerminalOutput}

abbrev put_text : Text → Text → Text
put_text t rest = length t ∷ (t ++ rest)

abbrev get_text : Text → Option (Text × Text)
get_text [] = none
get_text (n ∷ s) = some (take n s, drop n s)

take-length_append : (s t : Text) → take (length s) (s ++ t) ≡ s
take-length_append [] t = refl
take-length_append (c ∷ s) t = ap (λ r. c ∷ r) (take-length_append s t)

abbrev put_texts : List Text → Text
put_texts [] = []
put_texts (t ∷ ts) = put_text t (put_texts ts)

abbrev get_texts : ℕ → Text → Option (List Text)
get_texts zero s = some []
get_texts (suc n) s = do first ← get_text s; others ← get_texts n first.1; some (first.0 ∷ others)

get-put_texts : (ts : List Text) → get_texts (length ts) (put_texts ts) ≡ some ts
get-put_texts [] = refl
get-put_texts (t ∷ ts) = rw (take-length_append t, drop-length_append t, get-put_texts ts) refl

abbrev put_int : ℤ → Text → Text
put_int (pos n) rest = 0 ∷ n ∷ rest
put_int (negsuc n) rest = 1 ∷ n ∷ rest

abbrev get_int : Text → Option (ℤ × Text)
get_int [] = none
get_int (s ∷ []) = none
get_int (zero ∷ n ∷ rest) = some (pos n, rest)
get_int (suc s ∷ n ∷ rest) = some (negsuc n, rest)

get-put_int : (n : ℤ) (rest : Text) → get_int (put_int n rest) ≡ some (n, rest)
get-put_int (pos n) rest = refl
get-put_int (negsuc n) rest = refl

abbrev pub encode_request : ExecRequest → Text
encode_request q =
    put_int q.timeout (put_text q.script (length q.agent_ids ∷ put_texts q.agent_ids))

abbrev counted : Text → Option (List Text)
counted [] = none
counted (n ∷ s) = get_texts n s

abbrev pub decode_request : Text → Option ExecRequest
decode_request s = do
  timeout ← get_int s
  script ← get_text timeout.1
  ids ← counted script.1
  some (record { script = script.0; timeout = timeout.0; agent_ids = ids })

pub request_read : (q : ExecRequest) → decode_request (encode_request q) ≡ some q
request_read q =
    rw (get-put_int q.timeout) (
      rw (take-length_append q.script, drop-length_append q.script, get-put_texts q.agent_ids) refl)

abbrev pub encode_response : ExecResponse → Text
encode_response x =
    put_int x.exit_code (put_text x.agent_id (put_text x.output (put_text x.error [])))

abbrev pub decode_response : Text → Option ExecResponse
decode_response s = do
  exit_code ← get_int s
  id ← get_text exit_code.1
  output ← get_text id.1
  error ← get_text output.1
  some (record { agent_id = id.0; exit_code = exit_code.0; output = output.0; error = error.0 })

pub response_read : (x : ExecResponse) → decode_response (encode_response x) ≡ some x
response_read x = rw (get-put_int x.exit_code) (
    rw
      (
        take-length_append x.agent_id,
        drop-length_append x.agent_id,
        take-length_append x.output,
        drop-length_append x.output,
        take-length_append x.error,
      )
      refl)

abbrev pub encode_output : TerminalOutput → Text
encode_output y = put_text y.session_id (put_text y.output [])

abbrev pub decode_output : Text → Option TerminalOutput
decode_output s = do
  id ← get_text s
  output ← get_text id.1
  some (record { session_id = id.0; output = output.0 })

pub output_read : (y : TerminalOutput) → decode_output (encode_output y) ≡ some y
output_read y =
    rw
      (
        take-length_append y.session_id,
        drop-length_append y.session_id,
        take-length_append y.output,
      )
      refl
