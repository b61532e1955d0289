-- ===== src/Api/Listing.antt =====
-- HandleExecHistory and parseInt: the list of runs. An `int` has 64 bits and wraps around.
pub mod Pages
use m_cloud.Base.{
  ℕ, ◌+◌, ◌-◌, ◌*◌, ◌%◌, ◌^◌, Bool, true, false, ◌&&◌, List, [], ◌∷◌, map, Text, codes, ◌==◌, leb,
  ltb, if◌then◌else◌, Option, none, some,
}
use m_cloud.Base.Int.{ℤ, pos, negsuc}
use m_cloud.History.{ExecRecord, list}
use m_cloud.Http.{Request}
use m_cloud.Api.{Server}

-- The `int` whose bits are those of a number below 2^64.
unfoldable pub to_int : ℕ → ℤ
to_int v = if ltb v (2 ^ 63) then pos v else negsuc (2 ^ 64 - 1 - v)

-- The loop of parseInt, over the bits of `v`.
unfoldable pub digits : ℕ → Text → Option ℕ
digits v [] = some v
digits v (c ∷ s) =
    let rest = digits ((v * 10 + (c - 48)) % 2 ^ 64) s in
    if leb 48 c && leb c 57 then rest else none

unfoldable pub parse_int : Text → Option ℤ
unfolding digits to_int
parse_int s = elim (digits 0 s) [ none ↦ none | some v ↦ some (to_int v) ]

-- v > 0 && v <= 100, else 20.
unfoldable pub limit_of : Option ℤ → ℕ
limit_of none = 20
limit_of (some (negsuc n)) = 20
limit_of (some (pos n)) = if ltb 0 n && leb n 100 then n else 20

-- v >= 0, else 0.
unfoldable pub offset_of : Option ℤ → ℕ
offset_of none = 0
offset_of (some (negsuc n)) = 0
offset_of (some (pos n)) = n

-- A parameter that is not there counts as one that is no number.
unfoldable pub parameter : Text → Request → Option ℤ
unfolding parse_int
parameter name r = if r.query name == [] then none else parse_int (r.query name)

-- What the list shows of a record.
unfoldable pub listed : ExecRecord → ExecRecord
listed r = record r { script = r.script_brief; script_brief = [] }

unfoldable pub handle_exec_history : Request → Server → List ExecRecord
unfolding limit_of offset_of parameter listed
handle_exec_history r s = map listed (
    list (limit_of (parameter (codes "limit") r)) (offset_of (parameter (codes "offset") r))
      s.history)
