-- ===== src/History.antt =====
-- internal/master/store/history.go: the bounded history of script runs. A record's map of results
-- is a value here: the copies that Get and List return share it in the source, and are only
-- encoded. Offsets and limits are numbers, which the one caller ensures; a nil slice is [].
pub mod Bounds
pub mod Results
pub mod Added
use m_cloud.Base.{
  ℕ, zero, suc, ◌-◌, Bool, true, false, ◌&&◌, List, [], ◌∷◌, ◌++◌, Text, codes, ◌==◌, ltb, leb,
  if◌then◌else◌, Option, none, some, length, take, drop, get_elem?,
}
use m_cloud.Base.Int.{ℤ, pos, negsuc}
use m_cloud.Dict
use m_cloud.Dict.{Dict}

unfoldable pub running : Text
running = codes "running"

unfoldable pub completed : Text
completed = codes "completed"

pub record ExecResult : Type 0 where
  pub agent_id : Text
  pub exit_code : ℤ
  pub output : Text
  pub error : Text
  pub finished : Bool

pub record ExecRecord : Type 0 where
  pub id : Text
  pub script : Text
  pub script_brief : Text
  pub timeout : ℤ
  pub agent_ids : List Text
  pub results : Dict ExecResult
  pub status : Text
  pub started_at : ℕ
  pub finished_at : Option ℕ
  pub user : Text

pub record ExecHistory : Type 0 where
  pub records : List ExecRecord
  pub max_size : ℕ

-- NewExecHistory: a size that is not positive means 500.
unfoldable pub new : ℤ → ExecHistory
new (pos zero) = record { records = []; max_size = 500 }
new (pos (suc n)) = record { records = []; max_size = suc n }
new (negsuc n) = record { records = []; max_size = 500 }

-- The preview that Add fills in: the first 100 bytes of a longer script.
unfoldable pub briefed : ExecRecord → ExecRecord
briefed r =
    if r.script_brief == [] && ltb 100 (length r.script)
    then record r { script_brief = take 100 r.script ++ codes "..." }
    else r

unfoldable pub add : ExecRecord → ExecHistory → ExecHistory
add r h =
    let records = h.records ++ briefed r ∷ [] in
    record h {
      records =
          if ltb h.max_size (length records)
          then drop (length records - h.max_size) records
          else records;
    }

-- The loop of UpdateResult over the results of a record.
unfoldable pub all_done : List ExecResult → Bool
all_done [] = true
all_done (r ∷ rs) = r.finished && all_done rs

-- What UpdateResult does to the record that it finds.
unfoldable pub set_result : ℕ → ExecResult → ExecRecord → ExecRecord
unfolding all_done
set_result now result r =
    let results = Dict.put r.results result.agent_id result in
    if all_done (Dict.values results)
    then record r { results = results; finished_at = some now; status = completed }
    else record r { results = results }

unfoldable pub update_first : ℕ → Text → ExecResult → List ExecRecord → List ExecRecord
update_first now id result [] = []
update_first now id result (r ∷ rs) =
    if r.id == id then set_result now result r ∷ rs else r ∷ update_first now id result rs

unfoldable pub update_result : ℕ → Text → ExecResult → ExecHistory → ExecHistory
unfolding update_first
update_result now id result h = record h { records = update_first now id result h.records }

unfoldable pub find : Text → List ExecRecord → Option ExecRecord
find id [] = none
find id (r ∷ rs) = if r.id == id then some r else find id rs

unfoldable pub get : Text → ExecHistory → Option ExecRecord
unfolding find
get id h = find id h.records

-- The loop of List: `left` is i + 1, `room` is limit - len(result).
unfoldable pub page : List ExecRecord → ℕ → ℕ → List ExecRecord
page rs zero room = []
page rs (suc i) zero = []
page rs (suc i) (suc room) = elim (get_elem? rs i) [ none ↦ [] | some r ↦ r ∷ page rs i room ]

unfoldable pub list : ℕ → ℕ → ExecHistory → List ExecRecord
unfolding page
list limit offset h =
    let total = length h.records in
    if leb total offset then [] else page h.records (total - offset) limit
