-- ===== src/Api/Listing/Pages.antt =====
-- What the list of runs holds.
use m_cloud.Base.{
  ℕ, zero, suc, ◌+◌, ◌-◌, ◌≤◌, ◌<◌, ◌≡◌, ap, ◌∙◌, true, arith, List, [], ◌∷◌, map, length,
  length-take, length-map, take, drop, reverse, reverse-append, codes, ◌==◌, ==_iff, Option,
  Bool-cases, inl, inr, false, not, leb, ltb, refl, Text, ◌++◌, if◌then◌else◌, none, some,
}
use m_cloud.Base.Int.{ℤ, pos, negsuc}
use m_cloud.History.{ExecRecord, ExecHistory, briefed, add, list}
use m_cloud.History.Bounds.{list_lem}
use m_cloud.History.Added.{records-add_last}
use m_cloud.Http.{Request}
use m_cloud.Api.{Server}
use m_cloud.Api.Listing.{limit_of, offset_of, parameter, listed, handle_exec_history}

limit_bound : (o : Option ℤ) → (0 < limit_of o) × (limit_of o ≤ 100)
unfolding limit_of
limit_bound none = omega arith
limit_bound (some (negsuc n)) = omega arith
limit_bound (some (pos n)) = ground arith

-- The text that stands for the script of a run.
abbrev pub preview : ExecRecord → Text
preview x =
    if not (x.script_brief == [])
    then x.script_brief
    else if leb (length x.script) 100
    then []
    else take 100 x.script ++ codes "..."

listed_lem :
    (x : ExecRecord) → listed (briefed x) ≡ record x { script = preview x; script_brief = [] }
unfolding listed briefed
listed_lem x = elim (Bool-cases (x.script_brief == [])) [
  | inr given ↦ rw (given, briefed) refl
  | inl blank ↦ elim (Bool-cases (leb (length x.script) 100)) [
    | inl short ↦
        let fits : ltb 100 (length x.script) ≡ false = ground arith in
        rw (blank, fits, short, briefed)
          (ap (λ t. record x { script = t; script_brief = [] })
            ((==_iff x.script_brief []).0 blank))
    | inr long ↦
        let over : ltb 100 (length x.script) ≡ true = ground arith in
        rw (blank, over, long, briefed) refl
  ]
]

-- The newest record is the first of the list.
newest :
    (limit : ℕ) (x : ExecRecord) (h : ExecHistory)
    → 0 < limit
    → 0 < h.max_size
    → (rest : List ExecRecord) × (list limit 0 (add x h) ≡ briefed x ∷ rest)
newest zero x h some_room room = absurd (omega arith)
newest (suc l) x h some_room room =
    let older : List ExecRecord = drop (length h.records + 1 - h.max_size) h.records in
    (
      take l (reverse older),
      list_lem (suc l) 0 (add x h)
          ∙ ap (λ rs. take (suc l) (reverse rs)) (records-add_last x h room)
          ∙ ap (λ rs. take (suc l) rs) (reverse-append older (briefed x ∷ [])),
    )

bounded : (r : Request) (s : Server) → length (handle_exec_history r s) ≤ 100
unfolding handle_exec_history
bounded r s =
    let limit : ℕ = limit_of (parameter (codes "limit") r) in
    let offset : ℕ = offset_of (parameter (codes "offset") r) in
    let size = length-map (list limit offset s.history) listed in
    let page = ap length (list_lem limit offset s.history) in
    let taken = length-take limit (drop offset (reverse s.history.records)) in
    omega (arith, size, page, taken, (limit_bound (parameter (codes "limit") r)).1)

-- The list of runs shows at most 100 records, whatever the parameters say. Without parameters its
-- first is the run added last, with a preview in the place of the script and all else as it was: the
-- preview that it was added with, or else the first 100 bytes and "..."; but where it has none and the
-- script has at most 100 bytes, an empty script is shown.
pub handle_exec_history_lem :
    (r : Request) (s : Server) (x : ExecRecord)
    → (length (handle_exec_history r s) ≤ 100)
      × (r.query (codes "limit") ≡ []
          → r.query (codes "offset") ≡ []
          → 0 < s.history.max_size
          → (rest : List ExecRecord) × (handle_exec_history r
                (record s { history = add x s.history })
              ≡ record x { script = preview x; script_brief = [] } ∷ rest))
unfolding handle_exec_history parameter limit_of offset_of
handle_exec_history_lem r s x = (
  bounded r s,
  λ l o room.
      let none_sent : (r.query (codes "limit") == []) ≡ true =
        (==_iff (r.query (codes "limit")) []).1 l in
      let no_offset : (r.query (codes "offset") == []) ≡ true =
        (==_iff (r.query (codes "offset")) []).1 o in
      let (rest, e) = newest 20 x s.history (omega arith) room in
      (
        map listed rest,
        rw (none_sent, no_offset)
            (ap (map listed) e ∙ ap (λ y. y ∷ map listed rest) (listed_lem x)),
      ),
)
