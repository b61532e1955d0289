-- ===== src/History/Added.antt =====
-- A record that was just added is found by its ID.
use m_cloud.Base.{
  ◌+◌, ℕ, zero, suc, ◌-◌, ◌<◌, ◌≡◌, ap, ◌∙◌, List, [], ◌∷◌, ◌++◌, arith, length, length-append,
  drop, drop-append, Text, ==_iff, none, some,
}
use m_cloud.History.{ExecRecord, ExecHistory, briefed, add, find, get}
use m_cloud.History.Bounds.{records-add}

find-append :
    (id : Text) (rs : List ExecRecord) (r : ExecRecord)
    → find id rs ≡ none
    → r.id ≡ id
    → find id (rs ++ r ∷ []) ≡ some r
unfolding find
find-append id [] r h e = ground (arith, ==_iff r.id id)
find-append id (x ∷ rs) r h e = ground (arith, find-append id rs r, ==_iff r.id id)

find-drop :
    (id : Text) (k : ℕ) (rs : List ExecRecord) → find id rs ≡ none → find id (drop k rs) ≡ none
unfolding find
find-drop id zero rs h = h
find-drop id (suc k) [] h = h
find-drop id (suc k) (x ∷ rs) h = find-drop id k rs (ground arith)

id-briefed : (r : ExecRecord) → (briefed r).id ≡ r.id
unfolding briefed
id-briefed r = ground arith

pub records-add_last :
    (r : ExecRecord) (h : ExecHistory)
    → 0 < h.max_size
    → (add r h).records ≡ drop (length h.records + 1 - h.max_size) h.records ++ briefed r ∷ []
records-add_last r h room =
    let k : ℕ = length h.records + 1 - h.max_size in
    let size : length (h.records ++ briefed r ∷ []) ≡ length h.records + 1 =
      length-append h.records (briefed r ∷ []) in
    records-add r h
    ∙ ap (λ n. drop (n - h.max_size) (h.records ++ briefed r ∷ [])) size
    ∙ drop-append k h.records (briefed r ∷ []) (omega arith)

pub get-add :
    (r : ExecRecord) (h : ExecHistory)
    → get r.id h ≡ none
    → 0 < h.max_size
    → get r.id (add r h) ≡ some (briefed r)
unfolding get
get-add r h new room = rw (records-add_last r h room) (
    find-append r.id (drop (length h.records + 1 - h.max_size) h.records) (briefed r)
      (find-drop r.id (length h.records + 1 - h.max_size) h.records new) (id-briefed r))
