-- ===== src/History/Bounds.antt =====
-- The history against the list of all records that were ever added, and List against a page of it.
use m_cloud.Base.{
  true, ltb, ◌&&◌, codes, ◌==◌, ==_iff, ◌≢◌, ◌⊎◌, ℕ, zero, suc, ◌-◌, ◌≤◌, ◌<◌, ◌≡◌, refl, sym, ap,
  ◌∙◌, List, [], ◌∷◌, ◌++◌, arith, length, take, drop, take_last, take_last-append, trim-take_last,
  take-suc, get_elem?-lt, drop-reverse, drop_all, length-reverse, reverse, reverse-append, map,
  map-append, append-nil, append_assoc, drop-nil, take-nil, leb→le, leb, Bool-cases, inl, inr,
}
use m_cloud.Base.Int.{ℤ, pos, negsuc, ◌≤ℤ◌}
use mathlib.Core.Path.{subst}
use m_cloud.History.{ExecRecord, ExecHistory, new, briefed, add, page, list}

-- The record with the preview that it should have.
abbrev pub IsBriefed : ExecRecord → ExecRecord → Type 0
IsBriefed r x =
    (r.script_brief ≡ []
      → 100 < length r.script
      → x ≡ record r { script_brief = take 100 r.script ++ codes "..." })
    × ((r.script_brief ≢ []) ⊎ (length r.script ≤ 100) → x ≡ r)

pub briefed-IsBriefed : (r : ExecRecord) → IsBriefed r (briefed r)
unfolding briefed
briefed-IsBriefed r = (
  λ e long.
      let blank : (r.script_brief == []) ≡ true = (==_iff r.script_brief []).1 e in
      let over : ltb 100 (length r.script) ≡ true = ground arith in rw (blank, over, briefed) refl,
  λ w. elim (Bool-cases (r.script_brief == [] && ltb 100 (length r.script))) [
    | inr q ↦ rw (q, briefed) refl
    | inl q ↦
        let blank : (r.script_brief == []) ≡ true = ground arith in
        let over : 100 < length r.script = ground arith in
        elim w [
          | inl some_brief ↦ absurd (some_brief ((==_iff r.script_brief []).0 blank))
          | inr short ↦ absurd (omega arith)
        ]
  ],
)

unfoldable pub add_all : List ExecRecord → ExecHistory → ExecHistory
unfolding add
add_all [] h = h
add_all (r ∷ rs) h = add_all rs (add r h)

pub records-add :
    (r : ExecRecord) (h : ExecHistory)
    → (add r h).records ≡ take_last h.max_size (h.records ++ briefed r ∷ [])
unfolding add
records-add r h = trim-take_last h.max_size (h.records ++ briefed r ∷ [])

-- The records are the last ones of all that were ever added, `all`, oldest first.
abbrev Refines : List ExecRecord → ExecHistory → Type 0
Refines all h = h.records ≡ take_last h.max_size (map briefed all)

add-Refines :
    (all : List ExecRecord) (r : ExecRecord) (h : ExecHistory)
    → Refines all h
    → Refines (all ++ r ∷ []) (add r h)
unfolding add
add-Refines all r h v =
    records-add r h
    ∙ ap (λ l. take_last h.max_size (l ++ briefed r ∷ [])) v
    ∙ take_last-append h.max_size (map briefed all) (briefed r)
    ∙ ap (take_last h.max_size) (sym (map-append briefed all (r ∷ [])))

add_all-Refines :
    (all rs : List ExecRecord) (h : ExecHistory)
    → Refines all h
    → Refines (all ++ rs) (add_all rs h)
unfolding add_all
add_all-Refines all [] h v = rw (append-nil all) v
add_all-Refines all (r ∷ rs) h v =
    subst (λ l. Refines l (add_all rs (add r h))) (append_assoc all (r ∷ []) rs)
      (add_all-Refines (all ++ r ∷ []) rs (add r h) (add-Refines all r h v))

max_size-add_all : (rs : List ExecRecord) (h : ExecHistory) → (add_all rs h).max_size ≡ h.max_size
unfolding add_all
max_size-add_all [] h = refl
max_size-add_all (r ∷ rs) h = unfold add in max_size-add_all rs (add r h)

records-new : (n : ℤ) → (new n).records ≡ []
unfolding new
records-new (pos zero) = refl
records-new (pos (suc n)) = refl
records-new (negsuc n) = refl

-- However many records are added to a new history, it holds the last of them, in order, as many as
-- the size it was made with, or 500 if that is not positive. Each has its preview filled in: the
-- first 100 bytes and three dots, for a script of more than 100 bytes that has no preview yet.
pub records-add_all :
    (n : ℤ) (rs : List ExecRecord)
    → ((add_all rs (new n)).records ≡ take_last (new n).max_size (map briefed rs))
      × (n ≤ℤ pos 0 → (new n).max_size ≡ 500)
      × ((k : ℕ) → 0 < k → n ≡ pos k → (new n).max_size ≡ k)
      × ((r : ExecRecord) → IsBriefed r (briefed r))
unfolding new
records-add_all n rs = (
  subst (λ k. (add_all rs (new n)).records ≡ take_last k (map briefed rs))
      (max_size-add_all rs (new n))
      (add_all-Refines [] rs (new n) (records-new n ∙ sym (drop-nil _))),
  max_size_default n,
  max_size_pos n,
  briefed-IsBriefed,
)
  where
    max_size_default : (n : ℤ) → n ≤ℤ pos 0 → (new n).max_size ≡ 500
    max_size_default (pos zero) h = refl
    max_size_default (pos (suc n)) h = absurd (omega arith)
    max_size_default (negsuc n) h = refl

    max_size_pos : (n : ℤ) (k : ℕ) → 0 < k → n ≡ pos k → (new n).max_size ≡ k
    max_size_pos n zero some_room e = absurd (omega arith)
    max_size_pos n (suc k) some_room e = rw e refl

page_lem :
    (rs : List ExecRecord) (left room : ℕ)
    → left ≤ length rs
    → page rs left room ≡ take room (reverse (take left rs))
unfolding page
page_lem rs zero zero h = refl
page_lem rs zero (suc room) h = refl
page_lem rs (suc i) zero h = refl
page_lem rs (suc i) (suc room) h =
    let (r, e) = get_elem?-lt i rs h in
    let back : reverse (take (suc i) rs) ≡ r ∷ reverse (take i rs) =
      ap reverse (take-suc i rs r e) ∙ reverse-append (take i rs) (r ∷ []) in
    rw (e, page, back) (ap (λ t. r ∷ t) (page_lem rs i room (omega arith)))

-- List pages through the records from the newest to the oldest: it skips `offset` of them and
-- returns at most `limit`.
pub list_lem :
    (limit offset : ℕ) (h : ExecHistory)
    → list limit offset h ≡ take limit (drop offset (reverse h.records))
unfolding list
list_lem limit offset h = elim (Bool-cases (leb (length h.records) offset)) [
  | inl e ↦
      rw
        (
          e,
          drop_all offset (reverse h.records)
              (omega (arith, length-reverse h.records, leb→le (length h.records) offset e)),
        )
        (sym (take-nil limit))
  | inr e ↦
      rw (e, drop-reverse offset h.records)
        (page_lem h.records (length h.records - offset) limit (omega arith))
]
