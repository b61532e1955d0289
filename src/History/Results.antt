-- ===== src/History/Results.antt =====
-- What UpdateResult does to the records.
use m_cloud.Base.{
  ℕ, ◌≡◌, ◌≢◌, refl, ap, sym, ◌∙◌, some_inj, ◌↔◌, inl, inr, true, List, [], ◌∷◌, arith, Text, ◌==◌,
  ==_iff, ==_refl, if◌then◌else◌, some, In, Bool-cases, length,
}
use mathlib.Core.Option
use m_cloud.Dict
use m_cloud.Dict.{Dict, get-put, In-values, In-values_split}
use m_cloud.History.{
  ExecResult, ExecRecord, ExecHistory, completed, all_done, set_result, update_first, update_result,
  find, get,
}

all_done-In :
    (xs : List ExecResult) → (all_done xs ≡ true) ↔ ((x : ExecResult) → In x xs → x.finished ≡ true)
unfolding all_done
all_done-In [] = (λ _ x m. elim m [ ], λ _. refl)
all_done-In (y ∷ xs) = (
  λ h x m. elim m [ inl e ↦ rw e (ground arith) | inr n ↦ (all_done-In xs).0 (ground arith) x n ],
  λ h. rw (h y (inl refl), (all_done-In xs).1 (λ x m. h x (inr m))) refl,
)

-- Every result of the table is a final one.
abbrev pub AllDone : Dict ExecResult → Type 0
AllDone d = (a : Text) (x : ExecResult) → Dict.get d a ≡ some x → x.finished ≡ true

AllDone-iff : (d : Dict ExecResult) → (all_done (Dict.values d) ≡ true) ↔ AllDone d
AllDone-iff d = (
  λ h a x e. (all_done-In (Dict.values d)).0 h x (In-values d a x e),
  λ h. (all_done-In (Dict.values d)).1 λ x m. let (a, e) = In-values_split d x m in h a x e,
)

id-set_result : (now : ℕ) (x : ExecResult) (r : ExecRecord) → (set_result now x r).id ≡ r.id
unfolding set_result
id-set_result now x r = ground arith

find-update_first :
    (now : ℕ) (id : Text) (x : ExecResult) (j : Text) (rs : List ExecRecord)
    → find j (update_first now id x rs)
      ≡ (if id == j then Option.map (set_result now x) (find j rs) else find j rs)
unfolding find update_first
find-update_first now id x j [] = ground arith
find-update_first now id x j (r ∷ rs) = ground (
  arith,
  find-update_first now id x j rs,
  id-set_result now x r,
  ==_iff r.id id,
  ==_iff r.id j,
  ==_iff id j,
)

pub get-update_result :
    (now : ℕ) (id : Text) (x : ExecResult) (j : Text) (h : ExecHistory)
    → get j (update_result now id x h)
      ≡ (if id == j then Option.map (set_result now x) (get j h) else get j h)
unfolding get update_result
get-update_result now id x j h = find-update_first now id x j h.records

length-update_first :
    (now : ℕ) (id : Text) (x : ExecResult) (rs : List ExecRecord)
    → length (update_first now id x rs) ≡ length rs
unfolding update_first
length-update_first now id x [] = refl
length-update_first now id x (r ∷ rs) = ground (arith, length-update_first now id x rs)

-- UpdateResult files the result under its agent in the record with the ID, and marks that record
-- completed at this time exactly if all results filed so far are final; else its status stays.
-- Records with another ID are as they were, and none is added or dropped.
pub update_result_lem :
    (now : ℕ) (id : Text) (x : ExecResult) (h : ExecHistory) (r : ExecRecord)
    → get id h ≡ some r
    → (r' : ExecRecord) × (get id (update_result now id x h) ≡ some r')
      × ((a : Text)
          → Dict.get r'.results a ≡ (if x.agent_id == a then some x else Dict.get r.results a))
      × (AllDone r'.results → (r'.status ≡ completed) × (r'.finished_at ≡ some now))
      × (¬ AllDone r'.results → (r'.status ≡ r.status) × (r'.finished_at ≡ r.finished_at))
      × ((j : Text) → id ≢ j → get j (update_result now id x h) ≡ get j h)
      × (length (update_result now id x h).records ≡ length h.records)
unfolding set_result update_result
update_result_lem now id x h r found =
    let results : Dict ExecResult = Dict.put r.results x.agent_id x in
    elim (Bool-cases (all_done (Dict.values results))) [
      | inl e ↦ (
        set_result now x r,
        rw (get-update_result, ==_refl, found) refl,
        rw e (λ a. get-put r.results x.agent_id a x),
        rw e (λ _. (refl, refl)),
        rw e (λ n. absurd (n ((AllDone-iff results).0 e))),
        λ j ne. ground (arith, get-update_result now id x j h, ==_iff id j),
        length-update_first now id x h.records,
      )
      | inr e ↦ (
        set_result now x r,
        rw (get-update_result, ==_refl, found) refl,
        rw e (λ a. get-put r.results x.agent_id a x),
        rw e (λ d. cc (e, (AllDone-iff results).1 d)),
        rw e (λ _. (refl, refl)),
        λ j ne. ground (arith, get-update_result now id x j h, ==_iff id j),
        length-update_first now id x h.records,
      )
    ]

-- The first final result completes a run: a record whose results so far are all final, as in a new
-- record with none, is marked completed by the next final result, for any list of agents that the
-- run was sent to.
pub update_result_completes :
    (now : ℕ) (id : Text) (x : ExecResult) (h : ExecHistory) (r : ExecRecord)
    → get id h ≡ some r
    → AllDone r.results
    → x.finished ≡ true
    → (r' : ExecRecord) × (get id (update_result now id x h) ≡ some r')
      × (r'.status ≡ completed)
      × (r'.agent_ids ≡ r.agent_ids)
unfolding set_result
update_result_completes now id x h r found old final =
    let done : all_done (Dict.values (Dict.put r.results x.agent_id x)) ≡ true =
      (AllDone-iff (Dict.put r.results x.agent_id x)).1 λ a y e.
        elim (Bool-cases (x.agent_id == a)) [
          | inl q ↦
              ap (λ (z : ExecResult). z.finished) (sym (some_inj (rw (get-put, q) at e))) ∙ final
          | inr q ↦ old a y (rw (get-put, q) at e)
        ] in
    (set_result now x r, rw (get-update_result, ==_refl, found) refl, rw done refl, rw done refl)
