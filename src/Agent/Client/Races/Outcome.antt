-- ===== src/Agent/Client/Races/Outcome.antt =====
-- How two handlers for one new session end.
use m_cloud.Base.{
  ℕ, suc, ◌+◌, ◌≤◌, ◌<◌, ◌≡◌, refl, sym, ap, ◌∙◌, ◌≢◌, ◌⊎◌, inl, inr, Bool, true, false, not, List,
  [], ◌∷◌, arith, Text, none, some, get_elem?, length, some_inj,
}
use m_cloud.Dict
use m_cloud.Agent.Client.{Agent}
use m_cloud.Agent.Client.Invariant.{Inv}
use m_cloud.Agent.Client.Races.{
  Task, looking, given_up, opening, filing, writing, finished, advance, play,
}
use m_cloud.Agent.Client.Races.Steps.{
  shell_with, Both, IsPlain, under_way, place_bound, advance-Both, Both-swap, left, advance-left,
}

-- How often the schedule lets that handler go on.
abbrev pub turns : Bool → List Bool → ℕ
turns b [] = 0
turns true (true ∷ s) = suc (turns true s)
turns true (false ∷ s) = turns true s
turns false (true ∷ s) = turns false s
turns false (false ∷ s) = suc (turns false s)

finished_of : (x : Task) → under_way x ≡ true → left x ≤ 0 → (p : ℕ) × (x ≡ finished p)
finished_of looking past h = cc
finished_of given_up past h = cc
finished_of opening past h = absurd (omega arith)
finished_of (filing p) past h = absurd (omega arith)
finished_of (writing p) past h = absurd (omega arith)
finished_of (finished p) past h = (p, refl)

-- Both are at their end, and keep what they kept.
abbrev Ended : Text → Agent → Text → Text → Task × Task × Agent → Type 0
Ended k a t u r =
    (p : ℕ) × (q : ℕ) × (r.0 ≡ finished p)
    × (r.1 ≡ finished q)
    × Both k a t (finished p) u (finished q) r.2

module _ (k t u : Text) (a : Agent) (plain : IsPlain t) (plain' : IsPlain u) where
  play-Ended :
      (s : List Bool) (x y : Task) (b : Agent)
      → under_way x ≡ true
      → under_way y ≡ true
      → left x ≤ turns true s
      → left y ≤ turns false s
      → Both k a t x u y b
      → Ended k a t u (play k t u s x y b)
  unfolding play
  play-Ended [] x y b past past' enough enough' h =
      let (p, e) = finished_of x past enough in
      let (q, e') = finished_of y past' enough' in (p, q, e, e', rw (← e, ← e') h)
  play-Ended (true ∷ s) x y b past past' enough enough' h =
      let (on, fewer) = advance-left k t x b past in
      play-Ended s (advance k t x b).0 y (advance k t x b).1 on past' (omega (arith, fewer, enough))
        enough' (advance-Both k a t u y x b plain past h)
  play-Ended (false ∷ s) x y b past past' enough enough' h =
      let (on, fewer) = advance-left k u y b past' in
      play-Ended s x (advance k u y b).0 (advance k u y b).1 past on enough
        (omega (arith, fewer, enough'))
        (Both-swap k a u _ t x _
          (advance-Both k a u t x y b plain' past' (Both-swap k a t x u y b h)))

opening-Both : (k t u : Text) (a : Agent) → Both k a t opening u opening a
opening-Both k t u a = record {
  size = omega arith;
  mine = λ p m. absurd m;
  other = λ p m. absurd m;
  apart = λ p m m'. m;
  entries = λ j p e. inl e;
  entry = λ p w. elim w [ inl m ↦ absurd m | inr m ↦ absurd m ];
}

found_nothing :
    (k t : Text) (a : Agent) → Dict.get a.sessions k ≡ none → advance k t looking a ≡ (opening, a)
unfolding advance
found_nothing k t a missing = rw (missing, advance) refl

looked_up :
    (k t u : Text) (order : Bool) (s : List Bool) (a : Agent)
    → Dict.get a.sessions k ≡ none
    → play k t u (order ∷ not order ∷ s) looking looking a ≡ play k t u s opening opening a
unfolding play advance
looked_up k t u true s a missing =
    ap (λ (r : Task × Agent). let (y, b) = advance k u looking r.1 in play k t u s r.0 y b)
      (found_nothing k t a missing)
    ∙ ap (λ (r : Task × Agent). play k t u s opening r.0 r.1) (found_nothing k u a missing)
looked_up k t u false s a missing =
    ap (λ (r : Task × Agent). let (x, b) = advance k t looking r.1 in play k t u s x r.0 b)
      (found_nothing k u a missing)
    ∙ ap (λ (r : Task × Agent). play k t u s r.0 opening r.1) (found_nothing k t a missing)

-- No entry leads to the other of two places.
abbrev LeadsOnly : Text → Agent → ℕ → ℕ → Type 0
LeadsOnly k b p q = (Dict.get b.sessions k ≡ some p) × ((j : Text) → Dict.get b.sessions j ≢ some q)

one_reached :
    (id k t u : Text) (a b : Agent) (p q : ℕ)
    → Inv id a
    → Both k a t (finished p) u (finished q) b
    → LeadsOnly k b p q ⊎ LeadsOnly k b q p
one_reached id k t u a b p q inv h =
    let (r, e, w) = h.entry p (inl refl) in
    elim w [
      | inl same ↦ inl (
        e ∙ ap some (sym same),
        λ j e'. unreached j r q e e' (rw (← same) (apart)) (h.other q refl).1,
      )
      | inr same ↦ inr (
        e ∙ ap some (sym same),
        λ j e'. unreached j r p e e' (rw (← same) (λ x. apart (sym x))) (h.mine p refl).1,
      )
    ]
  where
    apart : p ≢ q
    apart e = h.apart p refl (sym e)

    unreached :
        (j : Text) (r o : ℕ)
        → Dict.get b.sessions k ≡ some r
        → Dict.get b.sessions j ≡ some o
        → r ≢ o
        → length a.shells ≤ o
        → ⊥
    unreached j r o e e' ne above = elim (h.entries j o e') [
      | inl old ↦
          let (s, there, name) = inv.named j o old in
          let short : o < length a.shells = place_bound a.shells o s there in
          omega (arith, short, above)
      | inr (same, w) ↦ ne (some_inj (sym e ∙ ap (λ i. Dict.get b.sessions i) (sym same) ∙ e'))
    ]

-- If two handlers of texts for one new session, neither a lone control-D, both look it up before
-- either makes it, and then go on by turns in any order until both have ended, for which three turns
-- of each are enough, then the agent has two shells more: each was sent the text of one handler and
-- runs on, and the entry of the session leads to one of them. No entry at all leads to the other,
-- which is out of reach. All shells are taken to start.
pub two_shells_lem :
    (id k t u : Text) (order : Bool) (s : List Bool) (a : Agent)
    → Inv id a
    → Dict.get a.sessions k ≡ none
    → IsPlain t
    → IsPlain u
    → 3 ≤ turns true s
    → 3 ≤ turns false s
    → let (x, y, b) = play k t u (order ∷ not order ∷ s) looking looking a in
      (p : ℕ) × (q : ℕ) × (x ≡ finished p)
      × (y ≡ finished q)
      × (p ≢ q)
      × (length b.shells ≡ length a.shells + 2)
      × (get_elem? b.shells p ≡ some (shell_with k (t ∷ [])))
      × (get_elem? b.shells q ≡ some (shell_with k (u ∷ [])))
      × ((Dict.get b.sessions k ≡ some p) × ((j : Text) → Dict.get b.sessions j ≢ some q)
          ⊎ (Dict.get b.sessions k ≡ some q) × ((j : Text) → Dict.get b.sessions j ≢ some p))
two_shells_lem id k t u order s a inv missing plain plain' enough enough' =
    let b : Agent = (play k t u s opening opening a).2 in
    let (p, q, e, e', h) =
      play-Ended k t u a plain plain' s opening opening a refl refl enough enough'
        (opening-Both k t u a) in
    rw (looked_up k t u order s a missing) (
      p,
      q,
      e,
      e',
      (λ same. h.apart p refl (sym same)),
      h.size,
      (h.mine p refl).0,
      (h.other q refl).0,
      one_reached id k t u a b p q inv h,
    )
