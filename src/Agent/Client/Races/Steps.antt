-- ===== src/Agent/Client/Races/Steps.antt =====
-- What two handlers for one new session keep, whichever of them goes on.
use m_cloud.Base.{
  ℕ, suc, zero, ◌+◌, ◌≤◌, ◌<◌, ◌≡◌, refl, sym, ◌∙◌, ◌⊎◌, inl, inr, false, List, [], ◌∷◌, ◌++◌,
  arith, Text, ◌==◌, ==_iff, ==_refl, some, Bool-cases, get_elem?, length, some_inj, length-append,
  length-modify_at, ◌-◌, get_elem?-modify_at, get_elem?-modify_at_ne, get_elem?-append_end,
  get_elem?-append_left, Bool, true,
}
use m_cloud.Dict
use m_cloud.Dict.{get-put}
use m_cloud.Agent.Terminal.{Session, new_session, write_input}
use m_cloud.Agent.Client.{Agent, deliver}
use m_cloud.Agent.Client.Races.{
  Task, looking, given_up, opening, filing, writing, finished, advance,
}

-- A shell of the session that was sent these texts.
abbrev pub shell_with : Text → List Text → Session
shell_with k ts = record { id = k; cols = 80; rows = 24; typed = ts; closed = false; kills = 0 }

-- The handler made the shell at this place.
abbrev pub Made : Task → ℕ → Type 0
Made (filing p) q = p ≡ q
Made (writing p) q = p ≡ q
Made (finished p) q = p ≡ q
Made _ q = ⊥

-- It has filed it.
abbrev pub Filed : Task → ℕ → Type 0
Filed (writing p) q = p ≡ q
Filed (finished p) q = p ≡ q
Filed _ q = ⊥

-- What its shell was sent.
abbrev pub texts : Text → Task → List Text
texts t (finished p) = t ∷ []
texts t _ = []

abbrev pub made : Task → ℕ
made looking = 0
made given_up = 0
made opening = 0
made _ = 1

-- The agent `b`, with the handlers at `x` and `y` for the texts `t` and `u`, since both found nothing
-- in `a`.
pub record Both (k : Text) (a : Agent) (t : Text) (x : Task) (u : Text) (y : Task) (b : Agent)
    : Type 0 where
  pub size : length b.shells ≡ length a.shells + (made x + made y)
  pub mine :
      (p : ℕ)
      → Made x p
      → (get_elem? b.shells p ≡ some (shell_with k (texts t x))) × (length a.shells ≤ p)
  pub other :
      (p : ℕ)
      → Made y p
      → (get_elem? b.shells p ≡ some (shell_with k (texts u y))) × (length a.shells ≤ p)
  pub apart : (p : ℕ) → Made x p → ¬ Made y p
  pub entries :
      (j : Text) (p : ℕ)
      → Dict.get b.sessions j ≡ some p
      → (Dict.get a.sessions j ≡ some p) ⊎ ((j ≡ k) × (Filed x p ⊎ Filed y p))
  pub entry :
      (p : ℕ)
      → Filed x p ⊎ Filed y p
      → (q : ℕ) × (Dict.get b.sessions k ≡ some q) × (Filed x q ⊎ Filed y q)

abbrev pub IsPlain : Text → Type 0
IsPlain t = (t == 4 ∷ []) ≡ false

pub place_bound :
    (xs : List Session) (i : ℕ) (s : Session) → get_elem? xs i ≡ some s → i < length xs
place_bound [] i s e = cc
place_bound (x ∷ xs) zero s e = omega arith
place_bound (x ∷ xs) (suc i) s e = omega (arith, place_bound xs i s e)

-- It has looked the session up, and has a session or will make one.
abbrev pub under_way : Task → Bool
under_way looking = false
under_way given_up = false
under_way _ = true

module _ (k : Text) (a : Agent) (t u : Text) (y : Task) where
  opened-Both :
      (b : Agent)
      → Both k a t opening u y b
      → Both k a t
          (filing (length b.shells))
          u
          y
          (record b { shells = b.shells ++ shell_with k [] ∷ [] })
  opened-Both b h =
      let grown = length-append b.shells (shell_with k [] ∷ []) in
      let size : length b.shells ≡ length a.shells + (0 + made y) = h.size in
      record {
        size = omega (arith, grown, size);
        mine =
            λ p e. rw (← e) (get_elem?-append_end b.shells (shell_with k []), omega (arith, size));
        other = λ p m. (get_elem?-append_left p b.shells _ _ (h.other p m).0, (h.other p m).1);
        apart = λ p e m.
            let short : p < length b.shells = place_bound b.shells p _ (h.other p m).0 in
            absurd (omega (arith, e, short));
        entries = λ j p e. elim (h.entries j p e) [
          | inl old ↦ inl old
          | inr (same, inl w) ↦ absurd w
          | inr (same, inr w) ↦ inr (same, inr w)
        ];
        entry = λ p w. elim w [ inl w ↦ absurd w | inr w ↦ h.entry p (inr w) ];
      }

  filed-Both :
      (p : ℕ) (b : Agent)
      → Both k a t (filing p) u y b
      → Both k a t (writing p) u y (record b { sessions = Dict.put b.sessions k p })
  filed-Both p b h = record {
    size = h.size;
    mine = h.mine;
    other = h.other;
    apart = h.apart;
    entries = λ j q e. elim (Bool-cases (k == j)) [
      | inl same ↦ inr (sym ((==_iff k j).0 same), inl (some_inj (rw (get-put, same) at e)))
      | inr differs ↦ elim (h.entries j q (rw (get-put, differs) at e)) [
        | inl old ↦ inl old
        | inr (same, inl w) ↦ absurd w
        | inr (same, inr w) ↦ inr (same, inr w)
      ]
    ];
    entry = λ q w. (p, rw (get-put, ==_refl) refl, inl refl);
  }

  written-Both :
      (p : ℕ) (b : Agent)
      → IsPlain t
      → Both k a t (writing p) u y b
      → Both k a t (finished p) u y (deliver p (record { session_id = k; typed = t }) b)
  unfolding deliver write_input
  written-Both p b plain h =
      rw (plain, deliver)
        record {
          size = length-modify_at p (write_input t) b.shells ∙ h.size;
          mine = λ q e. rw (← e) (
            get_elem?-modify_at p (write_input t) b.shells (shell_with k []) (h.mine p refl).0,
            (h.mine p refl).1,
          );
          other = λ q m. (
            get_elem?-modify_at_ne p q (write_input t) b.shells (λ e. h.apart q e m)
                ∙ (h.other q m).0,
            (h.other q m).1,
          );
          apart = h.apart;
          entries = h.entries;
          entry = h.entry;
        }

  pub advance-Both :
      (x : Task) (b : Agent)
      → IsPlain t
      → under_way x ≡ true
      → Both k a t x u y b
      → Both k a t (advance k t x b).0 u y (advance k t x b).1
  unfolding advance new_session
  advance-Both looking b plain past h = cc
  advance-Both given_up b plain past h = cc
  advance-Both opening b plain past h = opened-Both b h
  advance-Both (filing p) b plain past h = filed-Both p b h
  advance-Both (writing p) b plain past h = written-Both p b plain h
  advance-Both (finished p) b plain past h = h

pub Both-swap :
    (k : Text) (a : Agent) (t : Text) (x : Task) (u : Text) (y : Task) (b : Agent)
    → Both k a t x u y b
    → Both k a u y t x b
Both-swap k a t x u y b h = record {
  size = omega (arith, h.size);
  mine = h.other;
  other = h.mine;
  apart = λ p m m'. h.apart p m' m;
  entries = λ j p e. elim (h.entries j p e) [
    | inl old ↦ inl old
    | inr (same, w) ↦ inr (same, swap _ _ w)
  ];
  entry = λ p w. let (q, e, v) = h.entry p (swap _ _ w) in (q, e, swap _ _ v);
}
  where
    swap : (A B : Type 0) → A ⊎ B → B ⊎ A
    swap A B w = elim w [ inl v ↦ inr v | inr v ↦ inl v ]

-- The steps that are left.
abbrev pub left : Task → ℕ
left looking = 4
left given_up = 0
left opening = 3
left (filing p) = 2
left (writing p) = 1
left (finished p) = 0

pub advance-left :
    (k t : Text) (x : Task) (b : Agent)
    → under_way x ≡ true
    → (under_way (advance k t x b).0 ≡ true) × (left (advance k t x b).0 ≤ left x - 1)
unfolding advance new_session
advance-left k t looking b past = cc
advance-left k t given_up b past = cc
advance-left k t opening b past = (refl, omega arith)
advance-left k t (filing p) b past = (refl, omega arith)
advance-left k t (writing p) b past = (refl, omega arith)
advance-left k t (finished p) b past = (refl, omega arith)
