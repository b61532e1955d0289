-- ===== src/Agent/Client/Sessions.antt =====
-- Terminal sessions of the agent: what reaches the shell, and what is lost.
use m_cloud.Base.{
  ℕ, zero, suc, ◌≡◌, refl, ap, ◌∙◌, Bool, true, false, List, [], ◌∷◌, ◌++◌, append-nil,
  append_assoc, arith, Text, ◌==◌, ==_refl, All, none, some, get_elem?, modify_at, length, some_inj,
  length-modify_at, get_elem?-modify_at, get_elem?-append_end,
}
use m_cloud.Dict
use m_cloud.Dict.{get-put, get-remove}
use m_cloud.Agent.Terminal.{Session, failed, new_session, write_input, close, stream_round}
use m_cloud.Agent.Client.{Agent, Codec, World, open_session, deliver, handle_terminal_input}
use m_cloud.Agent.Client.Loop.{stream}

-- The texts that are typed into a session one after the other, while shells start.
abbrev pub type_all : Text → List Text → Agent → Agent
type_all k [] a = a
type_all k (t ∷ ts) a =
    type_all k ts (handle_terminal_input true (record { session_id = k; typed = t }) a)

-- The session `k` stands at the place `p`.
abbrev pub IsAt : Text → ℕ → Session → Agent → Type 0
IsAt k p s a = (Dict.get a.sessions k ≡ some p) × (get_elem? a.shells p ≡ some s)

abbrev pub IsPlain : Text → Type 0
IsPlain t = (t == 4 ∷ []) ≡ false

pub typed-IsAt :
    (started : Bool) (k t : Text) (p : ℕ) (s : Session) (a : Agent)
    → IsPlain t
    → s.closed ≡ false
    → IsAt k p s a
    → IsAt k p
        (record s { typed = s.typed ++ t ∷ [] })
        (handle_terminal_input started (record { session_id = k; typed = t }) a)
unfolding handle_terminal_input deliver write_input
typed-IsAt started k t p s a plain live h =
    rw (h.0, plain, handle_terminal_input)
      (h.0, get_elem?-modify_at p (write_input t) a.shells s h.1 ∙ rw live refl)

pub fresh-IsAt :
    (k t : Text) (a : Agent)
    → IsPlain t
    → Dict.get a.sessions k ≡ none
    → IsAt k
        (length a.shells)
        (record { id = k; cols = 80; rows = 24; typed = t ∷ []; closed = false; kills = 0 })
        (handle_terminal_input true (record { session_id = k; typed = t }) a)
unfolding handle_terminal_input open_session new_session deliver write_input
fresh-IsAt k t a plain new =
    rw (new, plain, handle_terminal_input)
      (
        rw (get-put, ==_refl) refl,
        get_elem?-modify_at (length a.shells) (write_input t) _ _ (get_elem?-append_end a.shells _),
      )

texts_typed-IsAt :
    (k : Text) (ts : List Text) (p : ℕ) (s : Session) (a : Agent)
    → All IsPlain ts
    → s.closed ≡ false
    → IsAt k p s a
    → IsAt k p (record s { typed = s.typed ++ ts }) (type_all k ts a)
texts_typed-IsAt k [] p s a plain live h = (h.0, h.1 ∙ rw append-nil refl)
texts_typed-IsAt k (t ∷ ts) p s a plain live h =
    let (place, there) =
      texts_typed-IsAt k ts p (record s { typed = s.typed ++ t ∷ [] }) _ plain.1 live
        (typed-IsAt true k t p s a plain.0 live h) in
    (place, there ∙ simp append_assoc refl)

-- Where each text is handled to its end before the next one is handled, which the goroutines of the
-- agent do not ensure: the first text for a session that the agent does not have makes a shell of 80
-- columns and 24 rows, and it and all further texts for the session reach that shell in order, if
-- none is a lone control-D. The shell is taken to start.
pub type_all_lem :
    (k t : Text) (ts : List Text) (a : Agent)
    → Dict.get a.sessions k ≡ none
    → All (λ t. (t == 4 ∷ []) ≡ false) (t ∷ ts)
    → (Dict.get (type_all k (t ∷ ts) a).sessions k ≡ some (length a.shells))
      × (get_elem? (type_all k (t ∷ ts) a).shells (length a.shells)
          ≡ some
              (record { id = k; cols = 80; rows = 24; typed = t ∷ ts; closed = false; kills = 0 }))
type_all_lem k t ts a new plain =
    texts_typed-IsAt k ts (length a.shells) _ _ plain.1 refl (fresh-IsAt k t a plain.0 new)

modify_at_same :
    (p : ℕ) (f : Session → Session) (ss : List Session) (s : Session)
    → get_elem? ss p ≡ some s
    → f s ≡ s
    → modify_at p f ss ≡ ss
modify_at_same p f [] s e same = refl
modify_at_same zero f (x ∷ ss) s e same = ap (λ y. y ∷ ss) (rw (some_inj e) same)
modify_at_same (suc p) f (x ∷ ss) s e same = ap (λ r. x ∷ r) (modify_at_same p f ss s e same)

lost :
    (k t : Text) (p : ℕ) (s : Session) (a : Agent)
    → IsPlain t
    → s.closed ≡ true
    → IsAt k p s a
    → handle_terminal_input true (record { session_id = k; typed = t }) a ≡ a
unfolding handle_terminal_input deliver write_input
lost k t p s a plain dead h =
    rw (h.0, plain, handle_terminal_input)
      (ap (λ ss. record a { shells = ss })
        (modify_at_same p (write_input t) a.shells s h.1 (rw (dead, write_input) refl)))

texts_lost :
    (k : Text) (ts : List Text) (p : ℕ) (s : Session) (a : Agent)
    → All IsPlain ts
    → s.closed ≡ true
    → IsAt k p s a
    → type_all k ts a ≡ a
texts_lost k [] p s a plain dead h = refl
texts_lost k (t ∷ ts) p s a plain dead h =
    ap (type_all k ts) (lost k t p s a plain.0 dead h) ∙ texts_lost k ts p s a plain.1 dead h

round_failed :
    (s : Session) → ((stream_round failed s).0 ≡ none) × ((stream_round failed s).1.closed ≡ true)
unfolding stream_round close
round_failed s = ground arith

ended-IsAt :
    (codec : Codec) (world : World) (k : Text) (p : ℕ) (s : Session) (a : Agent)
    → IsAt k p s a
    → IsAt k p (stream_round failed s).1 (stream codec world p failed a)
unfolding stream
ended-IsAt codec world k p s a h =
    rw (h.1, (round_failed s).0, stream) (h.0, get_elem?-modify_at p _ a.shells s h.1)

-- Once the shell of a session has ended by itself, which its failed read shows, the agent keeps the
-- dead session: all further texts for it but a lone control-D are lost, with no new shell, no answer
-- and no other change.
pub dead_session_lem :
    (codec : Codec) (world : World) (k : Text) (ts : List Text) (p : ℕ) (s : Session) (a : Agent)
    → Dict.get a.sessions k ≡ some p
    → get_elem? a.shells p ≡ some s
    → All (λ t. (t == 4 ∷ []) ≡ false) ts
    → type_all k ts (stream codec world p failed a) ≡ stream codec world p failed a
dead_session_lem codec world k ts p s a place there plain =
    texts_lost k ts p (stream_round failed s).1 _ plain (round_failed s).1
      (ended-IsAt codec world k p s a (place, there))

-- A lone control-D closes the shell of a session and kills it, and the agent forgets the session,
-- so that the next text for it makes a new shell; the old one is left as it is.
pub control_d_lem :
    (k t : Text) (p : ℕ) (s : Session) (a : Agent)
    → Dict.get a.sessions k ≡ some p
    → get_elem? a.shells p ≡ some s
    → (t == 4 ∷ []) ≡ false
    → let ended = handle_terminal_input true (record { session_id = k; typed = 4 ∷ [] }) a in
      (Dict.get ended.sessions k ≡ none)
      × (get_elem? ended.shells p ≡ some (close s))
      × IsAt k
          (length a.shells)
          (record { id = k; cols = 80; rows = 24; typed = t ∷ []; closed = false; kills = 0 })
          (handle_terminal_input true (record { session_id = k; typed = t }) ended)
unfolding handle_terminal_input deliver ◌==◌
control_d_lem k t p s a place there plain =
    let ended : Agent = handle_terminal_input true (record { session_id = k; typed = 4 ∷ [] }) a in
    let gone : Dict.get ended.sessions k ≡ none =
      rw (place, handle_terminal_input) (rw (get-remove, ==_refl) refl) in
    let size : length ended.shells ≡ length a.shells =
      rw (place, handle_terminal_input) (length-modify_at p close a.shells) in
    (
      gone,
      rw (place, handle_terminal_input) (get_elem?-modify_at p close a.shells s there),
      rw (← size) (fresh-IsAt k t ended plain gone),
    )
