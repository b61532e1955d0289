-- ===== src/Agent/Client/Turns.antt =====
-- How long the loop of the agent goes on: until the turn of the first "shutdown" or "restart" command.
use m_cloud.Base.{
  ℕ, suc, ◌≡◌, refl, ◌∙◌, Bool, true, false, List, [], ◌∷◌, ◌++◌, All, Option, none, some,
  if◌then◌else◌, length, eqb,
}
use m_cloud.Agent.Client.{Agent, Codec, World, register}
use m_cloud.Agent.Client.Loop.{
  Event, exit_timer, run, Attempt, returned, looping, connect, connect_loop, ended, Ending,
}
use m_cloud.Agent.Client.Stopping.{is_shutdown, IsQuiet, Flag, send_flag, is_restart}
use m_cloud.Agent.Client.Restarting.{run_restart}
use m_cloud.Agent.Client.Turn.{
  run_shutdown, turn, connected, connect_quiet, turn_to, loop_turn, loop_stopped, calm, first,
  second,
}

abbrev pub IsQuietTurn : Codec → Attempt → Type 0
IsQuietTurn codec t = IsQuiet codec t.during × IsQuiet codec t.resting

connect_exits :
    (codec : Codec) (world : World) (t : Attempt) (c : ℕ) (a : Agent)
    → t.dialled ≡ some c
    → Flag false a
    → ((b : Agent) → Flag false b → run codec world t.during b ≡ none)
    → connect codec world t a ≡ none
unfolding connect register
connect_exits codec world t c a d h k =
    let b : Agent = register codec t.info (record a { conn = some c }) in
    let exits : run codec world t.during b ≡ none =
      k b (send_flag _ (record a { conn = some c }) ∙ h) in
    rw (d, connect) (rw exits refl)

loop_exits :
    (codec : Codec) (world : World) (t : Attempt) (ts : List Attempt) (a : Agent)
    → a.stopped ≡ false
    → connect codec world t a ≡ none
    → connect_loop codec world (t ∷ ts) a ≡ (1, ended, a)
unfolding connect_loop
loop_exits codec world t ts a h e = go a.stopped (turn codec world t a) _ h (rw e refl)
  where
    go :
        (stopped : Bool) (o : Option Agent) (f : Agent → ℕ × Ending × Agent)
        → stopped ≡ false
        → o ≡ none
        → ◌≡◌ {A = ℕ × Ending × Agent}
            (if stopped then (0, returned, a) else elim o [ none ↦ (1, ended, a) | some b ↦ f b ])
            (1, ended, a)
    go stopped o f q r = rw (q, r) refl

goes_on :
    (codec : Codec) (world : World) (ts : List Attempt) (a : Agent)
    → a.stopped ≡ false
    → a.restarting ≡ false
    → All (IsQuietTurn codec) ts
    → (last : Agent) × (connect_loop codec world ts a ≡ (length ts, looping, last))
      × (last.stopped ≡ false)
unfolding connect_loop
goes_on codec world [] a h i q = (a, refl, h)
goes_on codec world (t ∷ ts) a h i q =
    let flagged : Flag false a = calm false a h i in
    let g =
      turn_to codec world t false a q.0.1 (connect_quiet codec world t false a q.0.0 flagged) in
    let (last, e, k) =
      goes_on codec world ts g.result (first false g.result g.good) (second false g.result g.good)
        q.1 in
    (last, loop_turn codec world t ts a g.result h g.is ∙ rw e refl, k)

exits_after :
    (codec : Codec) (world : World) (ts : List Attempt) (t : Attempt) (us : List Attempt) (c : ℕ)
    (before : List Event) (e : Event) (middle after : List Event) (a : Agent)
    → a.stopped ≡ false
    → a.restarting ≡ false
    → All (IsQuietTurn codec) ts
    → t.dialled ≡ some c
    → t.during ≡ before ++ e ∷ (middle ++ exit_timer ∷ after)
    → IsQuiet codec before
    → is_restart codec e ≡ true
    → (last : Agent) × (connect_loop codec world (ts ++ t ∷ us) a ≡ (suc (length ts), ended, last))
unfolding connect_loop
exits_after codec world [] t us c before e middle after a h i q d split qb asked = (
  a,
  loop_exits codec world t us a h (
      connect_exits codec world t c a d (calm false a h i)
        (λ b k. rw split (run_restart codec world before e middle after b qb asked k))),
)
exits_after codec world (u ∷ ts) t us c before e middle after a h i q d split qb asked =
    let flagged : Flag false a = calm false a h i in
    let g =
      turn_to codec world u false a q.0.1 (connect_quiet codec world u false a q.0.0 flagged) in
    let (last, l) =
      exits_after codec world ts t us c before e middle after g.result (first false g.result g.good)
        (second false g.result g.good) q.1 d split qb asked in
    (last, loop_turn codec world u (ts ++ t ∷ us) a g.result h g.is ∙ rw l refl)

-- As long as no "shutdown" and no "restart" command is handled, the loop dials again after every
-- failed dial and every lost connection: it takes each turn it is given and is not left. If a
-- "restart" is handled in the next turn and its second is over before the connection is lost, the
-- process ends in that turn, whatever else is handled in between.
pub loop_goes_on :
    (codec : Codec) (world : World) (ts : List Attempt) (a : Agent)
    → a.stopped ≡ false
    → a.restarting ≡ false
    → All (IsQuietTurn codec) ts
    → ((last : Agent) × (connect_loop codec world ts a ≡ (length ts, looping, last))
        × (last.stopped ≡ false))
      × ((t : Attempt) (us : List Attempt) (c : ℕ) (before : List Event) (e : Event)
            (middle after : List Event)
          → t.dialled ≡ some c
          → t.during ≡ before ++ e ∷ (middle ++ exit_timer ∷ after)
          → IsQuiet codec before
          → is_restart codec e ≡ true
          → (last : Agent) × (connect_loop codec world (ts ++ t ∷ us) a
              ≡ (suc (length ts), ended, last)))
loop_goes_on codec world ts a h i q = (
  goes_on codec world ts a h i q,
  λ t us c before e middle after d split qb asked.
      exits_after codec world ts t us c before e middle after a h i q d split qb asked,
)

-- The first "shutdown" command, handled while the agent is connected, ends the loop with the turn it
-- falls in, if no "restart" and no other "shutdown" is handled: that turn goes on to its own end, and
-- of the turns that would come after it none is taken.
pub loop_ends :
    (codec : Codec) (world : World) (ts : List Attempt) (t : Attempt) (us : List Attempt) (c : ℕ)
    (before : List Event) (e : Event) (after : List Event) (a : Agent)
    → a.stopped ≡ false
    → a.restarting ≡ false
    → All (IsQuietTurn codec) ts
    → t.dialled ≡ some c
    → t.during ≡ before ++ e ∷ after
    → IsQuiet codec before
    → is_shutdown codec e ≡ true
    → IsQuiet codec after
    → IsQuiet codec t.resting
    → (last : Agent) × (connect_loop codec world (ts ++ t ∷ us) a
        ≡ (suc (length ts), (if eqb (length us) 0 then looping else returned), last))
      × (last.stopped ≡ true)
loop_ends codec world [] t us c before e after a h i q d split qb asked qa qr =
    let g = turn_to codec world t true a qr (
      connected codec world t c false true a d (calm false a h i)
        (λ b k. rw split (run_shutdown codec world before e after b qb asked qa k))) in
    (
      g.result,
      loop_turn codec world t us a g.result h g.is
          ∙ rw (loop_stopped codec world us g.result (first true g.result g.good)) refl,
      first true g.result g.good,
    )
loop_ends codec world (u ∷ ts) t us c before e after a h i q d split qb asked qa qr =
    let flagged : Flag false a = calm false a h i in
    let g =
      turn_to codec world u false a q.0.1 (connect_quiet codec world u false a q.0.0 flagged) in
    let (last, l, k) =
      loop_ends codec world ts t us c before e after g.result (first false g.result g.good)
        (second false g.result g.good) q.1 d split qb asked qa qr in
    (last, loop_turn codec world u (ts ++ t ∷ us) a g.result h g.is ∙ rw l refl, k)
