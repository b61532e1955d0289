-- ===== src/Agent/Client/Races.antt =====
-- handleTerminalInput step by step. It looks the session up and, if it is not there, makes a shell and
-- files it, with the lock given up in between; each message is handled in a goroutine of its own, and
-- a schedule says which of two goes on. Every shell starts.
pub mod Steps
pub mod Outcome
use m_cloud.Base.{ℕ, Bool, true, false, List, [], ◌∷◌, ◌++◌, Text, Option, none, some, length}
use m_cloud.Dict
use m_cloud.Agent.Terminal.{new_session}
use m_cloud.Agent.Client.{Agent, deliver}

-- Where the handler stands: before the look-up, before the shell is made, with the shell at a place of
-- `shells` but not filed, with the session in hand, at its
-- end, or at its end without a session.
pub data Task : Type 0 where
  looking opening given_up : Task
  filing writing finished : ℕ → Task

unfoldable pub advance : Text → Text → Task → Agent → Task × Agent
unfolding new_session deliver
advance k t looking a = elim (Dict.get a.sessions k) [
  | some place ↦ (writing place, a)
  | none ↦ (opening, a)
]
advance k t opening a = elim (new_session true k 80 24) [
  | none ↦ (given_up, a)
  | some s ↦ (filing (length a.shells), record a { shells = a.shells ++ s ∷ [] })
]
advance k t (filing place) a = (writing place, record a { sessions = Dict.put a.sessions k place })
advance k t (writing place) a =
    (finished place, deliver place (record { session_id = k; typed = t }) a)
advance k t (finished place) a = (finished place, a)
advance k t given_up a = (given_up, a)

-- Two handlers for one session and the agent, after a schedule: `true` is a step of the first.
unfoldable pub play : Text → Text → Text → List Bool → Task → Task → Agent → Task × Task × Agent
unfolding advance
play k t u [] x y a = (x, y, a)
play k t u (true ∷ s) x y a = let (x', a') = advance k t x a in play k t u s x' y a'
play k t u (false ∷ s) x y a = let (y', a') = advance k u y a in play k t u s x y' a'
