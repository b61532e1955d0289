-- ===== src/Tests/Agents.antt =====
-- An agent web1 with an empty disk, and a shell that says "up" and warns of something.
use m_cloud.Agent.Client.Stopping.{IsQuiet, is_restart}
use m_cloud.Base.{
  ◌≡◌, ◌≢◌, ℕ, suc, refl, true, false, [], ◌∷◌, ◌++◌, length, Text, codes, ◌==◌, eqb, if◌then◌else◌,
  none, some, get_elem?, ◌⊎◌, not, ◌+◌, arith, List,
}
use m_cloud.Base.Int.{pos}
use m_cloud.Dict
use m_cloud.Dict.{get-empty, get-put}
use m_cloud.Protocol.{
  Message, ExecRequest, zero_info, type_exec_request, type_exec_response, type_command,
}
use m_cloud.Http.{Request}
use m_cloud.Gateway.Proxy
use m_cloud.Gateway.Proxy.{is_closed}
use m_cloud.Gateway.Server.{Gateway, agent as read_for}
use m_cloud.Agent.Executor.{Process, stdout, stderr, run_script, deadline}
use m_cloud.Agent.Executor.Streamed.{outs, errors, writes, code_of, error_of, run_script_lem}
use m_cloud.Agent.Terminal.{Session, failed}
use m_cloud.Agent.Client.{Agent, Codec, World}
use m_cloud.Agent.Client.Loop.{
  frame, heartbeat_tick, Attempt, returned, looping, connect_loop, stream, Event, exit_timer, ended,
}
use m_cloud.Agent.Client.Invariant.{Inv}
use m_cloud.Agent.Client.Invariant.Runs.{connect_loop-Inv}
use m_cloud.Agent.Client.Answers.{IsAnswered, handle_message-IsAnswered}
use m_cloud.Agent.Client.Responses.{response_to, exec_answered}
use m_cloud.Agent.Client.Sessions.{type_all, type_all_lem, dead_session_lem}
use m_cloud.Agent.Client.Races.{looking, finished, play}
use m_cloud.Agent.Client.Races.Steps.{shell_with}
use m_cloud.Agent.Client.Races.Outcome.{two_shells_lem}
use m_cloud.Agent.Client.Turns.{loop_goes_on, loop_ends}
use m_cloud.Tests.Coding.{encode_request, decode_request, request_read, encode_response}
use m_cloud.Tests.Uploads.{empty_disk}
use m_cloud.Tests.Web.{visit}

abbrev pub agent : Agent
agent = record {
  id = codes "web1";
  gateway = codes "ws://gw/connect";
  token = codes "t";
  conn = some 3;
  closed = [];
  sessions = Dict.empty;
  shells = [];
  stopped = false;
  restarting = false;
  sent = [];
  calls = [];
}

-- Text is typed into one session, and a command is named by its payload.
abbrev pub codec : Codec
codec = record {
  terminal_input = λ p. some (record { session_id = codes "s"; typed = p });
  terminal_resize = λ p. none;
  exec_request = decode_request;
  file_upload = λ p. none;
  file_download = λ p. none;
  command = λ p. some (record { name = p });
  info = λ i. [];
  metrics = λ m. none;
  terminal_output = λ o. o.output;
  exec_response = encode_response;
  upload_resp = λ x. [];
  download_resp = λ x. [];
}

abbrev warns : Process
warns = record { chunks = stdout (codes "up") ∷ stderr (codes "hm") ∷ []; ended = none }

abbrev pub world : World
world = record { os = empty_disk; run = λ script limit. warns }

abbrev uptime : ExecRequest
uptime = record { script = codes "uptime"; timeout = pos 60; agent_ids = [] }

abbrev uptime_message : Message
uptime_message = record {
  type = type_exec_request;
  agent_id = codes "web1";
  req_id = codes "r1";
  payload = encode_request uptime;
}

abbrev shutdown_message : Message
shutdown_message = record {
  type = type_command;
  agent_id = codes "web1";
  req_id = [];
  payload = codes "shutdown";
}

abbrev refused_dial : Attempt
refused_dial = record { dialled = none; info = zero_info; during = []; resting = [] }

-- Connected, told to run a script and to shut down, and beating once more.
abbrev last_turn : Attempt
last_turn = record {
  dialled = some 4;
  info = zero_info;
  during =
      frame true (some uptime_message)
      ∷ frame true (some shutdown_message)
      ∷ heartbeat_tick zero_info
      ∷ [];
  resting = [];
}

agent-Inv : Inv (codes "web1") agent
agent-Inv = record {
  same = refl;
  own = tt;
  named = λ k p e. absurd (cc (e, get-empty {V = ℕ} k));
  killed = tt;
  inside = tt;
}

connect_loop-Inv_example :
    Inv (codes "web1") (connect_loop codec world (last_turn ∷ refused_dial ∷ []) agent).2
connect_loop-Inv_example =
    connect_loop-Inv codec world (last_turn ∷ refused_dial ∷ []) (codes "web1") agent agent-Inv

loop_goes_on_example :
    ((last : Agent) × (connect_loop codec world (refused_dial ∷ []) agent
        ≡ (length (refused_dial ∷ []), looping, last))
      × (last.stopped ≡ false))
    × ((t : Attempt) (us : List Attempt) (c : ℕ) (before : List Event) (e : Event)
          (middle after : List Event)
        → t.dialled ≡ some c
        → t.during ≡ before ++ e ∷ (middle ++ exit_timer ∷ after)
        → IsQuiet codec before
        → is_restart codec e ≡ true
        → (last : Agent) × (connect_loop codec world ((refused_dial ∷ []) ++ t ∷ us) agent
            ≡ (suc (length (refused_dial ∷ [])), ended, last)))
loop_goes_on_example = loop_goes_on codec world (refused_dial ∷ []) agent refl refl ((tt, tt), tt)

loop_ends_example :
    (last : Agent) × (connect_loop codec world
        ((refused_dial ∷ []) ++ last_turn ∷ (refused_dial ∷ []))
        agent
      ≡ (
        suc (length (refused_dial ∷ [])),
        (if eqb (length (refused_dial ∷ [])) 0 then looping else returned),
        last,
      ))
    × (last.stopped ≡ true)
unfolding type_exec_request type_command ◌==◌
loop_ends_example =
    loop_ends codec world (refused_dial ∷ []) last_turn (refused_dial ∷ []) 4
      (frame true (some uptime_message) ∷ []) (frame true (some shutdown_message))
      (heartbeat_tick zero_info ∷ []) agent refl refl ((tt, tt), tt) refl refl ((refl, refl), tt)
      refl ((refl, refl), tt) tt

abbrev answered : Agent
answered = record agent {
  sent =
      (
        3,
        record {
          type = type_exec_response;
          agent_id = codes "web1";
          req_id = codes "r1";
          payload = encode_response (response_to world (codes "web1") uptime);
        },
      )
      ∷ [];
}

handle_message-IsAnswered_example : IsAnswered uptime_message agent answered
unfolding is_closed
handle_message-IsAnswered_example =
    handle_message-IsAnswered codec world true uptime_message agent answered (
      exec_answered codec world true uptime_message uptime agent 3 refl (request_read uptime) refl
        refl)

type_all_lem_example :
    (Dict.get (type_all (codes "s") ((codes "ls") ∷ (codes "pwd" ∷ [])) agent).sessions (codes "s")
      ≡ some (length agent.shells))
    × (get_elem?
          (type_all (codes "s") ((codes "ls") ∷ (codes "pwd" ∷ [])) agent).shells
          (length agent.shells)
        ≡ some (record {
          id = (codes "s");
          cols = 80;
          rows = 24;
          typed = (codes "ls") ∷ (codes "pwd" ∷ []);
          closed = false;
          kills = 0;
        }))
unfolding ◌==◌
type_all_lem_example =
    type_all_lem (codes "s") (codes "ls") (codes "pwd" ∷ []) agent (get-empty (codes "s"))
      (refl, (refl, tt))

abbrev pub shell : Session
shell = record { id = codes "s"; cols = 80; rows = 24; typed = []; closed = false; kills = 0 }

abbrev pub with_shell : Agent
with_shell = record agent { sessions = Dict.put Dict.empty (codes "s") 0; shells = shell ∷ [] }

dead_session_lem_example :
    type_all (codes "s") (codes "ls" ∷ []) (stream codec world 0 failed with_shell)
    ≡ stream codec world 0 failed with_shell
unfolding ◌==◌
dead_session_lem_example =
    dead_session_lem codec world (codes "s") (codes "ls" ∷ []) 0 shell with_shell
      (simp get-put refl) refl (refl, tt)

two_shells_lem_example :
    let (x, y, b) =
      play
        (codes "s")
        (codes "ls")
        (codes "pwd")
        (true ∷ not true ∷ (true ∷ false ∷ false ∷ true ∷ true ∷ false ∷ []))
        looking
        looking
        agent in
    (p : ℕ) × (q : ℕ) × (x ≡ finished p)
    × (y ≡ finished q)
    × (p ≢ q)
    × (length b.shells ≡ length agent.shells + 2)
    × (get_elem? b.shells p ≡ some (shell_with (codes "s") ((codes "ls") ∷ [])))
    × (get_elem? b.shells q ≡ some (shell_with (codes "s") ((codes "pwd") ∷ [])))
    × ((Dict.get b.sessions (codes "s") ≡ some p) × ((j : Text) → Dict.get b.sessions j ≢ some q)
        ⊎ (Dict.get b.sessions (codes "s") ≡ some q)
          × ((j : Text) → Dict.get b.sessions j ≢ some p))
unfolding ◌==◌
two_shells_lem_example =
    two_shells_lem (codes "web1") (codes "s") (codes "ls") (codes "pwd") true
      (true ∷ false ∷ false ∷ true ∷ true ∷ false ∷ []) agent agent-Inv (get-empty (codes "s")) refl
      refl (omega arith) (omega arith)

run_script_lem_example :
    let process = world.run (codes "uptime") (deadline (pos 60)) in
    run_script world.run (codes "uptime") (pos 60) true ≡ (
      record {
        exit_code = code_of process.ended;
        output = outs process.chunks;
        error = error_of process.ended (errors process.chunks);
      },
      if true then writes process.chunks else [],
    )
run_script_lem_example = run_script_lem world.run (codes "uptime") (pos 60) true

-- The dialler of a browser, which says where it comes from.
abbrev same_origin : Request
same_origin = record visit {
  host = codes "gw";
  header = λ k. if k == codes "Origin" then codes "http://gw" else [];
}

abbrev empty_gateway : Gateway
empty_gateway = record { manager = Proxy.init; readers = []; admitted = [] }
