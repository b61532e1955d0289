-- ===== src/Agent/Client.antt =====
-- cmd/agent/main.go: the agent and what it does with each message. A connection is a number; `sent`
-- is what was written, oldest first, and `closed` the connections on which Close was called, to which
-- a write fails; any other write is taken to go through. `shells` holds every terminal session made
-- so far, and `sessions` maps the ID of a session to its place there. `calls` are the changes of
-- files. `restarting` is whether a "restart" has started its timer. The end of the process, by a
-- panic or by os.Exit, is `none`. Each handler runs by itself; Client/Races splits
-- the one that can be interrupted.
pub mod Loop
pub mod Invariant
pub mod Answers
pub mod Responses
pub mod Sessions
pub mod Races
pub mod Stopping
pub mod Restarting
pub mod Turn
pub mod Turns
pub mod Dial
use m_cloud.Base.{
  ℕ, Bool, true, false, List, [], ◌∷◌, ◌++◌, Text, codes, ◌==◌, if◌then◌else◌, Option, none, some,
  length, modify_at,
}
use m_cloud.Base.Int.{ℤ}
use m_cloud.Dict
use m_cloud.Dict.{Dict}
use m_cloud.Protocol.{
  Message, AgentInfo, MachineMetrics, TerminalInput, TerminalOutput, TerminalResize, ExecRequest,
  ExecResponse, Command, FileUpload, FileUploadResp, FileDownload, FileDownloadResp, new_message,
  type_register, type_metrics, type_terminal_input, type_terminal_output, type_terminal_resize,
  type_exec_request, type_exec_response, type_command, type_file_upload, type_file_upload_resp,
  type_file_download, type_file_download_resp,
}
use m_cloud.Gateway.Proxy.{is_closed}
use m_cloud.Agent.Files.{Call, Os, handle_file_upload, handle_file_download}
use m_cloud.Agent.Executor.{Process, run_script}
use m_cloud.Agent.Terminal.{Session, new_session, write_input, resize, close}

pub record Agent : Type 0 where
  pub id : Text
  pub gateway : Text
  pub token : Text
  pub conn : Option ℕ
  pub closed : List ℕ
  pub sessions : Dict ℕ
  pub shells : List Session
  pub stopped : Bool
  pub restarting : Bool
  pub sent : List (ℕ × Message)
  pub calls : List Call

-- json.Unmarshal for each payload, and json.Marshal, which fails for a float that is not finite.
pub record Codec : Type 0 where
  pub terminal_input : Text → Option TerminalInput
  pub terminal_resize : Text → Option TerminalResize
  pub exec_request : Text → Option ExecRequest
  pub file_upload : Text → Option FileUpload
  pub file_download : Text → Option FileDownload
  pub command : Text → Option Command
  pub info : AgentInfo → Text
  pub metrics : MachineMetrics → Option Text
  pub terminal_output : TerminalOutput → Text
  pub exec_response : ExecResponse → Text
  pub upload_resp : FileUploadResp → Text
  pub download_resp : FileDownloadResp → Text

unfoldable pub send : Message → Agent → Agent
send msg a = elim a.conn [
  | none ↦ a
  | some c ↦ if is_closed c a.closed then a else record a { sent = a.sent ++ (c, msg) ∷ [] }
]

-- A message that answers a request.
unfoldable pub answer : Text → Text → Text → Agent → Agent
unfolding send new_message
answer type req_id payload a =
    send (record (new_message type a.id (some payload)) { req_id = req_id }) a

abbrev pub at_shell : ℕ → (Session → Session) → Agent → Agent
at_shell place f a = record a { shells = modify_at place f a.shells }

-- The part of handleTerminalInput that makes a session; `started` is whether the shell starts.
unfoldable pub open_session : Bool → Text → Agent → Option (ℕ × Agent)
unfolding new_session
open_session started id a = elim (new_session started id 80 24) [
  | none ↦ none
  | some s ↦ some (
    length a.shells,
    record a { shells = a.shells ++ s ∷ []; sessions = Dict.put a.sessions id (length a.shells) },
  )
]

-- The end of handleTerminalInput, with the session in hand: byte 4 alone, that is control-D, ends it.
unfoldable pub deliver : ℕ → TerminalInput → Agent → Agent
unfolding write_input close
deliver place input a =
    if input.typed == 4 ∷ []
    then record a {
      shells = modify_at place close a.shells;
      sessions = Dict.remove a.sessions input.session_id;
    }
    else at_shell place (write_input input.typed) a

unfoldable pub handle_terminal_input : Bool → TerminalInput → Agent → Agent
unfolding open_session deliver
handle_terminal_input started input a = elim (Dict.get a.sessions input.session_id) [
  | some place ↦ deliver place input a
  | none ↦ elim (open_session started input.session_id a) [
    | none ↦ a
    | some made ↦ deliver made.0 input made.1
  ]
]

unfoldable pub handle_terminal_resize : TerminalResize → Agent → Agent
unfolding resize
handle_terminal_resize r a = elim (Dict.get a.sessions r.session_id) [
  | none ↦ a
  | some place ↦ at_shell place (resize r.cols r.rows) a
]

-- "restart" starts a timer that ends the process (`exit_timer` of Client/Loop). "shutdown" closes
-- stopCh, which panics the second time. "reconnect" closes the connection, so that the loop that reads
-- it ends.
unfoldable pub handle_command : Command → Agent → Option Agent
handle_command cmd a =
    if cmd.name == codes "restart"
    then some (record a { restarting = true })
    else if cmd.name == codes "shutdown"
    then if a.stopped then none else some (record a { stopped = true })
    else if cmd.name == codes "reconnect"
    then elim a.conn [ none ↦ some a | some c ↦ some (record a { closed = c ∷ a.closed }) ]
    else some a

module _ (codec : Codec) where
  unfoldable pub register : AgentInfo → Agent → Agent
  unfolding send new_message
  register info a = send (new_message type_register a.id (some (codec.info info))) a

  unfoldable pub push_metrics : ℤ → MachineMetrics → Agent → Agent
  unfolding send new_message
  push_metrics now metrics a =
      send (new_message type_metrics a.id (codec.metrics (record metrics { timestamp = now }))) a

  unfoldable pub handle_exec_request :
      (Text → Option ℤ → Process) → Text → ExecRequest → Agent → Agent
  unfolding answer run_script
  handle_exec_request system req_id req a =
      let result = (run_script system req.script req.timeout false).0 in
      answer type_exec_response req_id
        (codec.exec_response (record {
          agent_id = a.id;
          exit_code = result.exit_code;
          output = result.output;
          error = result.error;
        }))
        a

  -- The handlers of Agent/Files, with the response sent.
  unfoldable pub upload : Os → Text → FileUpload → Agent → Agent
  unfolding answer handle_file_upload
  upload os req_id req a =
      let done = handle_file_upload os a.id req a.calls in
      answer type_file_upload_resp req_id (codec.upload_resp done.0) (record a { calls = done.1 })

  unfoldable pub download : Os → Text → FileDownload → Agent → Agent
  unfolding answer handle_file_download
  download os req_id req a =
      answer type_file_download_resp req_id
        (codec.download_resp (handle_file_download os a.id req.path a.calls)) a

-- The operating system below the agent.
pub record World : Type 0 where
  pub os : Os
  pub run : Text → Option ℤ → Process

module _ (codec : Codec) (world : World) (started : Bool) where
  unfoldable pub handle_message : Message → Agent → Option Agent
  unfolding handle_terminal_input handle_terminal_resize handle_command handle_exec_request upload
      download
  handle_message msg a =
      if msg.type == type_terminal_input
      then elim (codec.terminal_input msg.payload) [
        | none ↦ some a
        | some input ↦ some (handle_terminal_input started input a)
      ]
      else if msg.type == type_terminal_resize
      then elim (codec.terminal_resize msg.payload) [
        | none ↦ some a
        | some r ↦ some (handle_terminal_resize r a)
      ]
      else if msg.type == type_exec_request
      then elim (codec.exec_request msg.payload) [
        | none ↦ some a
        | some req ↦ some (handle_exec_request codec world.run msg.req_id req a)
      ]
      else if msg.type == type_file_upload
      then elim (codec.file_upload msg.payload) [
        | none ↦ some a
        | some req ↦ some (upload codec world.os msg.req_id req a)
      ]
      else if msg.type == type_file_download
      then elim (codec.file_download msg.payload) [
        | none ↦ some a
        | some req ↦ some (download codec world.os msg.req_id req a)
      ]
      else if msg.type == type_command
      then elim (codec.command msg.payload) [ none ↦ some a | some cmd ↦ handle_command cmd a ]
      else some a
