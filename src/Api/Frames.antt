-- ===== src/Api/Frames.antt =====
-- HandleGatewayWS: the connection of the gateway, and what the master does with each of its frames. A
-- frame is the message that json.Unmarshal reads from it, or `none`.
pub mod Confined
pub mod Replaced
use m_cloud.Base.{
  ℕ, Bool, true, false, not, List, [], ◌∷◌, Text, codes, ◌==◌, if◌then◌else◌, Option, none, some,
}
use m_cloud.Protocol.{
  Message, AgentInfo, MachineMetrics, TerminalOutput, ExecResponse, FileUploadResp,
  FileDownloadResp, zero_info, type_register, type_terminal_output, type_exec_response,
  type_file_upload_resp, type_metrics, type_file_download_resp, type_heartbeat,
}
use m_cloud.Store.{online, update_machine, update_metrics}
use m_cloud.History.{update_result}
use m_cloud.Http.{Request}
use m_cloud.Http.Origin.{check_origin}
use m_cloud.Ws.{
  machine_update, terminal_output, exec_response, file_upload_resp, metrics_push,
  file_download_resp, broadcast, set_conn, clear_conn,
}
use m_cloud.Api.{Server}

-- msg.Decode for each of the payloads.
pub record Decoders : Type 0 where
  pub info : Text → Option AgentInfo
  pub output : Text → Option TerminalOutput
  pub response : Text → Option ExecResponse
  pub upload : Text → Option FileUploadResp
  pub metrics : Text → Option MachineMetrics
  pub download : Text → Option FileDownloadResp

module _ (decode : Decoders) where
  unfoldable pub on_register : ℕ → Message → Server → Server
  on_register now msg s = elim (decode.info msg.payload) [
    | none ↦ s
    | some sent ↦
        let info = record sent { agent_id = msg.agent_id } in
        record s {
          store = update_machine now info s.store;
          hub = broadcast (machine_update info) s.hub;
        }
  ]

  unfoldable pub on_terminal_output : Message → Server → Server
  on_terminal_output msg s = elim (decode.output msg.payload) [
    | none ↦ s
    | some output ↦ record s { hub = broadcast (terminal_output msg.agent_id output) s.hub }
  ]

  unfoldable pub on_exec_response : ℕ → Message → Server → Server
  on_exec_response now msg s = elim (decode.response msg.payload) [
    | none ↦ s
    | some resp ↦ record s {
      history =
          update_result now msg.req_id
            (record {
              agent_id = msg.agent_id;
              exit_code = resp.exit_code;
              output = resp.output;
              error = resp.error;
              finished = true;
            })
            s.history;
      hub = broadcast (exec_response msg.req_id msg.agent_id resp) s.hub;
    }
  ]

  unfoldable pub on_file_upload_resp : Message → Server → Server
  on_file_upload_resp msg s = elim (decode.upload msg.payload) [
    | none ↦ s
    | some resp ↦ record s { hub = broadcast (file_upload_resp msg.req_id msg.agent_id resp) s.hub }
  ]

  unfoldable pub on_metrics : ℕ → Message → Server → Server
  on_metrics now msg s = elim (decode.metrics msg.payload) [
    | none ↦ s
    | some metrics ↦ record s {
      store = update_metrics now msg.agent_id metrics s.store;
      hub = broadcast (metrics_push msg.agent_id metrics) s.hub;
    }
  ]

  unfoldable pub on_file_download_resp : Message → Server → Server
  on_file_download_resp msg s = elim (decode.download msg.payload) [
    | none ↦ s
    | some resp ↦ record s {
      hub = broadcast (file_download_resp msg.req_id msg.agent_id resp) s.hub;
    }
  ]

  unfoldable pub on_heartbeat : ℕ → Message → Server → Server
  on_heartbeat now msg s = record s {
    store =
        update_machine now (record zero_info { agent_id = msg.agent_id; status = online }) s.store;
  }

  -- The body of the loop, for a frame that is read at the time `now`.
  unfoldable pub gateway_frame : ℕ → Option Message → Server → Server
  gateway_frame now none s = s
  gateway_frame now (some msg) s =
      if msg.type == type_register
      then on_register now msg s
      else if msg.type == type_terminal_output
      then on_terminal_output msg s
      else if msg.type == type_exec_response
      then on_exec_response now msg s
      else if msg.type == type_file_upload_resp
      then on_file_upload_resp msg s
      else if msg.type == type_metrics
      then on_metrics now msg s
      else if msg.type == type_file_download_resp
      then on_file_download_resp msg s
      else if msg.type == type_heartbeat
      then on_heartbeat now msg s
      else s

-- The handler up to its loop; the upgrade asks for nothing but the origin.
unfoldable pub gateway_connects : Request → ℕ → Server → Server
gateway_connects r conn s =
    if not (check_origin r) then s else record s { gateway = set_conn conn s.gateway }

-- The deferred calls, after a read error.
unfoldable pub gateway_lost : ℕ → Server → Server
gateway_lost conn s =
    let g = clear_conn s.gateway in record s { gateway = record g { closed = conn ∷ g.closed } }
