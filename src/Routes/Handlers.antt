-- ===== src/Routes/Handlers.antt =====
-- The handler behind each entry of the table of routes: api.New and the methods that main names. The
-- two sockets stand with what their handlers do up to the loop, and the static files with a response
-- that only names the path.
use m_cloud.Base.{ℕ, Bool, List, Text, Option}
use m_cloud.Protocol.{AgentInfo, ExecRequest, FileUpload, FileDownload, Command}
use m_cloud.History.{ExecRecord}
use m_cloud.Audit.{Entry}
use m_cloud.Http.{Handler}
use m_cloud.Http.Origin.{check_origin}
use m_cloud.Api.{Server}
use m_cloud.Api.Login
use m_cloud.Api.Login.{handle_login}
use m_cloud.Api.Batch
use m_cloud.Api.Batch.{handle_batch_exec}
use m_cloud.Api.Listing.{handle_exec_history}
use m_cloud.Api.Machines
use m_cloud.Api.Machines.{
  handle_machines, handle_machine_detail, handle_machine_tags, handle_machine_group, handle_groups,
}
use m_cloud.Api.Dashboard.{Decision, dashboard_connects}
use m_cloud.Api.Frames.{gateway_connects}
use m_cloud.Api.Files
use m_cloud.Api.Files.{
  FileUploadRequest, CommandRequest, handle_file_upload, handle_file_download, handle_command,
}
use m_cloud.Api.Account
use m_cloud.Api.Account.{handle_setup_totp}
use m_cloud.Api.Status.{Status, Detail, handle_status, handle_audit_log, handle_exec_detail}
use m_cloud.Api.Templates.{ScriptTemplate, handle_script_templates}
use m_cloud.Routes.{
  App, Config, Headed, Endpoint, serve, login, status, dashboard_ws, gateway_ws, machines,
  machine_detail, groups, machine_tags, machine_group, exec_history, exec_detail, batch_exec,
  script_templates, audit_log, file_upload, file_download, command, setup_totp, static_files,
}

-- What the server answers: an error of a guard, or the response of a handler.
pub data Response : Type 0 where
  failed : ℕ → Text → Response
  login_reply : Login.Reply → Response
  status_page : Status → Response
  dashboard_socket : Decision → Response
  gateway_socket : Bool → Response
  machine_list : List AgentInfo → Response
  machine_reply : Machines.Reply → Response
  run_list : List ExecRecord → Response
  run_detail : Detail → Response
  batch_reply : Batch.Reply → Response
  templates : List ScriptTemplate → Response
  entries : List Entry → Response
  file_reply : Files.Reply → Response
  account_reply : Account.Reply → Response
  file : Text → Response

-- What the handlers take from libraries: the readers and writers of encoding/json, base32, the random
-- bytes of a secret, and the UUID and the new connection of a request.
pub record Given : Type 0 where
  pub logins : Login.Libraries
  pub tags_of : Text → Option (List Text)
  pub run_of : Text → Option ExecRequest
  pub run_text : ExecRequest → Text
  pub upload_of : Text → Option FileUploadRequest
  pub upload_text : FileUpload → Text
  pub download_text : FileDownload → Text
  pub command_of : Text → Option CommandRequest
  pub command_text : Command → Text
  pub base32_encode : Text → Text
  pub random : Text
  pub uuid : Text
  pub conn : ℕ

-- A handler of the server alone, with its response.
abbrev pub on_server : {A : Type 0} → (A → Response) → (Server → A × Server) → App → Response × App
on_server wrap f s = (wrap (f s.server).0, record s { server = (f s.server).1 })

unfoldable pub endpoints : Given → Endpoint → Handler App Response
endpoints lib login ctx r s = on_server login_reply (handle_login lib.logins r) s
endpoints lib status ctx r s = (status_page (handle_status s.server), s)
endpoints lib dashboard_ws ctx r s =
    on_server dashboard_socket (dashboard_connects lib.logins.jose r lib.uuid lib.conn) s
endpoints lib gateway_ws ctx r s =
    on_server gateway_socket (λ server. (check_origin r, gateway_connects r lib.conn server)) s
endpoints lib machines ctx r s = (machine_list (handle_machines r s.server), s)
endpoints lib machine_detail ctx r s = (machine_reply (handle_machine_detail r s.server), s)
endpoints lib groups ctx r s = (machine_reply (handle_groups s.server), s)
endpoints lib machine_tags ctx r s =
    on_server machine_reply (handle_machine_tags lib.tags_of ctx r) s
endpoints lib machine_group ctx r s = on_server machine_reply (handle_machine_group r) s
endpoints lib exec_history ctx r s = (run_list (handle_exec_history r s.server), s)
endpoints lib exec_detail ctx r s = (run_detail (handle_exec_detail r s.server), s)
endpoints lib batch_exec ctx r s =
    on_server batch_reply (handle_batch_exec lib.run_of lib.run_text lib.uuid ctx r) s
endpoints lib script_templates ctx r s = (templates handle_script_templates, s)
endpoints lib audit_log ctx r s = (entries (handle_audit_log r s.server), s)
endpoints lib file_upload ctx r s =
    on_server file_reply (handle_file_upload lib.upload_of lib.upload_text lib.uuid ctx r) s
endpoints lib file_download ctx r s =
    on_server file_reply (handle_file_download lib.download_text lib.uuid r) s
endpoints lib command ctx r s =
    on_server file_reply (handle_command lib.command_of lib.command_text ctx r) s
endpoints lib setup_totp ctx r s =
    on_server account_reply (handle_setup_totp lib.base32_encode lib.random ctx r) s
endpoints lib static_files ctx r s = (file r.path, s)

-- The whole server: every request to it, with the handlers in their places.
unfoldable pub serve_all : Given → Config → Handler App (Headed Response)
serve_all lib config = serve failed config (endpoints lib)
