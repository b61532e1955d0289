-- ===== src/Api/Files.antt =====
-- HandleFileUpload, HandleFileDownload and HandleCommand: orders to single agents. The encoders are
-- those of encoding/json, which do not fail for these payloads. A handler behind the guards has the
-- claims of its user; `crashed` is the panic where it reads claims that are not there.
pub mod Sent
use m_cloud.Base.{
  ℕ, Bool, true, false, ◌||◌, List, [], ◌∷◌, ◌++◌, map, length, Text, codes, ◌==◌, eqb,
  if◌then◌else◌, Option, none, some,
}
use m_cloud.Protocol.{
  Message, FileUpload, FileDownload, Command, new_message, type_file_upload, type_file_download,
  type_command,
}
use m_cloud.Auth.Jwt.{Claims}
use m_cloud.Audit.{Entry, log}
use m_cloud.Http.{Request}
use m_cloud.Ws.{send, send_all}
use m_cloud.Api.{Server}

pub record FileUploadRequest : Type 0 where
  pub agent_ids : List Text
  pub path : Text
  pub content : Text
  pub mode : Text
  pub overwrite : Bool

pub record CommandRequest : Type 0 where
  pub agent_id : Text
  pub command : Text

-- The responses: 400 with a text; 200 for an upload with its ID and the number of agents, for a
-- download with its ID, agent and path, and for a command; and a panic.
pub data Reply : Type 0 where
  refused : Text → Reply
  upload_sent : Text → ℕ → Reply
  download_sent : Text → Text → Text → Reply
  sent : Reply
  crashed : Reply

-- stringsJoin; the first part has no separator before it.
unfoldable pub strings_join : List Text → Text → Text
strings_join [] sep = []
strings_join (s ∷ ss) sep = s ++ rest ss
  where
    rest : List Text → Text
    rest [] = []
    rest (t ∷ ts) = sep ++ t ++ rest ts

-- s.AuditLog.Log(audit.Entry{Action: …, User: claims.Username, AgentID: …, Detail: …}) and the
-- response behind it.
abbrev pub logged : Text → Text → Text → Reply → Option Claims → Request → Server → Reply × Server
logged action agent_id detail reply none r s = (crashed, s)
logged action agent_id detail reply (some claims) r s = (
  reply,
  record s {
    audit_log =
        log r.time
          (record {
            timestamp = none;
            action = action;
            user = claims.username;
            ip = [];
            agent_id = agent_id;
            detail = detail;
          })
          s.audit_log;
  },
)

abbrev pub file_of : FileUploadRequest → FileUpload
file_of req = record {
  path = req.path;
  content = req.content;
  mode = req.mode;
  overwrite = req.overwrite;
}

-- `id` is the UUID that the handler draws.
unfoldable pub handle_file_upload :
    (Text → Option FileUploadRequest)
    → (FileUpload → Text)
    → Text
    → Option Claims
    → Request
    → Server
    → Reply × Server
unfolding strings_join new_message
handle_file_upload decode encode id ctx r s = elim (decode r.body) [
  | none ↦ (refused (codes "invalid request"), s)
  | some req ↦
      if req.path == [] || req.content == [] || eqb (length req.agent_ids) 0
      then (refused (codes "path, content, and agent_ids required"), s)
      else let msg = record (new_message type_file_upload [] (some (encode (file_of req)))) {
        req_id = id;
      } in
        logged (codes "file_upload") (strings_join req.agent_ids (codes ",")) req.path
          (upload_sent id (length req.agent_ids)) ctx r
          (record s {
            gateway =
                send_all (map (λ agent. record msg { agent_id = agent }) req.agent_ids) s.gateway;
          })
]

unfoldable pub handle_file_download :
    (FileDownload → Text) → Text → Request → Server → Reply × Server
unfolding new_message
handle_file_download encode id r s =
    let agent_id = r.query (codes "agent_id") in
    let path = r.query (codes "path") in
    if agent_id == [] || path == [] then (refused (codes "agent_id and path required"), s) else (
      download_sent id agent_id path,
      record s {
        gateway =
            (send
              (record (new_message type_file_download agent_id
                (some (encode (record { path = path })))) { req_id = id })
              s.gateway).0;
      },
    )

unfoldable pub handle_command :
    (Text → Option CommandRequest)
    → (Command → Text)
    → Option Claims
    → Request
    → Server
    → Reply × Server
unfolding new_message
handle_command decode encode ctx r s = elim (decode r.body) [
  | none ↦ (refused (codes "invalid request"), s)
  | some req ↦
      if req.agent_id == [] || req.command == []
      then (refused (codes "agent_id and command required"), s)
      else let msg =
          new_message type_command req.agent_id (some (encode (record { name = req.command }))) in
        logged (codes "remote_command") req.agent_id req.command sent ctx r
          (record s { gateway = (send msg s.gateway).0 })
]
