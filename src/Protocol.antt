-- ===== src/Protocol.antt =====
-- internal/protocol/protocol.go: the envelope, the payloads and the message types.
-- A Go `int`, `int64` is an integer, a `uint64` a number, a `float64` its bit pattern: the program
-- only passes floats on. A JSON text is the bytes that encoding/json makes or reads.
use m_cloud.Base.{ℕ, Bool, Option, none, some, List, [], Text, codes}
use m_cloud.Base.Int.{ℤ, pos}

unfoldable pub type_register : Text
type_register = codes "register"

unfoldable pub type_heartbeat : Text
type_heartbeat = codes "heartbeat"

unfoldable pub type_metrics : Text
type_metrics = codes "metrics"

unfoldable pub type_terminal_input : Text
type_terminal_input = codes "terminal_input"

unfoldable pub type_terminal_output : Text
type_terminal_output = codes "terminal_output"

unfoldable pub type_terminal_resize : Text
type_terminal_resize = codes "terminal_resize"

unfoldable pub type_exec_request : Text
type_exec_request = codes "exec_request"

unfoldable pub type_exec_response : Text
type_exec_response = codes "exec_response"

unfoldable pub type_command : Text
type_command = codes "command"

unfoldable pub type_file_upload : Text
type_file_upload = codes "file_upload"

unfoldable pub type_file_upload_resp : Text
type_file_upload_resp = codes "file_upload_resp"

unfoldable pub type_file_download : Text
type_file_download = codes "file_download"

unfoldable pub type_file_download_resp : Text
type_file_download_resp = codes "file_download_resp"

abbrev pub Float64 : Type 0
Float64 = ℕ

pub record Message : Type 0 where
  pub type : Text
  pub agent_id : Text
  pub req_id : Text
  pub payload : Text

pub record MachineMetrics : Type 0 where
  pub cpu_percent : Float64
  pub mem_percent : Float64
  pub mem_used_mb : ℕ
  pub disk_percent : Float64
  pub load1 : Float64
  pub load5 : Float64
  pub load15 : Float64
  pub net_rx_bytes : ℕ
  pub net_tx_bytes : ℕ
  pub tcp_conns : ℤ
  pub process_count : ℤ
  pub timestamp : ℤ

pub record AgentInfo : Type 0 where
  pub agent_id : Text
  pub hostname : Text
  pub os : Text
  pub distributor_id : Text
  pub description : Text
  pub release : Text
  pub codename : Text
  pub public_ip : Text
  pub location : Text
  pub cpu_model : Text
  pub cpu_cores : ℤ
  pub memory_mb : ℕ
  pub disk_gb : ℕ
  pub disk_used : ℕ
  pub uptime : ℕ
  pub status : Text
  pub last_seen : ℤ
  pub tags : List Text
  pub group : Text
  pub metrics : Option MachineMetrics

-- protocol.AgentInfo{}: Go's zero value.
abbrev pub zero_info : AgentInfo
zero_info = record {
  agent_id = [];
  hostname = [];
  os = [];
  distributor_id = [];
  description = [];
  release = [];
  codename = [];
  public_ip = [];
  location = [];
  cpu_model = [];
  cpu_cores = pos 0;
  memory_mb = 0;
  disk_gb = 0;
  disk_used = 0;
  uptime = 0;
  status = [];
  last_seen = pos 0;
  tags = [];
  group = [];
  metrics = none;
}

pub record TerminalInput : Type 0 where
  pub session_id : Text
  pub typed : Text

pub record TerminalOutput : Type 0 where
  pub session_id : Text
  pub output : Text

pub record TerminalResize : Type 0 where
  pub session_id : Text
  pub cols : ℕ
  pub rows : ℕ

pub record ExecRequest : Type 0 where
  pub script : Text
  pub timeout : ℤ
  pub agent_ids : List Text

pub record ExecResponse : Type 0 where
  pub agent_id : Text
  pub exit_code : ℤ
  pub output : Text
  pub error : Text

-- The arguments of a command are read by no part of the program.
pub record Command : Type 0 where
  pub name : Text

pub record FileUpload : Type 0 where
  pub path : Text
  pub content : Text
  pub mode : Text
  pub overwrite : Bool

pub record FileUploadResp : Type 0 where
  pub agent_id : Text
  pub path : Text
  pub success : Bool
  pub error : Text

pub record FileDownload : Type 0 where
  pub path : Text

pub record FileDownloadResp : Type 0 where
  pub agent_id : Text
  pub path : Text
  pub content : Text
  pub size : ℕ
  pub success : Bool
  pub error : Text

-- NewMessage, with what json.Marshal made of the payload: `none` is its error, on which the source
-- returns Message{}.
unfoldable pub new_message : Text → Text → Option Text → Message
new_message type id none = record { type = []; agent_id = []; req_id = []; payload = [] }
new_message type id (some raw) = record { type = type; agent_id = id; req_id = []; payload = raw }
