-- ===== src/Api/Frames/Confined.antt =====
-- What a frame of the gateway can change, and what it does to the machine it is from.
use m_cloud.Base.{
  ℕ, ◌≡◌, ◌≢◌, refl, inl, inr, Bool, true, false, arith, Text, ==_iff, if◌then◌else◌, some,
  Option-cases,
}
use m_cloud.Protocol.{Message, AgentInfo, MachineMetrics}
use m_cloud.Store.{Store, get_machine, update_machine, update_metrics}
use m_cloud.Store.Updates.{get-update_machine, get-update_metrics}
use m_cloud.History.{ExecResult, ExecHistory, get, update_result}
use m_cloud.History.Results.{get-update_result}
use m_cloud.Ws.{Hub}
use m_cloud.Api.{Server}
use m_cloud.Api.Frames.{
  Decoders, on_register, on_terminal_output, on_exec_response, on_file_upload_resp, on_metrics,
  on_file_download_resp, on_heartbeat, gateway_frame,
}

-- The step from `s` to `t` changes no machine but the one the message is from, no run but the one
-- that the message names, and neither accounts nor the audit log nor the connection.
pub record IsConfined (msg : Message) (s t : Server) : Type 0 where
  pub machines : (j : Text) → msg.agent_id ≢ j → get_machine j t.store ≡ get_machine j s.store
  pub runs : (id : Text) → msg.req_id ≢ id → get id t.history ≡ get id s.history
  pub users : t.users ≡ s.users
  pub audit_log : t.audit_log ≡ s.audit_log
  pub gateway : t.gateway ≡ s.gateway

other_machine :
    (now : ℕ) (info : AgentInfo) (s : Store) (j : Text)
    → info.agent_id ≢ j
    → get_machine j (update_machine now info s) ≡ get_machine j s
other_machine now info s j ne =
    ground (arith, get-update_machine s now info j, ==_iff info.agent_id j)

other_metrics :
    (now : ℕ) (id : Text) (x : MachineMetrics) (s : Store) (j : Text)
    → id ≢ j
    → get_machine j (update_metrics now id x s) ≡ get_machine j s
other_metrics now id x s j ne = ground (arith, get-update_metrics s now id j x, ==_iff id j)

other_run :
    (now : ℕ) (id : Text) (x : ExecResult) (h : ExecHistory) (j : Text)
    → id ≢ j
    → get j (update_result now id x h) ≡ get j h
other_run now id x h j ne = ground (arith, get-update_result now id x j h, ==_iff id j)

same-IsConfined : (msg : Message) (s : Server) → IsConfined msg s s
same-IsConfined msg s = record {
  machines = λ j ne. refl;
  runs = λ id ne. refl;
  users = refl;
  audit_log = refl;
  gateway = refl;
}

if-IsConfined :
    (msg : Message) (s t u : Server) (b : Bool)
    → IsConfined msg s t
    → IsConfined msg s u
    → IsConfined msg s (if b then t else u)
if-IsConfined msg s t u true h k = h
if-IsConfined msg s t u false h k = k

module _ (decode : Decoders) (now : ℕ) (msg : Message) (s : Server) where
  on_register-IsConfined : IsConfined msg s (on_register decode now msg s)
  unfolding on_register
  on_register-IsConfined = elim (Option-cases (decode.info msg.payload)) [
    | inl e ↦ rw (e, on_register) (same-IsConfined msg s)
    | inr (sent, e) ↦
        rw (e, on_register)
          (record {
            machines = other_machine now (record sent { agent_id = msg.agent_id }) s.store;
            runs = λ id ne. refl;
            users = refl;
            audit_log = refl;
            gateway = refl;
          })
  ]

  on_heartbeat-IsConfined : IsConfined msg s (on_heartbeat decode now msg s)
  unfolding on_heartbeat
  on_heartbeat-IsConfined = record {
    machines = λ j ne. other_machine now _ s.store j ne;
    runs = λ id ne. refl;
    users = refl;
    audit_log = refl;
    gateway = refl;
  }

  on_metrics-IsConfined : IsConfined msg s (on_metrics decode now msg s)
  unfolding on_metrics
  on_metrics-IsConfined = elim (Option-cases (decode.metrics msg.payload)) [
    | inl e ↦ rw (e, on_metrics) (same-IsConfined msg s)
    | inr (x, e) ↦
        rw (e, on_metrics)
          (record {
            machines = other_metrics now msg.agent_id x s.store;
            runs = λ id ne. refl;
            users = refl;
            audit_log = refl;
            gateway = refl;
          })
  ]

  on_exec_response-IsConfined : IsConfined msg s (on_exec_response decode now msg s)
  unfolding on_exec_response
  on_exec_response-IsConfined = elim (Option-cases (decode.response msg.payload)) [
    | inl e ↦ rw (e, on_exec_response) (same-IsConfined msg s)
    | inr (resp, e) ↦
        rw (e, on_exec_response)
          (record {
            machines = λ j ne. refl;
            runs = λ id ne. other_run now msg.req_id _ s.history id ne;
            users = refl;
            audit_log = refl;
            gateway = refl;
          })
  ]

  hub-IsConfined : (h : Hub) → IsConfined msg s (record s { hub = h })
  hub-IsConfined h = record {
    machines = λ j ne. refl;
    runs = λ id ne. refl;
    users = refl;
    audit_log = refl;
    gateway = refl;
  }

  on_terminal_output-IsConfined : IsConfined msg s (on_terminal_output decode msg s)
  unfolding on_terminal_output
  on_terminal_output-IsConfined = elim (Option-cases (decode.output msg.payload)) [
    | inl e ↦ rw (e, on_terminal_output) (same-IsConfined msg s)
    | inr (output, e) ↦ rw (e, on_terminal_output) (hub-IsConfined _)
  ]

  on_file_upload_resp-IsConfined : IsConfined msg s (on_file_upload_resp decode msg s)
  unfolding on_file_upload_resp
  on_file_upload_resp-IsConfined = elim (Option-cases (decode.upload msg.payload)) [
    | inl e ↦ rw (e, on_file_upload_resp) (same-IsConfined msg s)
    | inr (resp, e) ↦ rw (e, on_file_upload_resp) (hub-IsConfined _)
  ]

  on_file_download_resp-IsConfined : IsConfined msg s (on_file_download_resp decode msg s)
  unfolding on_file_download_resp
  on_file_download_resp-IsConfined = elim (Option-cases (decode.download msg.payload)) [
    | inl e ↦ rw (e, on_file_download_resp) (same-IsConfined msg s)
    | inr (resp, e) ↦ rw (e, on_file_download_resp) (hub-IsConfined _)
  ]

-- Whatever a message from the gateway says, it changes in the master no machine but that of the agent
-- it is from, and no run but the one whose ID it names; accounts, audit log and the gateway's
-- connection stay as they are.
pub gateway_frame-IsConfined :
    (decode : Decoders) (now : ℕ) (msg : Message) (s : Server)
    → IsConfined msg s (gateway_frame decode now (some msg) s)
unfolding gateway_frame
gateway_frame-IsConfined decode now msg s =
    if-IsConfined msg s _ _ _ (on_register-IsConfined decode now msg s) (
      if-IsConfined msg s _ _ _ (on_terminal_output-IsConfined decode now msg s) (
        if-IsConfined msg s _ _ _ (on_exec_response-IsConfined decode now msg s) (
          if-IsConfined msg s _ _ _ (on_file_upload_resp-IsConfined decode now msg s) (
            if-IsConfined msg s _ _ _ (on_metrics-IsConfined decode now msg s) (
              if-IsConfined msg s _ _ _ (on_file_download_resp-IsConfined decode now msg s) (
                if-IsConfined msg s _ _ _ (on_heartbeat-IsConfined decode now msg s)
                  (same-IsConfined msg s)))))))
