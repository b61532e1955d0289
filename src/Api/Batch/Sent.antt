-- ===== src/Api/Batch/Sent.antt =====
-- What a batch run leaves behind.
use m_cloud.Base.{
  ℕ, ◌<◌, ◌≡◌, ◌≢◌, refl, ap, false, arith, List, [], ◌++◌, map, map-map, ◌∙◌, Text, codes,
  some_inj, ◌==◌, ◌∷◌, sym, zero, suc, min, take, length, ==_iff, Option, none, some,
}
use mathlib.Core.Path.{subst}
use m_cloud.Protocol.{ExecRequest, type_exec_request}
use m_cloud.Dict
use m_cloud.Audit.{log}
use m_cloud.History.{ExecRecord, briefed, running, get}
use m_cloud.History.Bounds.{IsBriefed, briefed-IsBriefed}
use m_cloud.History.Added.{get-add}
use m_cloud.Auth.Jwt.{Claims}
use m_cloud.Http.{Request}
use m_cloud.Gateway.Proxy.{is_closed}
use m_cloud.Ws.{GatewayConn}
use m_cloud.Ws.Laws.{send_all_lem}
use m_cloud.Api.{Server}
use m_cloud.Api.Batch.{started, targets, user_of, record_of, start, handle_batch_exec}

-- The user of the claims, or no name where there are none.
abbrev pub IsUser : Option Claims → Text → Type 0
IsUser ctx user = ((c : Claims) → ctx ≡ some c → user ≡ c.username) × (ctx ≡ none → user ≡ [])

user_of_lem : (ctx : Option Claims) (user : Text) → IsUser ctx user → user_of ctx ≡ user
user_of_lem none user w = sym (w.1 refl)
user_of_lem (some c) user w = sym (w.0 c refl)

pub user_of-IsUser : (ctx : Option Claims) → IsUser ctx (user_of ctx)
user_of-IsUser none = (λ c e. cc, λ e. refl)
user_of-IsUser (some c) = (λ d e. ap (λ (x : Claims). x.username) (some_inj e), λ e. cc)

pub get-handle_batch_exec :
    (decode : Text → Option ExecRequest) (encode : ExecRequest → Text) (id : Text)
    (ctx : Option Claims) (r : Request) (s : Server) (req : ExecRequest) (ids : List Text)
    → decode r.body ≡ some req
    → req.script ≢ []
    → targets (r.query (codes "group")) req.agent_ids s.store ≡ ids
    → get id s.history ≡ none
    → 0 < s.history.max_size
    → get id (handle_batch_exec decode encode id ctx r s).1.history
      ≡ some (briefed (record_of id ctx r.time (record req { agent_ids = ids })))
unfolding handle_batch_exec start
get-handle_batch_exec decode encode id ctx r s req ids d script t new room =
    let full : (req.script == []) ≡ false = ground (arith, ==_iff req.script []) in
    rw (d, full, t, handle_batch_exec)
      (get-add (record_of id ctx r.time (record req { agent_ids = ids })) s.history new room)

take-nil : (n : ℕ) → take {A = ℕ} n [] ≡ []
take-nil zero = refl
take-nil (suc n) = refl

take-min : (n : ℕ) (t : Text) → take (min n (length t)) t ≡ take n t
take-min n [] = rw (take-nil (min n 0), take-nil n) refl
take-min zero (c ∷ t) = let least : min 0 (length (c ∷ t)) ≡ 0 = omega arith in rw least refl
take-min (suc n) (c ∷ t) =
    let step : min (suc n) (length (c ∷ t)) ≡ suc (min n (length t)) = omega arith in
    rw step (ap (λ u. c ∷ u) (take-min n t))

-- A batch run that is asked for with a script answers with its ID and its targets. The history then
-- has a running record of it under that ID, with the script, its preview, the timeout, these targets,
-- no result, the time and the user, if the ID was new; each target in turn was written one message
-- with the ID on the connection to the gateway, if that is open; and the audit log was given an entry
-- with the user and the first 100 bytes of the script. Machines, accounts and browsers are not
-- touched.
pub handle_batch_exec_lem :
    (decode : Text → Option ExecRequest) (encode : ExecRequest → Text) (id : Text)
    (ctx : Option Claims) (r : Request) (s : Server) (req : ExecRequest) (ids : List Text)
    (user : Text)
    → IsUser ctx user
    → decode r.body ≡ some req
    → req.script ≢ []
    → targets (r.query (codes "group")) req.agent_ids s.store ≡ ids
    → ((handle_batch_exec decode encode id ctx r s).0 ≡ started id ids)
      × (get id s.history ≡ none
          → 0 < s.history.max_size
          → (filed : ExecRecord) × (get id (handle_batch_exec decode encode id ctx r s).1.history
              ≡ some filed)
            × IsBriefed
                (record {
                  id = id;
                  script = req.script;
                  script_brief = [];
                  timeout = req.timeout;
                  agent_ids = ids;
                  results = Dict.empty;
                  status = codes "running";
                  started_at = r.time;
                  finished_at = none;
                  user = user;
                })
                filed)
      × ((c : ℕ)
          → s.gateway.conn ≡ some c
          → is_closed c s.gateway.closed ≡ false
          → (handle_batch_exec decode encode id ctx r s).1.gateway.sent
            ≡ s.gateway.sent
              ++ map
                  (λ agent. (
                    c,
                    record {
                      type = type_exec_request;
                      agent_id = agent;
                      req_id = id;
                      payload = encode (record req { agent_ids = ids });
                    },
                  ))
                  ids)
      × ((handle_batch_exec decode encode id ctx r s).1.audit_log
          ≡ log r.time
              (record {
                timestamp = none;
                action = codes "batch_exec";
                user = user;
                ip = [];
                agent_id = [];
                detail = take 100 req.script;
              })
              s.audit_log)
      × ((handle_batch_exec decode encode id ctx r s).1.store ≡ s.store)
      × ((handle_batch_exec decode encode id ctx r s).1.users ≡ s.users)
      × ((handle_batch_exec decode encode id ctx r s).1.hub ≡ s.hub)
unfolding handle_batch_exec start running
handle_batch_exec_lem decode encode id ctx r s req ids user signed d script t =
    let same : user_of ctx ≡ user = user_of_lem ctx user signed in
    let full : (req.script == []) ≡ false = ground (arith, ==_iff req.script []) in
    rw (d, full, t, handle_batch_exec)
      (
        refl,
        λ new room. (
          briefed (record_of id ctx r.time (record req { agent_ids = ids })),
          get-add (record_of id ctx r.time (record req { agent_ids = ids })) s.history new room,
          subst
              (λ u.
                IsBriefed
                  (record (record_of id ctx r.time (record req { agent_ids = ids })) { user = u })
                  (briefed (record_of id ctx r.time (record req { agent_ids = ids }))))
              same (briefed-IsBriefed _),
        ),
        λ c e o.
            ap (λ (g : GatewayConn). g.sent) (send_all_lem _ c s.gateway e o)
            ∙ ap (λ l. s.gateway.sent ++ l) (map-map (λ m. (c, m)) _ ids),
        rw (same, take-min 100 req.script) refl,
        refl,
        refl,
        refl,
      )
