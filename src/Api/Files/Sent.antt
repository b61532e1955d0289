-- ===== src/Api/Files/Sent.antt =====
-- What the orders to single agents send and log.
use m_cloud.Base.{
  ℕ, ◌≡◌, ◌≢◌, refl, ap, false, ◌||◌, arith, List, [], ◌∷◌, ◌++◌, map, map-map, append-nil, Text,
  codes, ◌==◌, ==_iff, Option, none, some, length, eqb, joined, split, split-joined, Lacks, All,
}
use m_cloud.Protocol.{Message, FileUpload, new_message, type_file_upload}
use m_cloud.Audit.{log}
use m_cloud.Auth.Jwt.{Claims}
use m_cloud.Http.{Request}
use m_cloud.Gateway.Proxy.{is_closed}
use m_cloud.Ws.Laws.{send_all_lem}
use m_cloud.Api.{Server}
use m_cloud.Api.Files.{FileUploadRequest, upload_sent, strings_join, handle_file_upload}

strings_join-joined : (ss : List Text) → strings_join ss (codes ",") ≡ joined b',' ss
unfolding strings_join joined
strings_join-joined [] = refl
strings_join-joined (s ∷ []) = append-nil s
strings_join-joined (s ∷ t ∷ ts) = ap (λ r. s ++ b',' ∷ r) (strings_join-joined (t ∷ ts))

addressed :
    (c : ℕ) (f : Text → Message) (ids : List Text)
    → map {B = ℕ × Message} (λ m. (c, m)) (map f ids) ≡ map (λ id. (c, f id)) ids
addressed c f ids = map-map {C = ℕ × Message} (λ m. (c, m)) f ids

-- A file that is sent with a path, contents and a list of agents goes to each of them in turn, in
-- one message with the new ID and exactly the path, the contents, the mode and the overwrite flag of
-- the request, on the connection to the gateway, if that is open. The audit log
-- gets one entry with the user, the path and the agents, parted by commas: where no agent's ID
-- holds a comma the list can be read back from it. Machines, runs, accounts and browsers are not
-- touched.
pub handle_file_upload_sends :
    (decode : Text → Option FileUploadRequest) (encode : FileUpload → Text) (id : Text)
    (claims : Claims) (r : Request) (s : Server) (req : FileUploadRequest) (a : Text)
    (rest : List Text) (c : ℕ)
    → decode r.body ≡ some req
    → req.path ≢ []
    → req.content ≢ []
    → req.agent_ids ≡ a ∷ rest
    → s.gateway.conn ≡ some c
    → is_closed c s.gateway.closed ≡ false
    → (agents : Text) × (handle_file_upload decode encode id (some claims) r s ≡ (
      upload_sent id (length (a ∷ rest)),
      record s {
        gateway = record (s.gateway) {
          sent =
              s.gateway.sent
              ++ map
                  (λ agent. (
                    c,
                    record {
                      type = type_file_upload;
                      agent_id = agent;
                      req_id = id;
                      payload = encode (record {
                        path = req.path;
                        content = req.content;
                        mode = req.mode;
                        overwrite = req.overwrite;
                      });
                    },
                  ))
                  (a ∷ rest);
        };
        audit_log =
            log r.time
              (record {
                timestamp = none;
                action = codes "file_upload";
                user = claims.username;
                ip = [];
                agent_id = agents;
                detail = req.path;
              })
              s.audit_log;
      },
    ))
      × (All (Lacks b',') (a ∷ rest) → split b',' agents ≡ a ∷ rest)
unfolding handle_file_upload new_message
handle_file_upload_sends decode encode id claims r s req a rest c d path content ids conn live =
    let full : (req.path == [] || req.content == []) ≡ false =
      ground (arith, ==_iff req.path [], ==_iff req.content []) in
    let some_ids : eqb (length (a ∷ rest)) 0 ≡ false = ground arith in
    (
      joined b',' (a ∷ rest),
      rw (d, full, ids, handle_file_upload)
          (rw (some_ids, send_all_lem _ c s.gateway conn live, strings_join-joined)
            (rw (addressed c _ (a ∷ rest)) refl)),
      split-joined b',' a rest,
    )
