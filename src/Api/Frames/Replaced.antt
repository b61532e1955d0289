-- ===== src/Api/Frames/Replaced.antt =====
-- What becomes of a gateway that connects again.
use m_cloud.Base.{
  ◌≢◌, ◌++◌, eqb, ℕ, ◌≡◌, refl, true, false, [], ◌∷◌, some, Option-cases, inl, inr, arith,
}
use m_cloud.Protocol.{Message}
use m_cloud.Http.{Request}
use m_cloud.Http.Origin.{check_origin}
use m_cloud.Ws.{set_conn, clear_conn, send}
use m_cloud.Gateway.Proxy.{is_closed}
use m_cloud.Ws.Laws.{send_open}
use m_cloud.Api.{Server}
use m_cloud.Api.Frames.{gateway_connects, gateway_lost}

conn-gateway_connects :
    (r : Request) (conn : ℕ) (s : Server)
    → check_origin r ≡ true
    → (gateway_connects r conn s).gateway.conn ≡ some conn
unfolding gateway_connects set_conn
conn-gateway_connects r conn s o = elim (Option-cases s.gateway.conn) [
  | inl e ↦ rw (o, gateway_connects) (rw (e, set_conn) refl)
  | inr (old, e) ↦ rw (o, gateway_connects) (rw (e, set_conn) refl)
]

-- A gateway that connects replaces the connection there was, and while the new connection is open the
-- master's messages are written to it. When the loop of an older connection then ends, it clears
-- the connection, though that is the new one by now: what the master sends is dropped and reported
-- as sent, though the new connection is still open.
pub gateway_lost-gateway_connects :
    (r : Request) (old new : ℕ) (s : Server) (msg : Message)
    → check_origin r ≡ true
    → is_closed new (gateway_connects r new s).gateway.closed ≡ false
    → old ≢ new
    → (send msg (gateway_connects r new s).gateway ≡ (
      record ((gateway_connects r new s).gateway) {
        sent = (gateway_connects r new s).gateway.sent ++ (new, msg) ∷ [];
      },
      true,
    ))
      × (is_closed new (gateway_lost old (gateway_connects r new s)).gateway.closed ≡ false)
      × (send msg (gateway_lost old (gateway_connects r new s)).gateway
          ≡ ((gateway_lost old (gateway_connects r new s)).gateway, true))
unfolding gateway_lost clear_conn send is_closed
gateway_lost-gateway_connects r old new s msg o alive ne =
    let other : eqb new old ≡ false = ground arith in
    (
      send_open msg new (gateway_connects r new s).gateway (conn-gateway_connects r new s o) alive,
      rw other alive,
      refl,
    )
