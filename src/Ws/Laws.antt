-- ===== src/Ws/Laws.antt =====
-- The connection to the gateway over its lifetime.
use m_cloud.Base.{
  some_inj, if◌then◌else◌, Bool, ℕ, ◌≡◌, refl, true, false, List, [], ◌∷◌, ◌++◌, append_assoc,
  append-nil, map, ap, sym, ◌∙◌, Option, none, some,
}
use m_cloud.Protocol.{Message}
use m_cloud.Gateway.Proxy.{is_closed}
use m_cloud.Ws.{GatewayConn, send, send_all}

pub send_open :
    (m : Message) (c : ℕ) (g : GatewayConn)
    → g.conn ≡ some c
    → is_closed c g.closed ≡ false
    → send m g ≡ (record g { sent = g.sent ++ (c, m) ∷ [] }, true)
unfolding send
send_open m c g e o = go g.conn e
  where
    go :
        (k : Option ℕ)
        → k ≡ some c
        → ◌≡◌ {A = GatewayConn × Bool}
            (elim k [
              | none ↦ (g, true)
              | some d ↦
                  if is_closed d g.closed
                  then (g, false)
                  else (record g { sent = g.sent ++ (d, m) ∷ [] }, true)
            ])
            (record g { sent = g.sent ++ (c, m) ∷ [] }, true)
    go none q = cc
    go (some d) q = rw (some_inj q, o) refl

-- On an open connection each message is written once, in order.
pub send_all_lem :
    (ms : List Message) (c : ℕ) (g : GatewayConn)
    → g.conn ≡ some c
    → is_closed c g.closed ≡ false
    → send_all ms g ≡ record g { sent = g.sent ++ map (λ m. (c, m)) ms }
unfolding send_all
send_all_lem [] c g e o = ap (λ l. record g { sent = l }) (sym (append-nil g.sent))
send_all_lem (m ∷ ms) c g e o = rw (send_open m c g e o) (
    send_all_lem ms c (record g { sent = g.sent ++ (c, m) ∷ [] }) e o
    ∙ ap (λ l. record g { sent = l }) (append_assoc g.sent ((c, m) ∷ []) (map (λ m. (c, m)) ms)))
