-- ===== src/Api.antt =====
-- internal/master/api/api.go: what the master does for browsers and for the gateway. The libraries
-- that a handler calls are arguments: the decoders of encoding/json, bcrypt, the cryptography of
-- tokens and codes, the parsers of addresses, and the UUID that a call of uuid.New returns.
pub mod Login
pub mod Frames
pub mod Batch
pub mod Listing
pub mod Machines
pub mod Dashboard
pub mod Files
pub mod Account
pub mod Status
pub mod Templates
use m_cloud.Base.{Option}
use m_cloud.Store.{Store}
use m_cloud.History.{ExecHistory}
use m_cloud.Audit.{Logger}
use m_cloud.Auth.Users.{UserStore}
use m_cloud.Auth.Jwt.{JwtManager}
use m_cloud.Ws.{Hub, GatewayConn}

pub record Server : Type 0 where
  pub store : Store
  pub hub : Hub
  pub gateway : GatewayConn
  pub history : ExecHistory
  pub users : UserStore
  pub jwt : JwtManager
  pub audit_log : Option Logger
