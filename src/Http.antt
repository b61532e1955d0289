-- ===== src/Http.antt =====
-- net/http as the handlers see it. `time` is what the clock shows while a request is served. A
-- handler takes the claims that the context holds, the request and the state it shares with other
-- handlers, and gives the response with the new state.
pub mod Origin
use m_cloud.Base.{ℕ, Text, codes, Option}
use m_cloud.Auth.Jwt.{Claims}

pub record Request : Type 0 where
  pub method : Text
  pub path : Text
  pub header : Text → Text
  pub cookie : Text → Option Text
  pub query : Text → Text
  pub body : Text
  pub remote_addr : Text
  pub host : Text
  pub time : ℕ

abbrev pub Handler : Type 0 → Type 0 → Type 0
Handler S R = Option Claims → Request → S → R × S

abbrev pub status_ok : ℕ
status_ok = 200

abbrev pub bad_request : ℕ
bad_request = 400

abbrev pub unauthorized : ℕ
unauthorized = 401

abbrev pub forbidden : ℕ
forbidden = 403

abbrev pub not_found : ℕ
not_found = 404

abbrev pub too_many_requests : ℕ
too_many_requests = 429
