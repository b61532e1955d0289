-- ===== src/Middleware/Guards.antt =====
-- RequireAuth and RequireRole.
pub mod Laws
use m_cloud.Base.{
  ℕ, Bool, true, false, not, List, [], Text, codes, ◌==◌, starts_with, trim_prefix, if◌then◌else◌,
  Option, none, some, ok, err,
}
use m_cloud.Flags.{set_of, flag}
use m_cloud.Auth.Jwt.{Jose, JwtManager, validate_token}
use m_cloud.Http.{Request, Handler, unauthorized, forbidden}

abbrev pub bearer : Text
bearer = codes "Bearer "

-- The token of the Authorization header, or that of the cookie.
unfoldable pub token_of : Request → Text
token_of r =
    let header = r.header (codes "Authorization") in
    let sent : Text = if starts_with header bearer then trim_prefix header bearer else [] in
    if sent == [] then elim (r.cookie (codes "token")) [ none ↦ [] | some c ↦ c ] else sent

module _ {S R : Type 0} (failure : ℕ → Text → R) where
  unfoldable pub require_auth : Jose → JwtManager → Handler S R → Handler S R
  require_auth lib jwt next ctx r s =
      if token_of r == []
      then (failure unauthorized (codes "unauthorized"), s)
      else elim (validate_token lib r.time jwt (token_of r)) [
        | err e ↦ (failure unauthorized (codes "unauthorized"), s)
        | ok claims ↦ next (some claims) r s
      ]

  unfoldable pub require_role : List Text → Handler S R → Handler S R
  require_role roles next none r s = (failure unauthorized (codes "unauthorized"), s)
  require_role roles next (some claims) r s =
      if not (flag (set_of roles) claims.role)
      then (failure forbidden (codes "forbidden"), s)
      else next (some claims) r s
