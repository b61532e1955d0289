-- ===== src/Tests/Web.antt =====
-- Requests to the guards of the web server, with toy parsers of addresses.
use m_cloud.Base.{
  ℕ, ◌+◌, ◌-◌, min, ◌≡◌, ◌≢◌, ◌⊎◌, refl, false, arith, List, [], ◌∷◌, ◌++◌, Text, codes, ◌==◌,
  if◌then◌else◌, none, some, In, err, ok,
}
use m_cloud.Dict.{get-empty}
use m_cloud.Http.{Request, Handler, status_ok, unauthorized, forbidden}
use m_cloud.Auth.Jwt.{Claims, Jose, JwtManager, TokenError, validate_token}
use m_cloud.Middleware.Ip.{Net, is_private_addr}
use m_cloud.Middleware.Guards.{token_of, require_auth, require_role}
use m_cloud.Middleware.Guards.Laws.{guarded_lem}
use m_cloud.Middleware.Limiter.{LimiterEntry, RateLimiter, new_login, new}
use m_cloud.Middleware.Limiter.Window.{Event, request, sweep, grants, requests, grants-eq-min}

-- Addresses stand for themselves, and "10" is the one private address.
abbrev pub toy_net : Net
toy_net = record {
  split_host_port = λ a. some a;
  parse_ip = λ h. some h;
  is_private = λ ip. ip == codes "10";
  is_loopback = λ ip. false;
}

-- A request with two headers of the client's choice.
abbrev headers : Text → Text
headers name =
    if name == codes "Origin"
    then codes "https://ops.evil"
    else if name == codes "X-Forwarded-For"
    then codes "1.2.3.4"
    else []

abbrev pub visit : Request
visit = record {
  method = codes "GET";
  path = codes "/api/machines";
  header = headers;
  cookie = λ name. none;
  query = λ name. [];
  body = [];
  remote_addr = codes "8.8.8.8";
  host = codes "ops";
  time = 0;
}

abbrev answer : Handler RateLimiter ℕ
answer ctx r s = (status_ok, s)

abbrev whole : RateLimiter → RateLimiter
whole rl = rl

abbrev replaced : RateLimiter → RateLimiter → RateLimiter
replaced rl old = rl

abbrev pub status : ℕ → Text → ℕ
status code text = code

abbrev pub toy_jose : Jose
toy_jose = record {
  hmac = λ secret input. secret ++ input;
  base64url_encode = λ t. t;
  base64url_decode = λ t. some t;
  marshal = λ c. some c.username;
  unmarshal = λ t. none;
}

abbrev pub manager : JwtManager
manager = record { secret = codes "key"; ttl = 60 }

outside_address : is_private_addr toy_net visit.remote_addr ≡ false
unfolding is_private_addr ◌==◌
outside_address = refl

guarded_lem_example :
    ((c : Claims)
      → token_of visit ≢ []
      → validate_token toy_jose visit.time manager (token_of visit) ≡ ok c
      → In c.role (codes "admin" ∷ [])
      → require_auth status toy_jose manager
          (require_role status (codes "admin" ∷ []) answer)
          none
          visit
          new_login
        ≡ answer (some c) visit new_login)
    × ((c : Claims)
        → token_of visit ≢ []
        → validate_token toy_jose visit.time manager (token_of visit) ≡ ok c
        → ¬ In c.role (codes "admin" ∷ [])
        → require_auth status toy_jose manager
            (require_role status (codes "admin" ∷ []) answer)
            none
            visit
            new_login
          ≡ (status forbidden (codes "forbidden"), new_login))
    × ((token_of visit ≡ [])
          ⊎ ((e : TokenError) × (validate_token toy_jose visit.time manager (token_of visit)
                ≡ err e))
        → require_auth status toy_jose manager
            (require_role status (codes "admin" ∷ []) answer)
            none
            visit
            new_login
          ≡ (status unauthorized (codes "unauthorized"), new_login))
guarded_lem_example =
    guarded_lem status toy_jose manager (codes "admin" ∷ []) answer none visit new_login

abbrev tries : List (ℕ × Event)
tries = (1, request (codes "8.8.8.8")) ∷ (2, sweep) ∷ (3, request (codes "9.9.9.9")) ∷ []

grants-eq-min_example :
    grants (codes "8.8.8.8") ((0, request (codes "8.8.8.8")) ∷ tries) new_login
    ≡ 1 + min (requests (codes "8.8.8.8") tries) (new_login.rate - 1)
unfolding new_login new
grants-eq-min_example =
    grants-eq-min (codes "8.8.8.8") 0 tries new_login
      (λ entry e. absurd (cc (e, get-empty {V = LimiterEntry} (codes "8.8.8.8")))) (omega arith)
