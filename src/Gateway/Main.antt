-- ===== src/Gateway/Main.antt =====
-- The start of cmd/gateway/main.go and its status page. The random bytes and base64 are arguments;
-- `none` is an error of crypto/rand.
use m_cloud.Base.{
  ℕ, ◌≡◌, ◌≢◌, ◌↔◌, refl, Bool, true, false, List, [], ◌∷◌, length, Text, codes, ◌==◌, ==_iff, eqb,
  if◌then◌else◌, Option, none, some, In, split, arith, inl, inr, split-ne-nil,
}
use m_cloud.Env.{Env, get_env}
use m_cloud.Flags.{flag-set_of}
use m_cloud.Gateway.Proxy.{Manager, get_all_agent_ids}
use m_cloud.Gateway.Server.{get_env_slice, new_authenticator, validate_agent}

-- `base64` is RawURLEncoding.
unfoldable pub generate_default_token : (Text → Text) → Option Text → Text
generate_default_token base64 none = []
generate_default_token base64 (some bytes) = base64 bytes

pub record Settings : Type 0 where
  pub listen : Text
  pub master_url : Text
  pub tokens : List Text
  pub master_secret : Text

unfoldable pub start : (Text → Text) → Option Text → Option Text → Env → Settings
unfolding get_env generate_default_token
start base64 first second env =
    let tokens = get_env_slice (env (codes "AGENT_TOKENS")) [] in
    let master_secret = get_env env (codes "MASTER_SECRET") [] in
    record {
      listen = get_env env (codes "GATEWAY_LISTEN") (codes ":8081");
      master_url = get_env env (codes "MASTER_WS_URL") (codes "ws://localhost:8080/ws/gateway");
      tokens = if eqb (length tokens) 0 then generate_default_token base64 first ∷ [] else tokens;
      master_secret =
          if master_secret == [] then generate_default_token base64 second else master_secret;
    }

-- The number of agents that /status tells.
unfoldable pub agent_count : Manager → ℕ
agent_count m = length (get_all_agent_ids m)

-- Which tokens let an agent in: where AGENT_TOKENS is set, its parts between commas; else the first
-- random bytes in base64 alone, and where no random bytes could be had, the empty token.
pub start_tokens_iff :
    (base64 : Text → Text) (first second : Option Text) (env : Env) (id token : Text)
    → let admits = validate_agent (new_authenticator (start base64 first second env).tokens) id in
      (env (codes "AGENT_TOKENS") ≢ []
        → ((admits token ≡ true) ↔ In token (split b',' (env (codes "AGENT_TOKENS")))))
      × (env (codes "AGENT_TOKENS") ≡ []
          → ((bytes : Text) → first ≡ some bytes → ((admits token ≡ true) ↔ (token ≡ base64 bytes)))
            × (first ≡ none → ((admits token ≡ true) ↔ (token ≡ []))))
unfolding start generate_default_token validate_agent new_authenticator get_env_slice ◌==◌
start_tokens_iff base64 first second env id token = (
  λ given.
      let v : Text = env (codes "AGENT_TOKENS") in
      let set : (v == []) ≡ false = ground (arith, ==_iff v []) in
      let parts : eqb (length (split b',' v)) 0 ≡ false =
        some_parts (split b',' v) (split-ne-nil b',' v) in
      rw (set, parts) (flag-set_of (split b',' v) token),
  λ unset. (
    λ bytes e. rw (unset, e) (one (base64 bytes) (flag-set_of (base64 bytes ∷ []) token)),
    λ e. rw (unset, e) (one [] (flag-set_of ([] ∷ []) token)),
  ),
)
  where
    some_parts : (ps : List Text) → ps ≢ [] → eqb (length ps) 0 ≡ false
    some_parts [] h = absurd (h refl)
    some_parts (p ∷ ps) h = ground arith

    one :
        {b : Bool} (only : Text)
        → ((b ≡ true) ↔ In token (only ∷ []))
        → ((b ≡ true) ↔ (token ≡ only))
    one only w = (λ e. elim (w.0 e) [ inl q ↦ q | inr m ↦ elim m [ ] ], λ q. w.1 (inl q))
