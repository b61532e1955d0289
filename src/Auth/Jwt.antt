-- ===== src/Auth/Jwt.antt =====
-- internal/master/auth/jwt.go: signed tokens. HMAC-SHA256, base64url and encoding/json are
-- parameters. Times are nanoseconds since 1970.
pub mod Laws
use m_cloud.Base.{
  ℕ, ◌+◌, Bool, List, [], ◌∷◌, ◌++◌, Text, codes, split, ◌==◌, if◌then◌else◌, Option, none, some,
  Result, ok, err,
}
use m_cloud.Base.Int.{ℤ, pos, ltb_ℤ}
use m_cloud.Store.{unix}

pub record Claims : Type 0 where
  pub username : Text
  pub role : Text
  pub exp : ℤ
  pub iat : ℤ

pub data TokenError : Type 0 where
  invalid_format invalid_signature invalid_payload invalid_claims expired marshal_failed :
      TokenError

-- The functions of the standard library that the manager calls.
pub record Jose : Type 0 where
  pub hmac : Text → Text → Text
  pub base64url_encode : Text → Text
  pub base64url_decode : Text → Option Text
  pub marshal : Claims → Option Text
  pub unmarshal : Text → Option Claims

pub record JwtManager : Type 0 where
  pub secret : Text
  pub ttl : ℕ

abbrev pub dot : ℕ
dot = b'.'

module _ (lib : Jose) where
  unfoldable pub sign : JwtManager → Text → Text
  sign j input = lib.hmac j.secret input

  unfoldable pub header : Text
  header = lib.base64url_encode (codes "{\"alg\":\"HS256\",\"typ\":\"JWT\"}")

  abbrev pub claims_at : ℕ → JwtManager → Text → Text → Claims
  claims_at now j username role = record {
    username = username;
    role = role;
    exp = unix (now + j.ttl);
    iat = unix now;
  }

  unfoldable pub generate_token : ℕ → JwtManager → Text → Text → Result TokenError Text
  unfolding sign header
  generate_token now j username role = elim (lib.marshal (claims_at now j username role)) [
    | none ↦ err marshal_failed
    | some payload ↦
        let signing_input : Text = header ++ dot ∷ lib.base64url_encode payload in
        ok (signing_input ++ dot ∷ lib.base64url_encode (sign j signing_input))
  ]

  -- ValidateToken from the decoding of the payload on.
  unfoldable pub read_claims : ℕ → Text → Result TokenError Claims
  read_claims now encoded = elim (lib.base64url_decode encoded) [
    | none ↦ err invalid_payload
    | some payload ↦ elim (lib.unmarshal payload) [
      | none ↦ err invalid_claims
      | some claims ↦ if ltb_ℤ claims.exp (unix now) then err expired else ok claims
    ]
  ]

  -- ValidateToken on the parts of the token.
  unfoldable pub validate_parts : ℕ → JwtManager → List Text → Result TokenError Claims
  unfolding sign read_claims
  validate_parts now j [] = err invalid_format
  validate_parts now j (h ∷ []) = err invalid_format
  validate_parts now j (h ∷ p ∷ []) = err invalid_format
  validate_parts now j (h ∷ p ∷ s ∷ []) =
      if lib.base64url_encode (sign j (h ++ dot ∷ p)) == s
      then read_claims now p
      else err invalid_signature
  validate_parts now j (h ∷ p ∷ s ∷ t ∷ rest) = err invalid_format

  unfoldable pub validate_token : ℕ → JwtManager → Text → Result TokenError Claims
  unfolding validate_parts
  validate_token now j token = validate_parts now j (split dot token)
