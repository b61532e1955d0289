-- ===== src/Middleware/Guards/Laws.antt =====
-- What a handler behind the guards can rely on.
use m_cloud.Base.{
  ℕ, ◌≡◌, ◌≢◌, ◌⊎◌, refl, inl, inr, false, List, [], arith, Text, codes, ◌==◌, ==_iff, Option, some,
  Result, ok, err, In, Bool-cases,
}
use m_cloud.Flags.{flag, set_of, flag-set_of}
use m_cloud.Auth.Jwt.{Claims, Jose, JwtManager, TokenError, validate_token}
use m_cloud.Http.{Request, Handler, unauthorized, forbidden}
use m_cloud.Middleware.Guards.{token_of, require_auth, require_role}

Result-cases {ℓ κ} :
    {E : Type ℓ} {A : Type κ} (r : Result E A) → ((a : A) × (r ≡ ok a)) ⊎ ((e : E) × (r ≡ err e))
Result-cases (ok a) = inl (a, refl)
Result-cases (err e) = inr (e, refl)

-- A handler behind RequireAuth and RequireRole runs exactly for a request whose token is there and
-- accepted, for a role that is listed, and then it runs with the claims of the token. With no
-- token or one that is refused the response is 401, with another role it is 403, and in both
-- cases the state is not touched.
pub guarded_lem :
    {S R : Type 0} (failure : ℕ → Text → R) (lib : Jose) (jwt : JwtManager) (roles : List Text)
    (next : Handler S R) (ctx : Option Claims) (r : Request) (s : S)
    → ((c : Claims)
        → token_of r ≢ []
        → validate_token lib r.time jwt (token_of r) ≡ ok c
        → In c.role roles
        → require_auth failure lib jwt (require_role failure roles next) ctx r s
          ≡ next (some c) r s)
      × ((c : Claims)
          → token_of r ≢ []
          → validate_token lib r.time jwt (token_of r) ≡ ok c
          → ¬ In c.role roles
          → require_auth failure lib jwt (require_role failure roles next) ctx r s
            ≡ (failure forbidden (codes "forbidden"), s))
      × ((token_of r ≡ [])
            ⊎ ((e : TokenError) × (validate_token lib r.time jwt (token_of r) ≡ err e))
          → require_auth failure lib jwt (require_role failure roles next) ctx r s
            ≡ (failure unauthorized (codes "unauthorized"), s))
unfolding require_auth require_role
guarded_lem failure lib jwt roles next ctx r s = (
  λ c there valid listed.
      let t : (token_of r == []) ≡ false = ground (arith, ==_iff (token_of r) []) in
      rw (t, valid, require_auth) (rw ((flag-set_of roles c.role).1 listed, require_role) refl),
  λ c there valid unlisted.
      let t : (token_of r == []) ≡ false = ground (arith, ==_iff (token_of r) []) in
      let f : flag (set_of roles) c.role ≡ false = ground (arith, flag-set_of roles c.role) in
      rw (t, valid, require_auth) (rw (f, require_role) refl),
  λ w. elim (Bool-cases (token_of r == [])) [
    | inl t ↦ rw (t, require_auth) refl
    | inr t ↦ elim w [
      | inl e ↦ absurd (cc (t, (==_iff (token_of r) []).1 e))
      | inr (e, bad) ↦ rw (t, bad, require_auth) refl
    ]
  ],
)
