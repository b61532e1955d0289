-- ===== src/Auth/Jwt/Laws.antt =====
-- Which tokens the manager accepts.
use m_cloud.Base.{
  ℕ, ◌+◌, ◌≡◌, ◌↔◌, refl, sym, ap, ◌∙◌, true, false, inl, inr, arith, List, [], ◌∷◌, ◌++◌,
  append_assoc, Text, codes, split, split-append, split-lacking, Lacks, ◌==◌, ==_iff, ==_refl,
  if◌then◌else◌, some, ok, err, Bool-cases, Option-cases,
}
use mathlib.Core.Path.{subst}
use m_cloud.Base.Int.{ltb_ℤ, ◌≤ℤ◌}
use m_cloud.Store.{unix}
use m_cloud.Auth.Jwt.{
  Claims, Jose, JwtManager, expired, dot, sign, header, claims_at, generate_token, read_claims,
  validate_parts, validate_token,
}

-- What the manager relies on: base64url texts hold no dot, and decoding undoes encoding.
pub record IsSound (lib : Jose) : Type 0 where
  pub no_dot : (b : Text) → Lacks dot (lib.base64url_encode b)
  pub decodes : (b : Text) → lib.base64url_decode (lib.base64url_encode b) ≡ some b

module _ (lib : Jose) where
  -- The claims are what the encoded payload holds, and have not expired.
  abbrev pub Reads : ℕ → Text → Claims → Type 0
  Reads now p c =
      ((payload : Text) × (lib.base64url_decode p ≡ some payload)
        × (lib.unmarshal payload ≡ some c))
      × (unix now ≤ℤ c.exp)

  read_claims-ok : (now : ℕ) (p : Text) (c : Claims) → read_claims lib now p ≡ ok c → Reads now p c
  unfolding read_claims
  read_claims-ok now p c e = elim (Option-cases (lib.base64url_decode p)) [
    | inl q ↦ absurd (cc (rw (q, read_claims) at e))
    | inr (payload, q) ↦ elim (Option-cases (lib.unmarshal payload)) [
      | inl u ↦ absurd (cc (rw (q, u, read_claims) at e))
      | inr (c', u) ↦
          let e' : (if ltb_ℤ c'.exp (unix now) then err expired else ok c') ≡ ok c =
            rw (q, u, read_claims) at e in
          let same : c' ≡ c = ground arith in
          (
            (payload, q, u ∙ ap some same),
            subst (λ (x : Claims). unix now ≤ℤ x.exp) same (ground arith),
          )
    ]
  ]

  read_claims_of_Reads :
      (now : ℕ) (p : Text) (c : Claims) → Reads now p c → read_claims lib now p ≡ ok c
  unfolding read_claims
  read_claims_of_Reads now p c ((payload, q, u), fresh) =
      let t : ltb_ℤ c.exp (unix now) ≡ false = ground arith in rw (q, u, t, read_claims) refl

-- The manager accepts a token exactly if it is three parts with dots between, the last part is
-- the signature of the first two under the manager's secret, and the middle part holds the claims
-- returned, whose second of expiry has not passed. The first part, the header, is not looked at.
pub validate_token_iff :
    (lib : Jose) (now : ℕ) (j : JwtManager) (token : Text) (c : Claims)
    → (validate_token lib now j token ≡ ok c) ↔ (
        (h : Text) × (p : Text) × (split dot token
          ≡ h ∷ p ∷ lib.base64url_encode (sign lib j (h ++ dot ∷ p)) ∷ [])
        × Reads lib now p c)
unfolding validate_token validate_parts
validate_token_iff lib now j token c = (
  go (split dot token),
  λ w.
      let (h, p, e, r) = w in
      rw (e, validate_parts) (rw (==_refl, read_claims_of_Reads lib now p c r) refl),
)
  where
    go :
        (parts : List Text)
        → validate_parts lib now j parts ≡ ok c
        → (h : Text) × (p : Text) × (parts
            ≡ h ∷ p ∷ lib.base64url_encode (sign lib j (h ++ dot ∷ p)) ∷ [])
          × Reads lib now p c
    go [] e = cc
    go (h ∷ []) e = cc
    go (h ∷ p ∷ []) e = cc
    go (h ∷ p ∷ s ∷ []) e =
        elim (Bool-cases (lib.base64url_encode (sign lib j (h ++ dot ∷ p)) == s)) [
          | inl q ↦ (
            h,
            p,
            ap (λ t. h ∷ p ∷ t ∷ []) (sym ((==_iff _ s).0 q)),
            read_claims-ok lib now p c (rw (q, validate_parts) at e),
          )
          | inr q ↦ absurd (cc (rw (q, validate_parts) at e))
        ]
    go (h ∷ p ∷ s ∷ t ∷ rest) e = cc

split_token :
    (lib : Jose)
    → IsSound lib
    → (j : JwtManager) (payload : Text)
    → split dot (
        (header lib ++ dot ∷ lib.base64url_encode payload)
        ++ dot
          ∷ lib.base64url_encode (sign lib j (header lib ++ dot ∷ lib.base64url_encode payload)))
      ≡ header lib
        ∷ lib.base64url_encode payload
        ∷ lib.base64url_encode (sign lib j (header lib ++ dot ∷ lib.base64url_encode payload))
        ∷ []
unfolding header
split_token lib sound j payload =
    let h : Text = lib.base64url_encode (codes "{\"alg\":\"HS256\",\"typ\":\"JWT\"}") in
    let p : Text = lib.base64url_encode payload in
    let s : Text = lib.base64url_encode (sign lib j (h ++ dot ∷ p)) in
    ap (split dot) (append_assoc h (dot ∷ p) (dot ∷ s))
    ∙ split-append dot h (p ++ dot ∷ s) (sound.no_dot _)
    ∙ ap (λ t. h ∷ t)
        (split-append dot p s (sound.no_dot _)
          ∙ ap (λ t. p ∷ t) (split-lacking dot s (sound.no_dot _)))

-- A token that the manager makes for a user is accepted by it, with that user's name and role,
-- up to the second in which its time to live ends, and refused as expired from the next second on.
-- This holds where encoding/json reads the claims of the token back as they were.
pub validate-generate_token :
    (lib : Jose) (now : ℕ) (j : JwtManager) (username role payload : Text)
    → IsSound lib
    → lib.marshal (claims_at lib now j username role) ≡ some payload
    → lib.unmarshal payload ≡ some (claims_at lib now j username role)
    → (token : Text) × (generate_token lib now j username role ≡ ok token)
      × ((later : ℕ)
          → unix later ≤ℤ unix (now + j.ttl)
          → validate_token lib later j token ≡ ok (claims_at lib now j username role))
      × ((later : ℕ)
          → ¬ (unix later ≤ℤ unix (now + j.ttl))
          → validate_token lib later j token ≡ err expired)
unfolding generate_token validate_token validate_parts
validate-generate_token lib now j username role payload sound made read =
    let input : Text = header lib ++ dot ∷ lib.base64url_encode payload in
    let claims : Claims = claims_at lib now j username role in
    let parts = split_token lib sound j payload in
    (
      input ++ dot ∷ lib.base64url_encode (sign lib j input),
      rw (made, generate_token) refl,
      λ later h.
          rw (parts, validate_parts)
            (rw
              (
                ==_refl,
                read_claims_of_Reads lib later _ claims ((payload, sound.decodes payload, read), h),
              )
              refl),
      λ later h.
          rw (parts, validate_parts)
            (rw (==_refl) (
              unfold read_claims in
              let t : ltb_ℤ claims.exp (unix later) ≡ true = ground arith in
              rw (sound.decodes payload, read, t, read_claims) refl)),
    )
