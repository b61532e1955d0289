-- ===== src/Tests/Logins.antt =====
-- Accounts, tokens and one-time codes, with a toy hash and a toy encoding in the place of the
-- libraries.
use m_cloud.Base.{
  ℕ, sym, some_inj, ◌≡◌, ◌↔◌, ◌⊎◌, ◌+◌, ◌-◌, ◌/◌, refl, true, arith, [], ◌∷◌, ◌++◌, length, map,
  split, Text, codes, ◌==◌, ==_refl, Option, none, some, ok, err, Lacks,
}
use m_cloud.Base.Int.{ℤ, pos, negsuc, ◌≤ℤ◌}
use m_cloud.Store.{unix}
use m_cloud.Auth.Users.{User, UserStore, Bcrypt, init, add_user}
use m_cloud.Auth.Users.Laws.{IsSound}
use m_cloud.Auth.Jwt.{
  Claims, Jose, JwtManager, expired, dot, sign, claims_at, generate_token, validate_token,
}
use m_cloud.Auth.Jwt.Laws as JwtLaws
use m_cloud.Auth.Jwt.Laws.{Reads, validate_token_iff, validate-generate_token}
use m_cloud.Auth.Totp.{Otp, to_upper, generate_code, validate_code}
use m_cloud.Auth.Totp.Window.{IsCode, validate_code_iff}

-- A hash that puts a "$" before the password.
abbrev pub toy_bcrypt : Bcrypt
toy_bcrypt = record { hash = λ salt p. some (b'$' ∷ p); compare = λ h p. h == b'$' ∷ p }

pub toy_bcrypt-IsSound : IsSound toy_bcrypt
toy_bcrypt-IsSound = record {
  recognises = λ salt p h e. rw (sym (some_inj e)) (==_refl (b'$' ∷ p));
}

abbrev pub staff : UserStore
staff = add_user toy_bcrypt 0 (codes "ann") (codes "pw") (codes "S") (codes "admin") init

abbrev ann : User
ann = record {
  username = codes "ann";
  password = codes "$pw";
  totp_secret = codes "S";
  role = codes "admin";
  enabled = true;
}

-- Texts as bytes from 100 on, and claims as two numbers before the name.
abbrev decoded_claims : Text → Option Claims
decoded_claims [] = none
decoded_claims (e ∷ []) = none
decoded_claims (e ∷ i ∷ name) =
    some (record { username = name; role = codes "admin"; exp = pos e; iat = pos i })

abbrev number : ℤ → ℕ
number (pos n) = n
number (negsuc n) = 0

abbrev pub toy_jose : Jose
toy_jose = record {
  hmac = λ secret input. secret ++ input;
  base64url_encode = map (λ c. c + 100);
  base64url_decode = λ t. some (map (λ c. c - 100) t);
  marshal = λ c. some (number c.exp ∷ number c.iat ∷ c.username);
  unmarshal = decoded_claims;
}

encoded_no_dot : (b : Text) → Lacks dot (map (λ c. c + 100) b)
encoded_no_dot [] = tt
encoded_no_dot (c ∷ b) = (omega arith, encoded_no_dot b)

decoded_back : (b : Text) → map (λ c. c - 100) (map (λ c. c + 100) b) ≡ b
decoded_back [] = refl
decoded_back (c ∷ b) = let same : c + 100 - 100 ≡ c = omega arith in rw (same, decoded_back b) refl

toy_jose-IsSound : JwtLaws.IsSound toy_jose
toy_jose-IsSound = record { no_dot = encoded_no_dot; decodes = λ b. rw (decoded_back b) refl }

-- A manager whose tokens live for a day.
abbrev pub manager : JwtManager
manager = record { secret = codes "key"; ttl = 86_400_000_000_000 }

-- HMAC replaced by twenty digits, and base32 by plain text.
abbrev pub toy_otp : Otp
toy_otp = record { hmac = λ key message. codes "01234567890123456789"; base32_decode = λ s. some s }

pub twenty : (key message : Text) → length (toy_otp.hmac key message) ≡ 20
twenty key message = refl

pub code_at_59 : generate_code toy_otp (codes "S") (pos 59) ≡ some (codes "459634")
unfolding generate_code
code_at_59 = refl

validate_token_iff_example :
    (validate_token toy_jose 0 manager (codes "a.b.c")
      ≡ ok (claims_at toy_jose 0 manager (codes "ann") (codes "admin")))
    ↔ ((h : Text) × (p : Text) × (split dot (codes "a.b.c")
          ≡ h ∷ p ∷ toy_jose.base64url_encode (sign toy_jose manager (h ++ dot ∷ p)) ∷ [])
        × Reads toy_jose 0 p (claims_at toy_jose 0 manager (codes "ann") (codes "admin")))
validate_token_iff_example =
    validate_token_iff toy_jose 0 manager (codes "a.b.c")
      (claims_at toy_jose 0 manager (codes "ann") (codes "admin"))

validate-generate_token_example :
    (token : Text) × (generate_token toy_jose 0 manager (codes "ann") (codes "admin") ≡ ok token)
    × ((later : ℕ)
        → unix later ≤ℤ unix (0 + manager.ttl)
        → validate_token toy_jose later manager token
          ≡ ok (claims_at toy_jose 0 manager (codes "ann") (codes "admin")))
    × ((later : ℕ)
        → ¬ (unix later ≤ℤ unix (0 + manager.ttl))
        → validate_token toy_jose later manager token ≡ err expired)
validate-generate_token_example =
    validate-generate_token toy_jose 0 manager (codes "ann") (codes "admin")
      (86_400 ∷ 0 ∷ codes "ann") toy_jose-IsSound refl refl

validate_code_iff_example :
    (validate_code toy_otp (pos 60) (codes "s") (codes "459634") ≡ some true) ↔ (
      (length (codes "459634") ≡ 6)
      × ((key : Text) × (toy_otp.base32_decode (to_upper (codes "s")) ≡ some key)
          × (IsCode toy_otp key (60 / 30 - 1) (codes "459634")
              ⊎ IsCode toy_otp key (60 / 30) (codes "459634")
              ⊎ IsCode toy_otp key (60 / 30 + 1) (codes "459634"))))
validate_code_iff_example =
    validate_code_iff toy_otp 60 (codes "s") (codes "459634") twenty (omega arith) (omega arith)
