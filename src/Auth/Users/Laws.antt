-- ===== src/Auth/Users/Laws.antt =====
-- Who can log in with what.
use m_cloud.Base.{
  Bool-cases, ℕ, ◌≡◌, ◌≢◌, ◌↔◌, ◌⊎◌, refl, inl, inr, not, true, false, Text, ◌==◌, ==_iff, ==_refl,
  if◌then◌else◌, arith, Option, none, some, Option-cases,
}
use m_cloud.Dict
use m_cloud.Dict.{get-put, get-remove}
use m_cloud.Auth.Users.{
  User, UserStore, Bcrypt, get_user, update_totp_secret, delete_user, stored, add_user, matches,
  validate_password,
}

-- What the store relies on: bcrypt recognises a password by its hash.
pub record IsSound (bcrypt : Bcrypt) : Type 0 where
  pub recognises :
      (salt : ℕ) (password h : Text)
      → bcrypt.hash salt password ≡ some h
      → bcrypt.compare h password ≡ true

module _ (bcrypt : Bcrypt) where
  matches-stored :
      IsSound bcrypt
      → (salt : ℕ) (password : Text) (u : User) → u.password ≡ stored bcrypt salt password
      → matches bcrypt u password ≡ true
  unfolding matches stored
  matches-stored sound salt password u e = elim (Option-cases (bcrypt.hash salt password)) [
    | inl q ↦
        let e' : u.password ≡ password = rw (q, stored) at e in
        ground (arith, ==_iff u.password password)
    | inr (h, q) ↦
        let e' : u.password ≡ h = rw (q, stored) at e in
        ground (arith, sound.recognises salt password h q)
  ]

-- A password is accepted exactly for an enabled user whose stored text bcrypt takes for its hash, or
-- is equal to it.
pub validate_password_iff :
    (bcrypt : Bcrypt) (name password : Text) (s : UserStore)
    → (validate_password bcrypt name password s ≡ true) ↔ (
        (u : User) × (get_user name s ≡ some u)
        × (u.enabled ≡ true)
        × ((bcrypt.compare u.password password ≡ true) ⊎ (u.password ≡ password)))
unfolding validate_password get_user
validate_password_iff bcrypt name password s = (
  go (Dict.get s.users name),
  λ w.
      let (u, q, on, m) = w in
      rw (q, validate_password) (ground (arith, ==_iff u.password password)),
)
  where
    go :
        (o : Option User)
        → ((elim o [
          | none ↦ false
          | some u ↦ if not u.enabled then false else matches bcrypt u password
        ])
            ≡ true)
        → ((u : User) × (o ≡ some u)
            × (u.enabled ≡ true)
            × ((bcrypt.compare u.password password ≡ true) ⊎ (u.password ≡ password)))
    go none e = cc
    go (some u) e = (u, refl, ground arith, ground (arith, ==_iff u.password password))

-- A user can log in with the password that the account was made with, whether bcrypt hashed it or
-- refused it; once the user is deleted no password is accepted; and no other user is touched.
pub add_user-validate_password :
    (bcrypt : Bcrypt) (salt : ℕ) (name password secret role : Text) (s : UserStore)
    → IsSound bcrypt
    → (validate_password bcrypt name password (add_user bcrypt salt name password secret role s)
        ≡ true)
      × ((p : Text)
          → validate_password bcrypt name p
              (delete_user name (add_user bcrypt salt name password secret role s))
            ≡ false)
      × ((other p : Text)
          → name ≢ other
          → validate_password bcrypt other p (add_user bcrypt salt name password secret role s)
            ≡ validate_password bcrypt other p s)
unfolding validate_password add_user delete_user
add_user-validate_password bcrypt salt name password secret role s sound = (
  rw (get-put, ==_refl, validate_password, add_user)
      (matches-stored bcrypt sound salt password
        (record {
          username = name;
          password = stored bcrypt salt password;
          totp_secret = secret;
          role = role;
          enabled = true;
        })
        refl),
  λ p. rw (get-remove, ==_refl, validate_password, delete_user) refl,
  λ other p ne.
      let q : (name == other) ≡ false = ground (arith, ==_iff name other) in
      rw (get-put, q, validate_password, add_user) refl,
)

-- The stored text of an enabled user is itself accepted as the password, also where it is a hash.
pub stored_accepted :
    (bcrypt : Bcrypt) (name : Text) (u : User) (s : UserStore)
    → get_user name s ≡ some u
    → u.enabled ≡ true
    → validate_password bcrypt name u.password s ≡ true
stored_accepted bcrypt name u s found on =
    (validate_password_iff bcrypt name u.password s).1 (u, found, on, inr refl)

-- UpdateTOTPSecret sets the secret of a known user and reports so; of an unknown one it changes
-- nothing and reports that. Name, password, role and the other users stay.
pub update_totp_secret_lem :
    (name secret : Text) (s : UserStore)
    → ((u : User)
        → get_user name s ≡ some u
        → ((update_totp_secret name secret s).1 ≡ true)
          × (get_user name (update_totp_secret name secret s).0
              ≡ some (record u { totp_secret = secret })))
      × (get_user name s ≡ none → update_totp_secret name secret s ≡ (s, false))
      × ((other : Text)
          → name ≢ other
          → get_user other (update_totp_secret name secret s).0 ≡ get_user other s)
unfolding get_user update_totp_secret
update_totp_secret_lem name secret s = (
  λ u q. (rw (q, update_totp_secret) refl, rw (q, update_totp_secret) (rw (get-put, ==_refl) refl)),
  λ q. rw (q, update_totp_secret) refl,
  λ other ne. elim (Option-cases (Dict.get s.users name)) [
    | inl q ↦ rw (q, update_totp_secret) refl
    | inr (u, q) ↦
        rw (q, update_totp_secret)
          (let n : (name == other) ≡ false = ground (arith, ==_iff name other) in
            rw (get-put, n) refl)
  ],
)

-- The second factor of a user does not bear on any password.
pub validate_password-update_totp_secret :
    (bcrypt : Bcrypt) (name secret user password : Text) (s : UserStore)
    → validate_password bcrypt user password (update_totp_secret name secret s).0
      ≡ validate_password bcrypt user password s
unfolding validate_password update_totp_secret matches
validate_password-update_totp_secret bcrypt name secret user password s =
    elim (Option-cases (Dict.get s.users name)) [
      | inl q ↦ rw (q, update_totp_secret) refl
      | inr (u, q) ↦ elim (Bool-cases (name == user)) [
        | inl same ↦
            rw (q, update_totp_secret)
              (rw (← (==_iff name user).0 same) (rw (get-put, ==_refl, q, validate_password) refl))
        | inr other ↦ rw (q, update_totp_secret) (rw (get-put, other, validate_password) refl)
      ]
    ]
