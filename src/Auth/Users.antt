-- ===== src/Auth/Users.antt =====
-- internal/master/auth/auth.go: the table of users. bcrypt is a parameter; its salt is an argument.
pub mod Laws
use m_cloud.Base.{
  ℕ, Bool, true, false, ◌&&◌, ◌||◌, not, List, [], Text, ◌==◌, if◌then◌else◌, Option, none, some,
}
use m_cloud.Base.Int.{ℤ}
use m_cloud.Auth.Totp.{Otp, validate_code}
use m_cloud.Dict
use m_cloud.Dict.{Dict}

pub record User : Type 0 where
  pub username : Text
  pub password : Text
  pub totp_secret : Text
  pub role : Text
  pub enabled : Bool

pub record UserStore : Type 0 where
  pub users : Dict User

abbrev pub init : UserStore
init = record { users = Dict.empty }

-- GenerateFromPassword with a salt, and CompareHashAndPassword of a hash with a password.
pub record Bcrypt : Type 0 where
  pub hash : ℕ → Text → Option Text
  pub compare : Text → Text → Bool

unfoldable pub get_user : Text → UserStore → Option User
get_user name s = Dict.get s.users name

unfoldable pub update_totp_secret : Text → Text → UserStore → UserStore × Bool
update_totp_secret name secret s = elim (Dict.get s.users name) [
  | none ↦ (s, false)
  | some u ↦ (record { users = Dict.put s.users name (record u { totp_secret = secret }) }, true)
]

unfoldable pub delete_user : Text → UserStore → UserStore
delete_user name s = record { users = Dict.remove s.users name }

unfoldable pub list_users : UserStore → List User
list_users s = Dict.values s.users

module _ (bcrypt : Bcrypt) where
  -- The stored form of a password: as it is where bcrypt fails.
  unfoldable pub stored : ℕ → Text → Text
  stored salt password = elim (bcrypt.hash salt password) [ none ↦ password | some h ↦ h ]

  unfoldable pub add_user : ℕ → Text → Text → Text → Text → UserStore → UserStore
  unfolding stored
  add_user salt name password totp_secret role s = record {
    users = Dict.put s.users name (record {
      username = name;
      password = stored salt password;
      totp_secret = totp_secret;
      role = role;
      enabled = true;
    });
  }

  -- The comparison of ValidatePassword: by bcrypt, then byte by byte.
  unfoldable pub matches : User → Text → Bool
  matches u password = bcrypt.compare u.password password || u.password == password

  unfoldable pub validate_password : Text → Text → UserStore → Bool
  unfolding matches
  validate_password name password s = elim (Dict.get s.users name) [
    | none ↦ false
    | some u ↦ if not u.enabled then false else matches u password
  ]

-- ValidateTOTP, whose code is checked by ValidateCode; `none` is the panic of that.
unfoldable pub validate_totp : Otp → ℤ → Text → Text → UserStore → Option Bool
validate_totp lib now name code s = elim (Dict.get s.users name) [
  | none ↦ some false
  | some u ↦
      if not u.enabled || u.totp_secret == []
      then some false
      else validate_code lib now u.totp_secret code
]
