-- ===== src/Auth/Totp.antt =====
-- internal/master/auth/totp.go: one-time codes. HMAC-SHA1 and base32 are parameters. Times are
-- seconds since 1970, as integers; `none` is a run-time panic.
pub mod Laws
pub mod Window
use m_cloud.Base.{
  ℕ, zero, suc, ◌+◌, ◌-◌, ◌*◌, ◌/◌, ◌%◌, ◌^◌, Bool, true, false, ◌&&◌, List, [], ◌∷◌, ◌++◌, Text,
  ◌==◌, eqb, leb, if◌then◌else◌, Option, none, some, length, get_elem?, map,
}
use m_cloud.Base.Int.{ℤ, pos, negsuc, ◌+ℤ◌}

abbrev pub totp_period : ℕ
totp_period = 30

abbrev pub totp_digits : ℕ
totp_digits = 6

-- The offsets -totpSkew … totpSkew of the loop in ValidateCode, each times the period.
abbrev pub shifts : List ℤ
shifts = negsuc 29 ∷ pos 0 ∷ pos 30 ∷ []

pub record Otp : Type 0 where
  pub hmac : Text → Text → Text
  pub base32_decode : Text → Option Text

-- uint64(t)
unfoldable pub to_uint64 : ℤ → ℕ
to_uint64 (pos n) = n % 2 ^ 64
to_uint64 (negsuc n) = (2 ^ 64 - 1 - n % 2 ^ 64) % 2 ^ 64

-- binary.BigEndian.PutUint64
unfoldable pub be64 : ℕ → Text
be64 n =
    (n / 2 ^ 56 % 256)
    ∷ (n / 2 ^ 48 % 256)
    ∷ (n / 2 ^ 40 % 256)
    ∷ (n / 2 ^ 32 % 256)
    ∷ (n / 2 ^ 24 % 256)
    ∷ (n / 2 ^ 16 % 256)
    ∷ (n / 2 ^ 8 % 256)
    ∷ (n % 256)
    ∷ []

-- fmt.Sprintf("%0kd", n) for a number n below 10 ^ k
unfoldable pub padded : ℕ → ℕ → Text
padded zero n = []
padded (suc k) n = padded k (n / 10) ++ (48 + n % 10) ∷ []

-- strings.ToUpper of an ASCII text
unfoldable pub to_upper : Text → Text
to_upper = map (λ c. if leb b'a' c && leb c b'z' then c - 32 else c)

-- hash[len(hash)-1] & 0x0f
unfoldable pub offset : Text → Option ℕ
offset hash = elim (get_elem? hash (length hash - 1)) [ none ↦ none | some b ↦ some (b % 16) ]

-- binary.BigEndian.Uint32(hash[o:o+4]) & 0x7fffffff
unfoldable pub word_at : Text → ℕ → Option ℕ
word_at hash o = elim (get_elem? hash o) [
  | none ↦ none
  | some a ↦ elim (get_elem? hash (o + 1)) [
    | none ↦ none
    | some b ↦ elim (get_elem? hash (o + 2)) [
      | none ↦ none
      | some c ↦ elim (get_elem? hash (o + 3)) [
        | none ↦ none
        | some d ↦ some ((a * 2 ^ 24 + b * 2 ^ 16 + c * 2 ^ 8 + d) % 2 ^ 31)
      ]
    ]
  ]
]

-- From the hash of the counter to the six digits.
unfoldable pub truncate : Text → Option Text
unfolding offset word_at padded
truncate hash = elim (offset hash) [
  | none ↦ none
  | some o ↦ elim (word_at hash o) [
    | none ↦ none
    | some w ↦ some (padded totp_digits (w % 1000000))
  ]
]

module _ (lib : Otp) where
  -- The code of a period, counted from 1970.
  unfoldable pub code_of_counter : Text → ℕ → Option Text
  unfolding truncate be64
  code_of_counter secret counter = truncate (lib.hmac secret (be64 counter))

  unfoldable pub generate_code : Text → ℤ → Option Text
  unfolding code_of_counter to_uint64
  generate_code secret timestamp = code_of_counter secret (to_uint64 timestamp / totp_period)

  -- The loop of ValidateCode.
  unfoldable pub any_shift : Text → Text → ℤ → List ℤ → Option Bool
  any_shift secret code now [] = some false
  any_shift secret code now (i ∷ is) =
      let rest = any_shift secret code now is in
      elim (generate_code secret (now +ℤ i)) [
        | none ↦ none
        | some expected ↦ if expected == code then some true else rest
      ]

  unfoldable pub validate_code : ℤ → Text → Text → Option Bool
  unfolding any_shift
  validate_code now secret code =
      if eqb (length code) totp_digits
      then elim (lib.base32_decode (to_upper secret)) [
        | none ↦ some false
        | some decoded ↦ any_shift decoded code now shifts
      ]
      else some false
