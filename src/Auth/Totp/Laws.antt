-- ===== src/Auth/Totp/Laws.antt =====
-- Codes are six digits, and which codes the check accepts.
use m_cloud.Base.{
  ℕ, zero, suc, ◌+◌, ◌-◌, ◌*◌, ◌/◌, ◌%◌, ◌^◌, ◌≤◌, ◌<◌, ◌≡◌, refl, [], ◌∷◌, arith, Text, some,
  length, length-append, get_elem?-lt, All, All-append,
}
use m_cloud.Base.Int.{ℤ}
use m_cloud.Auth.Totp.{
  Otp, totp_digits, padded, offset, word_at, truncate, code_of_counter, generate_code,
}

abbrev pub IsDigit : ℕ → Type 0
IsDigit c = (48 ≤ c) × (c ≤ 57)

length-padded : (k n : ℕ) → length (padded k n) ≡ k
unfolding padded
length-padded zero n = refl
length-padded (suc k) n =
    omega (arith, length-append (padded k (n / 10)) ((48 + n % 10) ∷ []), length-padded k (n / 10))

padded-IsDigit : (k n : ℕ) → All IsDigit (padded k n)
unfolding padded
padded-IsDigit zero n = tt
padded-IsDigit (suc k) n =
    All-append IsDigit (padded k (n / 10)) ((48 + n % 10) ∷ []) (padded-IsDigit k (n / 10))
      ((omega arith, omega arith), tt)

offset_total : (hash : Text) → length hash ≡ 20 → (o : ℕ) × (offset hash ≡ some o) × (o < 16)
unfolding offset
offset_total hash h =
    let (b, e) = get_elem?-lt (length hash - 1) hash (omega arith) in
    (b % 16, rw (e, offset) refl, omega arith)

word_at_total :
    (hash : Text) (o : ℕ) → length hash ≡ 20 → o < 16 → (w : ℕ) × (word_at hash o ≡ some w)
unfolding word_at
word_at_total hash o h lt =
    let (a, ea) = get_elem?-lt o hash (omega arith) in
    let (b, eb) = get_elem?-lt (o + 1) hash (omega arith) in
    let (c, ec) = get_elem?-lt (o + 2) hash (omega arith) in
    let (d, ed) = get_elem?-lt (o + 3) hash (omega arith) in
    ((a * 2 ^ 24 + b * 2 ^ 16 + c * 2 ^ 8 + d) % 2 ^ 31, rw (ea, eb, ec, ed, word_at) refl)

truncate_total :
    (hash : Text)
    → length hash ≡ 20
    → (code : Text) × (truncate hash ≡ some code) × (length code ≡ totp_digits) × All IsDigit code
unfolding truncate
truncate_total hash h =
    let (o, eo, lt) = offset_total hash h in
    let (w, ew) = word_at_total hash o h lt in
    (
      padded totp_digits (w % 1000000),
      rw (eo, ew, truncate) refl,
      length-padded totp_digits (w % 1000000),
      padded-IsDigit totp_digits (w % 1000000),
    )

-- With a hash of 20 bytes, as HMAC-SHA1 gives, generateCode reads no byte out of range and returns
-- six decimal digits, for every secret and every time, a negative one too.
pub generate_code_total :
    (lib : Otp) (secret : Text) (timestamp : ℤ)
    → ((key message : Text) → length (lib.hmac key message) ≡ 20)
    → (code : Text) × (generate_code lib secret timestamp ≡ some code)
      × (length code ≡ 6)
      × All IsDigit code
unfolding generate_code code_of_counter
generate_code_total lib secret timestamp sized = truncate_total _ (sized secret _)
