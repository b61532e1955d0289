-- ===== src/Auth/Totp/Window.antt =====
-- Which codes ValidateCode accepts.
use m_cloud.Base.{
  ℕ, ◌+◌, ◌-◌, ◌/◌, ◌^◌, ◌≤◌, ◌<◌, ◌≡◌, ◌↔◌, ◌⊎◌, refl, sym, ap, ◌∙◌, inl, inr, true, false, arith,
  Text, ◌==◌, ==_iff, eqb, eqb→eq, if◌then◌else◌, some, length, Bool-cases, Option-cases, some_inj,
}
use m_cloud.Base.Int.{pos, negsuc, ◌+ℤ◌}
use m_cloud.Auth.Totp.{
  Otp, shifts, to_uint64, to_upper, code_of_counter, generate_code, any_shift, validate_code,
}
use m_cloud.Auth.Totp.Laws.{generate_code_total}

before : (n : ℕ) → 30 ≤ n → n < 2 ^ 62 → to_uint64 (pos n +ℤ negsuc 29) / 30 ≡ n / 30 - 1
unfolding to_uint64 ◌+ℤ◌
before n h k = ground arith

present : (n : ℕ) → n < 2 ^ 62 → to_uint64 (pos n +ℤ pos 0) / 30 ≡ n / 30
unfolding to_uint64 ◌+ℤ◌
present n k = ground arith

after : (n : ℕ) → n < 2 ^ 62 → to_uint64 (pos n +ℤ pos 30) / 30 ≡ n / 30 + 1
unfolding to_uint64 ◌+ℤ◌
after n k = ground arith

module _ (lib : Otp) where
  -- The code that RFC 6238 gives for a counter.
  abbrev pub IsCode : Text → ℕ → Text → Type 0
  IsCode secret counter code = code_of_counter lib secret counter ≡ some code

  any_shift_lem :
      (secret code : Text) (n : ℕ) (a b c : Text)
      → generate_code lib secret (pos n +ℤ negsuc 29) ≡ some a
      → generate_code lib secret (pos n +ℤ pos 0) ≡ some b
      → generate_code lib secret (pos n +ℤ pos 30) ≡ some c
      → any_shift lib secret code (pos n) shifts ≡ (
          if a == code
          then some true
          else if b == code
          then some true
          else if c == code
          then some true
          else some false)
  unfolding any_shift
  any_shift_lem secret code n a b c ea eb ec = rw (ea, eb, ec, any_shift) refl

  any_shift_iff :
      (key code : Text) (n : ℕ)
      → ((k message : Text) → length (lib.hmac k message) ≡ 20)
      → 30 ≤ n
      → n < 2 ^ 62
      → (any_shift lib key code (pos n) shifts ≡ some true)
        ↔ (IsCode key (n / 30 - 1) code ⊎ IsCode key (n / 30) code ⊎ IsCode key (n / 30 + 1) code)
  unfolding generate_code
  any_shift_iff key code n sized early late =
      let (a, ea, _, _) = generate_code_total lib key (pos n +ℤ negsuc 29) sized in
      let (b, eb, _, _) = generate_code_total lib key (pos n +ℤ pos 0) sized in
      let (c, ec, _, _) = generate_code_total lib key (pos n +ℤ pos 30) sized in
      let pa : IsCode key (n / 30 - 1) a =
        ap (code_of_counter lib key) (sym (before n early late)) ∙ ea in
      let pb : IsCode key (n / 30) b = ap (code_of_counter lib key) (sym (present n late)) ∙ eb in
      let pc : IsCode key (n / 30 + 1) c = ap (code_of_counter lib key) (sym (after n late)) ∙ ec in
      let all = any_shift_lem key code n a b c ea eb ec in
      (
        λ e. ground (arith, all, pa, pb, pc, ==_iff a code, ==_iff b code, ==_iff c code),
        λ w. ground (arith, all, pa, pb, pc, ==_iff a code, ==_iff b code, ==_iff c code),
      )

-- Between 30 seconds and 2^62 seconds after 1970, a code is accepted exactly if it has six bytes, the
-- secret is base32, and the code is that of the present period or of the one before or after it.
pub validate_code_iff :
    (lib : Otp) (n : ℕ) (secret code : Text)
    → ((key message : Text) → length (lib.hmac key message) ≡ 20)
    → 30 ≤ n
    → n < 2 ^ 62
    → (validate_code lib (pos n) secret code ≡ some true) ↔ (
        (length code ≡ 6)
        × ((key : Text) × (lib.base32_decode (to_upper secret) ≡ some key)
            × (IsCode lib key (n / 30 - 1) code
                ⊎ IsCode lib key (n / 30) code
                ⊎ IsCode lib key (n / 30 + 1) code)))
unfolding validate_code
validate_code_iff lib n secret code sized early late = (
  λ e. elim (Bool-cases (eqb (length code) 6)) [
    | inl six ↦ elim (Option-cases (lib.base32_decode (to_upper secret))) [
      | inl q ↦ absurd (cc (rw (six, q, validate_code) at e))
      | inr (key, q) ↦ (
        eqb→eq (length code) 6 six,
        (
          key,
          q,
          (any_shift_iff lib key code n sized early late).0 (rw (six, q, validate_code) at e),
        ),
      )
    ]
    | inr other ↦ absurd (cc (rw (other, validate_code) at e))
  ],
  λ w.
      let (six, (key, q, near)) = w in
      rw (six, q, validate_code) ((any_shift_iff lib key code n sized early late).1 near),
)

near_counter :
    (made used : ℕ)
    → 30 ≤ used
    → made ≤ used + 30
    → used ≤ made + 30
    → (made / 30 ≡ used / 30 - 1) ⊎ (made / 30 ≡ used / 30) ⊎ (made / 30 ≡ used / 30 + 1)
near_counter made used early h k = ground arith

uint64_counter : (made : ℕ) → made < 2 ^ 63 → to_uint64 (pos made) / 30 ≡ made / 30
unfolding to_uint64
uint64_counter made h = omega arith

-- A code made at one second is accepted for the next 30 seconds, and in the 30 seconds before.
pub validate-generate_code :
    (lib : Otp) (made used : ℕ) (secret key code : Text)
    → ((k message : Text) → length (lib.hmac k message) ≡ 20)
    → lib.base32_decode (to_upper secret) ≡ some key
    → generate_code lib key (pos made) ≡ some code
    → 30 ≤ used
    → used < 2 ^ 62
    → made ≤ used + 30
    → used ≤ made + 30
    → validate_code lib (pos used) secret code ≡ some true
unfolding generate_code
validate-generate_code lib made used secret key code sized q e early late h k =
    let (c, ec, six, _) = generate_code_total lib key (pos made) sized in
    let same : c ≡ code = some_inj (sym ec ∙ e) in
    let counter : IsCode lib key (made / 30) code =
      ap (code_of_counter lib key) (sym (uint64_counter made (omega arith))) ∙ e in
    (validate_code_iff lib used secret code sized early late).1 (
      ap length (sym same) ∙ six,
      (
        key,
        q,
        elim (near_counter made used early h k) [
          | inl p ↦ inl (rw p at counter)
          | inr (inl p) ↦ inr (inl (rw p at counter))
          | inr (inr p) ↦ inr (inr (rw p at counter))
        ],
      ),
    )
