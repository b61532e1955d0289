-- ===== src/Base/Numbers.antt =====
-- Decimal numbers: strconv.ParseUint and Atoi with their errors ignored, and %d.
use m_cloud.Base.{
  ℕ, zero, suc, ◌+◌, ◌-◌, ◌*◌, ◌/◌, ◌%◌, ◌^◌, ◌≤◌, ◌<◌, ◌≡◌, ◌≢◌, refl, ◌∙◌, Bool, ◌&&◌, [], ◌∷◌,
  ◌++◌, arith, Text, eqb, leb, ltb, if◌then◌else◌, Bool-cases, inl, inr, is_space,
}
use m_cloud.Base.Words.{IsSolid, IsWord}
use m_cloud.Base.Int.{ℤ, pos, negsuc}

abbrev pub max_uint64 : ℕ
max_uint64 = 2 ^ 64 - 1

unfoldable pub is_digit : ℕ → Bool
is_digit c = leb 48 c && leb c 57

-- The loop of ParseUint(s, 10, 64): 0 at a byte that is no digit, the largest number where the value
-- leaves 64 bits.
unfoldable pub uint_digits : ℕ → Text → ℕ
unfolding is_digit
uint_digits n [] = n
uint_digits n (c ∷ s) =
    let m = n * 10 + (c - 48) in
    let rest = uint_digits m s in
    if is_digit c then if ltb m (2 ^ 64) then rest else max_uint64 else 0

-- v, _ := strconv.ParseUint(s, 10, 64)
unfoldable pub parse_uint : Text → ℕ
unfolding uint_digits
parse_uint [] = 0
parse_uint (c ∷ s) = uint_digits 0 (c ∷ s)

-- -n, for a number n of at most 2^63
unfoldable pub negated : ℕ → ℤ
negated zero = pos 0
negated (suc n) = negsuc n

unfoldable pub clamp : ℕ → ℤ
clamp n = if ltb n (2 ^ 63) then pos n else pos (2 ^ 63 - 1)

-- v, _ := strconv.Atoi(s)
unfoldable pub atoi : Text → ℤ
unfolding parse_uint negated clamp
atoi [] = pos 0
atoi (c ∷ s) =
    if eqb c b'-'
    then if ltb (2 ^ 63) (parse_uint s) then negsuc (2 ^ 63 - 1) else negated (parse_uint s)
    else if eqb c b'+'
    then clamp (parse_uint s)
    else clamp (parse_uint (c ∷ s))

-- The digits of n; the fuel n + 1 is enough, since n / 10 < n.
unfoldable pub digits_of : ℕ → ℕ → Text
digits_of zero n = []
digits_of (suc k) n =
    let front = digits_of k (n / 10) in
    if ltb n 10 then (48 + n) ∷ [] else front ++ (48 + n % 10) ∷ []

-- fmt.Sprintf("%d", n)
unfoldable pub decimal : ℕ → Text
unfolding digits_of
decimal n = digits_of (suc n) n

abbrev AllDigits : Text → Type 0
AllDigits [] = Unit
AllDigits (c ∷ s) = (48 ≤ c) × (c ≤ 57) × AllDigits s

-- The value of a list of digits, before any bound.
abbrev value : ℕ → Text → ℕ
value n [] = n
value n (c ∷ s) = value (n * 10 + (c - 48)) s

value_grows : (n : ℕ) (s : Text) → n ≤ value n s
value_grows n [] = omega arith
value_grows n (c ∷ s) = omega (arith, value_grows (n * 10 + (c - 48)) s)

value-append : (n : ℕ) (s : Text) (c : ℕ) → value n (s ++ c ∷ []) ≡ value n s * 10 + (c - 48)
value-append n [] c = refl
value-append n (d ∷ s) c = value-append (n * 10 + (d - 48)) s c

AllDigits-append : (s : Text) (c : ℕ) → AllDigits s → 48 ≤ c → c ≤ 57 → AllDigits (s ++ c ∷ [])
AllDigits-append [] c h l u = (l, u, tt)
AllDigits-append (d ∷ s) c h l u = (h.0, h.1, AllDigits-append s c h.2 l u)

uint_digits-value :
    (n : ℕ) (s : Text) → AllDigits s → value n s < 2 ^ 64 → uint_digits n s ≡ value n s
unfolding uint_digits is_digit
uint_digits-value n [] h small = refl
uint_digits-value n (c ∷ s) h small =
    ground
      (arith, value_grows (n * 10 + (c - 48)) s, uint_digits-value (n * 10 + (c - 48)) s h.2 small)

digits_of-AllDigits : (k n : ℕ) → AllDigits (digits_of k n)
unfolding digits_of
digits_of-AllDigits zero n = tt
digits_of-AllDigits (suc k) n = elim (Bool-cases (ltb n 10)) [
  | inl e ↦ rw e (omega arith, ground arith, tt)
  | inr e ↦ rw e (
      AllDigits-append (digits_of k (n / 10)) (48 + n % 10) (digits_of-AllDigits k (n / 10))
        (omega arith) (omega arith))
]

value-digits_of : (k n : ℕ) → n < k → value 0 (digits_of k n) ≡ n
unfolding digits_of
value-digits_of zero n h = absurd (omega arith)
value-digits_of (suc k) n h = elim (Bool-cases (ltb n 10)) [
  | inl e ↦ rw e (omega arith)
  | inr e ↦
      let smaller : n / 10 < k = let big : 10 ≤ n = ground arith in omega arith in
      rw (e, value-append) (omega (arith, value-digits_of k (n / 10) smaller))
]

parse_uint-value : (s : Text) → s ≢ [] → AllDigits s → value 0 s < 2 ^ 64 → parse_uint s ≡ value 0 s
unfolding parse_uint
parse_uint-value [] some_digit h small = absurd (some_digit refl)
parse_uint-value (c ∷ s) some_digit h small = uint_digits-value 0 (c ∷ s) h small

append-ne_nil : (s : Text) (c : ℕ) → s ++ c ∷ [] ≢ []
append-ne_nil [] c e = cc
append-ne_nil (d ∷ s) c e = cc

decimal-ne_nil : (n : ℕ) → decimal n ≢ []
unfolding decimal digits_of
decimal-ne_nil n e = elim (Bool-cases (ltb n 10)) [
  | inl q ↦ let e' : (48 + n) ∷ [] ≡ [] = rw (q, decimal, digits_of) at e in cc e'
  | inr q ↦ append-ne_nil (digits_of n (n / 10)) (48 + n % 10) (rw (q, decimal, digits_of) at e)
]

-- A number below 2^64 that is printed is read back.
pub parse_uint-decimal : (n : ℕ) → n < 2 ^ 64 → parse_uint (decimal n) ≡ n
parse_uint-decimal n small =
    let whole : value 0 (decimal n) ≡ n =
      unfold decimal in value-digits_of (suc n) n (omega arith) in
    parse_uint-value (decimal n) (decimal-ne_nil n)
      (unfold decimal in digits_of-AllDigits (suc n) n) (omega (arith, whole))
    ∙ whole

uint_digits_bound : (n : ℕ) (s : Text) → n < 2 ^ 64 → uint_digits n s < 2 ^ 64
unfolding uint_digits
uint_digits_bound n [] h = h
uint_digits_bound n (c ∷ s) h = ground (arith, uint_digits_bound (n * 10 + (c - 48)) s)

-- Whatever the text, the number is one of 64 bits.
pub parse_uint_bound : (s : Text) → parse_uint s < 2 ^ 64
unfolding parse_uint
parse_uint_bound [] = omega arith
parse_uint_bound (c ∷ s) = uint_digits_bound 0 (c ∷ s) (omega arith)

AllDigits-IsSolid : (s : Text) → AllDigits s → IsSolid s
unfolding is_space
AllDigits-IsSolid [] h = tt
AllDigits-IsSolid (c ∷ s) h = (ground arith, AllDigits-IsSolid s h.2)

-- A printed number is a word.
pub decimal-IsWord : (n : ℕ) → IsWord (decimal n)
decimal-IsWord n = (
  decimal-ne_nil n,
  AllDigits-IsSolid (decimal n) (unfold decimal in digits_of-AllDigits (suc n) n),
)
