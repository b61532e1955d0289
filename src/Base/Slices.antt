-- ===== src/Base/Slices.antt =====
-- The last items of a list, pages and reversals.
use Prim.Native.Nat.{ℕ, zero, suc, ◌+◌, ◌-◌, ◌≤◌, ◌<◌, min}
use mathlib.Core.Path.{◌≡◌, refl, ap, sym, subst, ◌∙◌}
use mathlib.Core.Logic.{inl, inr}
use mathlib.Core.List.{List, [], ◌∷◌, ◌++◌, reverse, reverse-append}
use mathlib.Core.Option.{some}
use m_cloud.Base.Tests.{if◌then◌else◌, Bool-cases, ltb, ltb→lt, some_inj}
use native.Mathlib.Omega.{arith}
use m_cloud.Base.Lists.{length, get_elem?, take, drop, length-append, length-drop, take-append-drop}

module _ {A : Type 0} where
  -- The last `n` items.
  abbrev pub take_last : ℕ → List A → List A
  take_last n xs = drop (length xs - n) xs

  pub length-take_last : (n : ℕ) (xs : List A) → length (take_last n xs) ≡ min n (length xs)
  length-take_last n xs = omega (arith, length-drop (length xs - n) xs)

  pub drop_all : (n : ℕ) (xs : List A) → length xs ≤ n → drop n xs ≡ []
  drop_all zero [] h = refl
  drop_all zero (x ∷ xs) h = absurd (omega arith)
  drop_all (suc n) [] h = refl
  drop_all (suc n) (x ∷ xs) h = drop_all n xs (omega arith)

  pub drop-nil : (n : ℕ) → drop {A = A} n [] ≡ []
  drop-nil zero = refl
  drop-nil (suc n) = refl

  pub drop-drop : (m n : ℕ) (xs : List A) → drop m (drop n xs) ≡ drop (n + m) xs
  drop-drop m zero xs = let e : zero + m ≡ m = omega arith in rw e refl
  drop-drop m (suc n) [] = rw (drop-nil m, drop-nil (suc n + m)) refl
  drop-drop m (suc n) (x ∷ xs) =
      let e : suc n + m ≡ suc (n + m) = omega arith in rw e (drop-drop m n xs)

  pub drop-append : (n : ℕ) (xs ys : List A) → n ≤ length xs → drop n (xs ++ ys) ≡ drop n xs ++ ys
  drop-append zero xs ys h = refl
  drop-append (suc n) [] ys h = absurd (omega arith)
  drop-append (suc n) (x ∷ xs) ys h = drop-append n xs ys (omega arith)

  pub length-reverse : (xs : List A) → length (reverse xs) ≡ length xs
  length-reverse [] = refl
  length-reverse (x ∷ xs) =
      rw (reverse-append (x ∷ []) xs)
        (omega (arith, length-append (reverse xs) (x ∷ []), length-reverse xs))

  pub drop-length_append : (xs ys : List A) → drop (length xs) (xs ++ ys) ≡ ys
  drop-length_append [] ys = refl
  drop-length_append (x ∷ xs) ys = drop-length_append xs ys

  -- To keep the last `n` items after each append is to keep the last `n` of all.
  pub take_last-append :
      (n : ℕ) (xs : List A) (y : A)
      → take_last n (take_last n xs ++ y ∷ []) ≡ take_last n (xs ++ y ∷ [])
  take_last-append n xs y =
      let a : ℕ = length xs - n in
      let shorter : length (drop a xs) ≡ length xs - a = length-drop a xs in
      let left : length (drop a xs ++ y ∷ []) ≡ length xs - a + 1 =
        omega (arith, length-append (drop a xs) (y ∷ []), shorter) in
      let right : length (xs ++ y ∷ []) ≡ length xs + 1 = length-append xs (y ∷ []) in
      let index : a + (length xs - a + 1 - n) ≡ length xs + 1 - n = omega arith in
      rw (left, right, ← drop-append a xs (y ∷ []) (omega arith), drop-drop) (rw index refl)

  pub take_last-take_last :
      (m n : ℕ) (xs : List A) → take_last m (take_last n xs) ≡ take_last (min m n) xs
  take_last-take_last m n xs =
      let a : ℕ = length xs - n in
      let shorter : length (drop a xs) ≡ length xs - a = length-drop a xs in
      let index : a + (length xs - a - m) ≡ length xs - min m n = omega arith in
      rw (shorter, drop-drop) (rw index refl)

  -- `if len(xs) > n { xs = xs[len(xs)-n:] }`
  abbrev pub trim : ℕ → List A → List A
  trim n xs = if ltb n (length xs) then drop (length xs - n) xs else xs

  pub trim-take_last : (n : ℕ) (xs : List A) → trim n xs ≡ take_last n xs
  trim-take_last n xs = elim (Bool-cases (ltb n (length xs))) [
    | inl e ↦ rw e refl
    | inr e ↦ let z : length xs - n ≡ 0 = ground arith in rw (e, z) refl
  ]

  pub take-append_le : (k : ℕ) (xs ys : List A) → k ≤ length xs → take k (xs ++ ys) ≡ take k xs
  take-append_le zero xs ys h = refl
  take-append_le (suc k) [] ys h = absurd (omega arith)
  take-append_le (suc k) (x ∷ xs) ys h = ap (λ t. x ∷ t) (take-append_le k xs ys (omega arith))

  pub take-suc :
      (i : ℕ) (xs : List A) (x : A)
      → get_elem? xs i ≡ some x
      → take (suc i) xs ≡ take i xs ++ x ∷ []
  take-suc i [] x h = cc
  take-suc zero (y ∷ xs) x h = ap (λ z. z ∷ []) (some_inj h)
  take-suc (suc i) (y ∷ xs) x h = ap (λ t. y ∷ t) (take-suc i xs x h)

  pub get_elem?-lt : (i : ℕ) (xs : List A) → i < length xs → (x : A) × (get_elem? xs i ≡ some x)
  get_elem?-lt i [] h = absurd (omega arith)
  get_elem?-lt zero (y ∷ xs) h = (y, refl)
  get_elem?-lt (suc i) (y ∷ xs) h = get_elem?-lt i xs (omega arith)

  pub drop-reverse : (k : ℕ) (xs : List A) → drop k (reverse xs) ≡ reverse (take (length xs - k) xs)
  drop-reverse k xs = elim (Bool-cases (ltb (length xs) k)) [
    | inl e ↦
        let z : length xs - k ≡ 0 = ground arith in
        rw z (drop_all k (reverse xs) (omega (arith, length-reverse xs, ltb→lt (length xs) k e)))
    | inr e ↦
        let m : ℕ = length xs - k in
        let whole : reverse xs ≡ reverse (drop m xs) ++ reverse (take m xs) =
          ap reverse (sym (take-append-drop m xs)) ∙ reverse-append (take m xs) (drop m xs) in
        let size : length (reverse (drop m xs)) ≡ k =
          let le : k ≤ length xs = ground arith in
          omega (arith, length-reverse (drop m xs), length-drop m xs) in
        rw whole (
          subst (λ n. drop n (reverse (drop m xs) ++ reverse (take m xs)) ≡ reverse (take m xs))
            size (drop-length_append (reverse (drop m xs)) (reverse (take m xs))))
  ]

  pub take-nil : (n : ℕ) → take {A = A} n [] ≡ []
  take-nil zero = refl
  take-nil (suc n) = refl
