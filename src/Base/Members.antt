-- ===== src/Base/Members.antt =====
-- Membership in lists, and predicates of their items.
use Prim.Native.Nat.{ℕ, zero, suc}
use mathlib.Core.Path.{◌≡◌, refl, ap}
use mathlib.Core.Logic.{◌⊎◌, inl, inr}
use mathlib.Core.List.{List, [], ◌∷◌, ◌++◌, map, reverse, reverse-append}
use mathlib.Core.Bool.{Bool, true}
use m_cloud.Base.Tests.{if◌then◌else◌, Bool-cases}
use native.Mathlib.Omega.{arith}
use m_cloud.Base.Lists.{drop}

-- Membership as a sum over the places of a list, which case splits take apart.
abbrev pub In : {A : Type 0} → A → List A → Type 0
In a [] = ⊥
In a (x ∷ xs) = (a ≡ x) ⊎ In a xs

-- A predicate of every item.
abbrev pub All : {A : Type 0} → (A → Type 0) → List A → Type 0
All P [] = Unit
All P (x ∷ xs) = P x × All P xs

module _ {A : Type 0} where
  pub All-In : (P : A → Type 0) (xs : List A) (a : A) → All P xs → In a xs → P a
  All-In P [] a h m = elim m [ ]
  All-In P (x ∷ xs) a h (inl e) = rw e h.0
  All-In P (x ∷ xs) a h (inr m) = All-In P xs a h.1 m

  pub All-of_In : (P : A → Type 0) (xs : List A) → ((a : A) → In a xs → P a) → All P xs
  All-of_In P [] h = tt
  All-of_In P (x ∷ xs) h = (h x (inl refl), All-of_In P xs (λ a m. h a (inr m)))

  pub All-append : (P : A → Type 0) (xs ys : List A) → All P xs → All P ys → All P (xs ++ ys)
  All-append P [] ys hx hy = hy
  All-append P (x ∷ xs) ys hx hy = (hx.0, All-append P xs ys hx.1 hy)

  pub In-append_left : (a : A) (xs ys : List A) → In a xs → In a (xs ++ ys)
  In-append_left a [] ys m = elim m [ ]
  In-append_left a (x ∷ xs) ys (inl e) = inl e
  In-append_left a (x ∷ xs) ys (inr m) = inr (In-append_left a xs ys m)

  pub In-append_right : (a : A) (xs ys : List A) → In a ys → In a (xs ++ ys)
  In-append_right a [] ys m = m
  In-append_right a (x ∷ xs) ys m = inr (In-append_right a xs ys m)

  pub In-append_split : (a : A) (xs ys : List A) → In a (xs ++ ys) → In a xs ⊎ In a ys
  In-append_split a [] ys m = inr m
  In-append_split a (x ∷ xs) ys (inl e) = inl (inl e)
  In-append_split a (x ∷ xs) ys (inr m) = ground (arith, In-append_split a xs ys m)

module _ {A B : Type 0} (f : A → B) where
  pub In-map : (a : A) (xs : List A) → In a xs → In (f a) (map f xs)
  In-map a [] m = elim m [ ]
  In-map a (x ∷ xs) (inl e) = inl (ap f e)
  In-map a (x ∷ xs) (inr m) = inr (In-map a xs m)

  pub In-map_split : (b : B) (xs : List A) → In b (map f xs) → (a : A) × In a xs × (b ≡ f a)
  In-map_split b [] m = elim m [ ]
  In-map_split b (x ∷ xs) (inl e) = (x, inl refl, e)
  In-map_split b (x ∷ xs) (inr m) = let (a, n, e) = In-map_split b xs m in (a, inr n, e)

module _ {A : Type 0} where
  -- The items that pass a test.
  abbrev pub filter : (A → Bool) → List A → List A
  filter p [] = []
  filter p (x ∷ xs) = let rest = filter p xs in if p x then x ∷ rest else rest

  pub In-filter : (p : A → Bool) (a : A) (xs : List A) → In a xs → p a ≡ true → In a (filter p xs)
  In-filter p a [] m h = elim m [ ]
  In-filter p a (x ∷ xs) (inl e) h = rw (rw e at h) (inl e)
  In-filter p a (x ∷ xs) (inr m) h = elim (Bool-cases (p x)) [
    | inl q ↦ rw q (inr (In-filter p a xs m h))
    | inr q ↦ rw q (In-filter p a xs m h)
  ]

  pub In-filter_split :
      (p : A → Bool) (a : A) (xs : List A) → In a (filter p xs) → In a xs × (p a ≡ true)
  In-filter_split p a [] m = elim m [ ]
  In-filter_split p a (x ∷ xs) m = ground (arith, In-filter_split p a xs)

-- No item stands twice in the list.
abbrev pub Distinct : {A : Type 0} → List A → Type 0
Distinct [] = Unit
Distinct (x ∷ xs) = (¬ In x xs) × Distinct xs

module _ {A : Type 0} where
  pub All-drop : (P : A → Type 0) (n : ℕ) (xs : List A) → All P xs → All P (drop n xs)
  All-drop P zero xs h = h
  All-drop P (suc n) [] h = h
  All-drop P (suc n) (x ∷ xs) h = All-drop P n xs h.1

  pub All-append_right : (P : A → Type 0) (xs ys : List A) → All P (xs ++ ys) → All P ys
  All-append_right P [] ys h = h
  All-append_right P (x ∷ xs) ys h = All-append_right P xs ys h.1

  pub All-reverse : (P : A → Type 0) (xs : List A) → All P xs → All P (reverse xs)
  All-reverse P [] h = tt
  All-reverse P (x ∷ xs) h =
      rw (reverse-append (x ∷ []) xs)
        (All-append P (reverse xs) (x ∷ []) (All-reverse P xs h.1) (h.0, tt))

  pub All-weaken : (P Q : A → Type 0) (xs : List A) → ((a : A) → P a → Q a) → All P xs → All Q xs
  All-weaken P Q [] f h = tt
  All-weaken P Q (x ∷ xs) f h = (f x h.0, All-weaken P Q xs f h.1)
