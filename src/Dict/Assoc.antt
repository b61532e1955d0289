-- ===== src/Dict/Assoc.antt =====
-- The lookup lists behind `Dict`: a key's first entry counts.
use m_cloud.Base.{
  ◌≡◌, ◌↔◌, map, sym, Distinct, inl, inr, refl, ap, Bool, false, Option, none, some, List, [], ◌∷◌,
  arith, Text, ◌==◌, ==_iff, if◌then◌else◌, In,
}
use mathlib.Core.Option

abbrev pub Assoc {ℓ} : Type ℓ → Type ℓ
Assoc V = List (Text × V)

module _ {ℓ} {V : Type ℓ} where
  unfoldable pub value_at : Text → Assoc V → Option V
  value_at k [] = none
  value_at k ((j, v) ∷ l) = if j == k then some v else value_at k l

  unfoldable pub dropped : Text → Assoc V → Assoc V
  dropped k [] = []
  dropped k ((j, v) ∷ l) = let rest = dropped k l in if j == k then rest else (j, v) ∷ rest

  -- Each key once.
  unfoldable pub distinct : Assoc V → Assoc V
  unfolding dropped
  distinct [] = []
  distinct ((j, v) ∷ l) = (j, v) ∷ dropped j (distinct l)

  pub value_at-dropped :
      (k j : Text) (l : Assoc V)
      → value_at j (dropped k l) ≡ (if k == j then none else value_at j l)
  unfolding value_at dropped
  value_at-dropped k j [] = ground arith
  value_at-dropped k j ((i, v) ∷ l) =
      ground (arith, value_at-dropped k j l, ==_iff i k, ==_iff i j, ==_iff k j)

  pub value_at-distinct : (j : Text) (l : Assoc V) → value_at j (distinct l) ≡ value_at j l
  unfolding value_at distinct
  value_at-distinct j [] = refl
  value_at-distinct j ((i, v) ∷ l) =
      ground (arith, value_at-distinct j l, value_at-dropped i j (distinct l))

  -- Apply a function to each value.
  unfoldable pub mapped : (V → V) → Assoc V → Assoc V
  mapped f [] = []
  mapped f ((j, v) ∷ l) = (j, f v) ∷ mapped f l

  pub value_at-mapped :
      (f : V → V) (j : Text) (l : Assoc V) → value_at j (mapped f l) ≡ Option.map f (value_at j l)
  unfolding value_at mapped
  value_at-mapped f j [] = refl
  value_at-mapped f j ((i, v) ∷ l) = ground (arith, value_at-mapped f j l)

  -- Drop the entries that fail a test.
  unfoldable pub kept : (V → Bool) → Assoc V → Assoc V
  kept p [] = []
  kept p ((j, v) ∷ l) = let rest = kept p l in if p v then (j, v) ∷ rest else rest

  -- The value, where it passes the test.
  abbrev pub only_if : (V → Bool) → Option V → Option V
  only_if p none = none
  only_if p (some v) = if p v then some v else none

module _ {V : Type 0} where
  pub In-value_at : (k : Text) (v : V) (l : Assoc V) → value_at k l ≡ some v → In (k, v) l
  unfolding value_at
  In-value_at k v [] h = cc
  In-value_at k v ((j, w) ∷ l) h = ground (arith, In-value_at k v l, ==_iff j k)

  -- No entry of the list has the key.
  abbrev Fresh : Text → Assoc V → Type 0
  Fresh k [] = Unit
  Fresh k ((j, v) ∷ l) = ((j == k) ≡ false) × Fresh k l

  abbrev IsDistinct : Assoc V → Type 0
  IsDistinct [] = Unit
  IsDistinct ((j, v) ∷ l) = Fresh j l × IsDistinct l

  dropped-Fresh : (k : Text) (l : Assoc V) → Fresh k (dropped k l)
  unfolding dropped
  dropped-Fresh k [] = tt
  dropped-Fresh k ((j, v) ∷ l) = ground (arith, dropped-Fresh k l)

  dropped-Fresh_other : (i k : Text) (l : Assoc V) → Fresh k l → Fresh k (dropped i l)
  unfolding dropped
  dropped-Fresh_other i k [] h = tt
  dropped-Fresh_other i k ((j, v) ∷ l) h = ground (arith, dropped-Fresh_other i k l)

  dropped-IsDistinct : (k : Text) (l : Assoc V) → IsDistinct l → IsDistinct (dropped k l)
  unfolding dropped
  dropped-IsDistinct k [] h = tt
  dropped-IsDistinct k ((j, v) ∷ l) h =
      ground (arith, dropped-IsDistinct k l, dropped-Fresh_other k j l)

  pub distinct-IsDistinct : (l : Assoc V) → IsDistinct (distinct l)
  unfolding distinct
  distinct-IsDistinct [] = tt
  distinct-IsDistinct ((j, v) ∷ l) =
      (dropped-Fresh j (distinct l), dropped-IsDistinct j (distinct l) (distinct-IsDistinct l))

  value_at_of_Fresh : (k : Text) (l : Assoc V) → Fresh k l → value_at k l ≡ none
  unfolding value_at
  value_at_of_Fresh k [] h = refl
  value_at_of_Fresh k ((j, v) ∷ l) h = ground (arith, value_at_of_Fresh k l)

  kept-Fresh : (p : V → Bool) (k : Text) (l : Assoc V) → Fresh k l → Fresh k (kept p l)
  unfolding kept
  kept-Fresh p k [] h = tt
  kept-Fresh p k ((j, v) ∷ l) h = ground (arith, kept-Fresh p k l)

  value_at-kept :
      (p : V → Bool) (k : Text) (l : Assoc V)
      → IsDistinct l
      → value_at k (kept p l) ≡ only_if p (value_at k l)
  unfolding value_at kept
  value_at-kept p k [] h = refl
  value_at-kept p k ((j, v) ∷ l) h =
      ground
        (arith, value_at-kept p k l, value_at_of_Fresh j (kept p l), kept-Fresh p j l, ==_iff j k)

  -- What a pass over the distinct entries keeps.
  pub value_at-kept-distinct :
      (p : V → Bool) (k : Text) (l : Assoc V)
      → value_at k (kept p (distinct l)) ≡ only_if p (value_at k l)
  value_at-kept-distinct p k l =
      rw (value_at-kept p k (distinct l) (distinct-IsDistinct l))
        (ap (only_if p) (value_at-distinct k l))

  value_at_of_In :
      (k : Text) (v : V) (l : Assoc V) → IsDistinct l → In (k, v) l → value_at k l ≡ some v
  unfolding value_at
  value_at_of_In k v [] h m = elim m [ ]
  value_at_of_In k v ((j, w) ∷ l) h m =
      ground (arith, value_at_of_In k v l, value_at_of_Fresh j l, ==_iff j k)

  -- The distinct entries are the pairs that a lookup gives.
  pub In-distinct :
      (k : Text) (v : V) (l : Assoc V) → In (k, v) (distinct l) ↔ (value_at k l ≡ some v)
  In-distinct k v l = (
    λ m. rw (← value_at-distinct k l) (value_at_of_In k v (distinct l) (distinct-IsDistinct l) m),
    λ e. In-value_at k v (distinct l) (rw (value_at-distinct k l) e),
  )

  Fresh-In : (k : Text) (l : Assoc V) → Fresh k l → ¬ In k (map (λ e. e.0) l)
  Fresh-In k [] h m = m
  Fresh-In k ((j, v) ∷ l) h (inl e) = cc (h.0, (==_iff j k).1 (sym e))
  Fresh-In k ((j, v) ∷ l) h (inr m) = Fresh-In k l h.1 m

  IsDistinct-keys : (l : Assoc V) → IsDistinct l → Distinct (map (λ e. e.0) l)
  IsDistinct-keys [] h = tt
  IsDistinct-keys ((j, v) ∷ l) h = (Fresh-In j l h.0, IsDistinct-keys l h.1)

  pub keys-distinct : (l : Assoc V) → Distinct (map (λ e. e.0) (distinct l))
  keys-distinct l = IsDistinct-keys (distinct l) (distinct-IsDistinct l)
