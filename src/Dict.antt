-- ===== src/Dict.antt =====
-- Go's map[string]V: a lookup list behind its laws. A read for a missing key is `none`.
-- `range d` lists each key once, with the value that a lookup gives; Go leaves the order of a
-- `for range` over a map open, so no theorem speaks of the order of that list.
mod Assoc
pub use Assoc.{only_if}
use m_cloud.Base.{
  ℕ, ◌≡◌, refl, ap, Bool, Option, none, some, List, [], ◌∷◌, arith, Text, ◌==◌, ==_iff,
  Option-cases, inl, inr, if◌then◌else◌, In, ◌↔◌, map, Distinct, In-map, In-map_split,
}
use mathlib.Core.Option
use Assoc.{
  value_at, dropped, distinct, mapped, kept, only_if, value_at-dropped, value_at-mapped,
  value_at-kept-distinct, In-distinct, keys-distinct,
}

pub record Dict {ℓ} (V : Type ℓ) : Type ℓ where
  entries : Assoc.Assoc V

module _ {ℓ} {V : Type ℓ} where
  pub empty : Dict V
  empty = record { entries = [] }

  -- v, ok := d[k]
  pub get : Dict V → Text → Option V
  get d k = value_at k d.entries

  -- delete(d, k)
  pub remove : Dict V → Text → Dict V
  remove d k = record { entries = dropped k d.entries }

  -- d[k] = v
  pub put : Dict V → Text → V → Dict V
  put d k v = record { entries = (k, v) ∷ dropped k d.entries }

  -- for k, v := range d
  pub range : Dict V → List (Text × V)
  range d = distinct d.entries

  -- Change each value in place, as a loop over pointers does.
  pub update_all : (V → V) → Dict V → Dict V
  update_all f d = record { entries = mapped f d.entries }

  pub get-remove :
      (d : Dict V) (k j : Text) → get (remove d k) j ≡ (if k == j then none else get d j)
  unfolding get remove
  get-remove d k j = value_at-dropped k j d.entries

  pub get-put :
      (d : Dict V) (k j : Text) (v : V) → get (put d k v) j ≡ (if k == j then some v else get d j)
  unfolding get put value_at
  get-put d k j v = simp value_at-dropped (ground arith)

  pub get-update_all :
      (f : V → V) (d : Dict V) (k : Text) → get (update_all f d) k ≡ Option.map f (get d k)
  unfolding get update_all
  get-update_all f d k = value_at-mapped f k d.entries

module _ {ℓ} {V : Type ℓ} where
  -- if p, ok := d[k]; ok { *p = f(*p) }
  pub modify : Dict V → Text → (V → V) → Dict V
  modify d k f = elim (get d k) [ none ↦ d | some v ↦ put d k (f v) ]

  pub get-modify :
      (d : Dict V) (k j : Text) (f : V → V)
      → get (modify d k f) j ≡ (if k == j then Option.map f (get d j) else get d j)
  unfolding modify
  get-modify d k j f = elim (Option-cases (get d k)) [
    | inl e ↦ rw (e, modify) (ground (arith, ==_iff k j))
    | inr (v, e) ↦ rw (e, modify) (ground (arith, get-put d k j (f v), ==_iff k j))
  ]

pub get-empty {ℓ} : {V : Type ℓ} (k : Text) → get (empty {V = V}) k ≡ none
unfolding get empty value_at
get-empty k = refl

module _ {V : Type 0} where
  -- Delete, in a pass over the map, the entries that fail a test.
  pub retain : (V → Bool) → Dict V → Dict V
  retain p d = record { entries = kept p (range d) }

  pub get-retain : (p : V → Bool) (d : Dict V) (k : Text) → get (retain p d) k ≡ only_if p (get d k)
  unfolding get retain range
  get-retain p d k = value_at-kept-distinct p k d.entries

  -- A pass over the map meets exactly the pairs that a lookup gives.
  pub In-range : (d : Dict V) (k : Text) (v : V) → In (k, v) (range d) ↔ (get d k ≡ some v)
  unfolding range get
  In-range d k v = In-distinct k v d.entries

  -- for _, v := range d
  pub values : Dict V → List V
  values d = map (λ e. e.1) (range d)

  -- for k := range d
  pub keys : Dict V → List Text
  keys d = map (λ e. e.0) (range d)

pub ruleset dict_laws = (get-empty, get-remove, get-put, get-update_all, get-modify)

module _ {V : Type 0} (d : Dict V) where
  pub In-values : (k : Text) (v : V) → get d k ≡ some v → In v (values d)
  unfolding values
  In-values k v e = In-map (λ p. p.1) (k, v) (range d) ((In-range d k v).1 e)

  pub In-values_split : (v : V) → In v (values d) → (k : Text) × (get d k ≡ some v)
  unfolding values
  In-values_split v m =
      let (p, n, e) = In-map_split (λ p. p.1) v (range d) m in (p.0, (In-range d p.0 v).0 (rw e n))

  pub In-keys : (k : Text) (v : V) → get d k ≡ some v → In k (keys d)
  unfolding keys
  In-keys k v e = In-map (λ p. p.0) (k, v) (range d) ((In-range d k v).1 e)

  pub In-keys_split : (k : Text) → In k (keys d) → (v : V) × (get d k ≡ some v)
  unfolding keys
  In-keys_split k m =
      let (p, n, e) = In-map_split (λ p. p.0) k (range d) m in (p.1, (In-range d k p.1).0 (rw e n))

  -- A pass over the map meets no key twice.
  pub keys-Distinct : Distinct (keys d)
  unfolding keys range
  keys-Distinct = keys-distinct d.entries
