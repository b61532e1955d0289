-- ===== src/Flags.antt =====
-- Go's map[string]bool as a set: built from a list of keys, read with `false` for a missing key.
use m_cloud.Base.{
  ◌≡◌, ◌↔◌, ◌⊎◌, inl, inr, Bool, true, false, List, [], ◌∷◌, arith, Text, ==_iff, Option, none,
  some, In,
}
use m_cloud.Dict
use m_cloud.Dict.{Dict, get-put, get-empty}

-- for _, k := range ks { d[k] = true }
unfoldable pub mark : List Text → Dict Bool → Dict Bool
mark [] d = d
mark (k ∷ ks) d = mark ks (Dict.put d k true)

unfoldable pub set_of : List Text → Dict Bool
unfolding mark
set_of ks = mark ks Dict.empty

abbrev pub or_false : Option Bool → Bool
or_false none = false
or_false (some b) = b

-- d[k]
unfoldable pub flag : Dict Bool → Text → Bool
flag d k = or_false (Dict.get d k)

flag-mark :
    (k : Text) (ks : List Text) (d : Dict Bool)
    → (flag (mark ks d) k ≡ true) ↔ (In k ks ⊎ (flag d k ≡ true))
unfolding flag mark
flag-mark k [] d = (λ h. inr h, λ h. elim h [ inl m ↦ elim m [ ] | inr e ↦ e ])
flag-mark k (j ∷ ks) d =
    ground (arith, flag-mark k ks (Dict.put d j true), get-put d j k true, ==_iff j k)

flag-empty : (k : Text) → flag Dict.empty k ≡ false
unfolding flag
flag-empty k = ground (arith, get-empty {V = Bool} k)

-- A flag is set exactly for the keys of the list.
pub flag-set_of : (ks : List Text) (k : Text) → (flag (set_of ks) k ≡ true) ↔ In k ks
unfolding set_of
flag-set_of ks k = ground (arith, flag-mark k ks Dict.empty, flag-empty k)
