-- ===== src/Base/Bytes.antt =====
-- Go strings as their bytes, with the tests of package strings that the program calls.
use Prim.Native.Char.{code}
use Prim.Native.Nat.{ℕ}
use Prim.Native.String.{String}
use mathlib.Core.Path.{◌≡◌, refl, ap, ap₂, sym, ◌∙◌}
use mathlib.Core.Logic.{◌↔◌, ◌≢◌, inl, inr}
use mathlib.Core.Bool.{Bool, true, false, ◌&&◌, ◌||◌}
use mathlib.Core.List.{List, [], ◌∷◌, ◌++◌, reverse, append_assoc}
use native.Mathlib.Omega.{arith}
use m_cloud.Base.Members.{All}
use m_cloud.Base.Tests.{eqb, eqb→eq, Bool-cases, leb, if◌then◌else◌}

abbrev pub Text : Type 0
Text = List ℕ

-- The bytes of an ASCII literal.
abbrev pub codes : String → Text
codes String.[] = []
codes (String.◌∷◌ c s) = code c ∷ codes s

infix 50 ◌==◌
unfoldable pub ◌==◌ : Text → Text → Bool
[] == [] = true
[] == (d ∷ t) = false
(c ∷ s) == [] = false
(c ∷ s) == (d ∷ t) = eqb c d && s == t

pub ==_iff : (s t : Text) → ((s == t) ≡ true) ↔ (s ≡ t)
unfolding ◌==◌
==_iff [] [] = (λ _. refl, λ _. refl)
==_iff [] (d ∷ t) = (λ h. cc, λ h. cc)
==_iff (c ∷ s) [] = (λ h. cc, λ h. cc)
==_iff (c ∷ s) (d ∷ t) = ground (arith, ==_iff s t)

pub ==_refl : (s : Text) → (s == s) ≡ true
==_refl s = (==_iff s s).1 refl

pub ==_comm : (s t : Text) → (s == t) ≡ (t == s)
==_comm s t = ground (arith, ==_iff s t, ==_iff t s)

-- strings.HasPrefix
unfoldable pub starts_with : Text → Text → Bool
starts_with s [] = true
starts_with [] (d ∷ p) = false
starts_with (c ∷ s) (d ∷ p) = eqb c d && starts_with s p

-- strings.TrimPrefix
unfoldable pub trim_prefix : Text → Text → Text
unfolding starts_with
trim_prefix s p = if starts_with s p then strip s p else s
  where
    strip : Text → Text → Text
    strip s [] = s
    strip [] (d ∷ p) = []
    strip (c ∷ s) (d ∷ p) = strip s p

pub starts_with-append : (p s : Text) → starts_with (p ++ s) p ≡ true
unfolding starts_with
starts_with-append [] s = refl
starts_with-append (c ∷ p) s = ground (arith, starts_with-append p s)

pub starts_with_split : (s p : Text) → starts_with s p ≡ true → (rest : Text) × (s ≡ p ++ rest)
unfolding starts_with
starts_with_split s [] h = (s, refl)
starts_with_split [] (d ∷ p) h = cc
starts_with_split (c ∷ s) (d ∷ p) h =
    let (rest, e) = starts_with_split s p (ground arith) in (rest, ground arith)

-- strings.Split at a separator of one byte
unfoldable pub cons_head : ℕ → List Text → List Text
cons_head c [] = (c ∷ []) ∷ []
cons_head c (p ∷ ps) = (c ∷ p) ∷ ps

unfoldable pub split : ℕ → Text → List Text
unfolding cons_head
split sep [] = [] ∷ []
split sep (c ∷ s) = let rest = split sep s in if eqb c sep then [] ∷ rest else cons_head c rest

-- No byte of the text is the separator.
abbrev pub Lacks : ℕ → Text → Type 0
Lacks sep [] = Unit {0}
Lacks sep (c ∷ s) = (c ≢ sep) × Lacks sep s

pub split-lacking : (sep : ℕ) (s : Text) → Lacks sep s → split sep s ≡ s ∷ []
unfolding split
split-lacking sep [] h = refl
split-lacking sep (c ∷ s) h = ground (arith, split-lacking sep s h.1)

pub split-append : (sep : ℕ) (s t : Text) → Lacks sep s → split sep (s ++ sep ∷ t) ≡ s ∷ split sep t
unfolding split
split-append sep [] t h = ground arith
split-append sep (c ∷ s) t h = ground (arith, split-append sep s t h.1)

-- The ASCII white space that strings.TrimSpace removes.
unfoldable pub is_space : ℕ → Bool
is_space c = (leb 9 c && leb c 13) || eqb c 32

unfoldable pub trim_left : Text → Text
unfolding is_space
trim_left [] = []
trim_left (c ∷ s) = let rest = trim_left s in if is_space c then rest else c ∷ s

-- strings.TrimSpace
unfoldable pub trim_space : Text → Text
unfolding trim_left
trim_space s = reverse (trim_left (reverse (trim_left s)))

-- The parts with the separator between them.
unfoldable pub joined : ℕ → List Text → Text
joined sep [] = []
joined sep (p ∷ []) = p
joined sep (p ∷ q ∷ ps) = p ++ sep ∷ joined sep (q ∷ ps)

cons_head-joined : (sep c : ℕ) (ps : List Text) → joined sep (cons_head c ps) ≡ c ∷ joined sep ps
unfolding joined cons_head
cons_head-joined sep c [] = refl
cons_head-joined sep c (p ∷ []) = refl
cons_head-joined sep c (p ∷ q ∷ ps) = refl

nil_head-joined :
    (sep : ℕ) (s : Text) → joined sep ([] ∷ split sep s) ≡ sep ∷ joined sep (split sep s)
unfolding joined split cons_head
nil_head-joined sep [] = refl
nil_head-joined sep (c ∷ s) = elim (Bool-cases (eqb c sep)) [
  | inl e ↦ rw e refl
  | inr e ↦ rw e (at_cons (split sep s))
]
  where
    at_cons :
        (ps : List Text) → joined sep ([] ∷ cons_head c ps) ≡ sep ∷ joined sep (cons_head c ps)
    at_cons [] = refl
    at_cons (p ∷ ps) = refl

-- Joining the parts of a split gives the text back.
pub joined-split : (sep : ℕ) (s : Text) → joined sep (split sep s) ≡ s
unfolding split
joined-split sep [] = unfold joined in refl
joined-split sep (c ∷ s) = elim (Bool-cases (eqb c sep)) [
  | inl e ↦
      rw e (nil_head-joined sep s ∙ ap₂ (λ d t. d ∷ t) (sym (eqb→eq c sep e)) (joined-split sep s))
  | inr e ↦ rw e (cons_head-joined sep c (split sep s) ∙ ap (λ t. c ∷ t) (joined-split sep s))
]

cons_head-Lacks :
    (sep c : ℕ) (ps : List Text) → c ≢ sep → All (Lacks sep) ps → All (Lacks sep) (cons_head c ps)
unfolding cons_head
cons_head-Lacks sep c [] ne h = ((ne, tt), tt)
cons_head-Lacks sep c (p ∷ ps) ne h = ((ne, h.0), h.1)

-- No part of a split holds the separator.
pub split-Lacks : (sep : ℕ) (s : Text) → All (Lacks sep) (split sep s)
unfolding split
split-Lacks sep [] = (tt, tt)
split-Lacks sep (c ∷ s) = elim (Bool-cases (eqb c sep)) [
  | inl e ↦ rw e (tt, split-Lacks sep s)
  | inr e ↦ rw e (cons_head-Lacks sep c (split sep s) (ground arith) (split-Lacks sep s))
]

-- Splitting a join gives the parts back, if there is a part and none holds the separator.
pub split-joined :
    (sep : ℕ) (p : Text) (ps : List Text)
    → All (Lacks sep) (p ∷ ps)
    → split sep (joined sep (p ∷ ps)) ≡ p ∷ ps
unfolding joined
split-joined sep p [] h = split-lacking sep p h.0
split-joined sep p (q ∷ ps) h =
    split-append sep p (joined sep (q ∷ ps)) h.0 ∙ ap (λ t. p ∷ t) (split-joined sep q ps h.1)

pub split-joined_append :
    (sep : ℕ) (p : Text) (ps : List Text) (t : Text)
    → All (Lacks sep) (p ∷ ps)
    → split sep (joined sep (p ∷ ps) ++ sep ∷ t) ≡ (p ∷ ps) ++ split sep t
unfolding joined
split-joined_append sep p [] t h = split-append sep p t h.0
split-joined_append sep p (q ∷ ps) t h =
    ap (split sep) (append_assoc p (sep ∷ joined sep (q ∷ ps)) (sep ∷ t))
    ∙ split-append sep p (joined sep (q ∷ ps) ++ sep ∷ t) h.0
    ∙ ap (λ r. p ∷ r) (split-joined_append sep q ps t h.1)

pub split-ne-nil : (sep : ℕ) (s : Text) → split sep s ≢ []
unfolding split cons_head
split-ne-nil sep [] = λ e. cc
split-ne-nil sep (c ∷ s) = at (split sep s)
  where
    at : (ps : List Text) → (if eqb c sep then [] ∷ ps else cons_head c ps) ≢ []
    at [] e = ground arith
    at (p ∷ ps) e = ground arith
