-- ===== src/Base/Words.antt =====
-- More of package strings, on texts as bytes; white space is that of ASCII.
use m_cloud.Base.{
  ℕ, zero, suc, ◌≡◌, ◌≢◌, refl, ap, ◌∙◌, Bool, true, false, not, List, [], ◌∷◌, ◌++◌, reverse,
  arith, Text, eqb, is_space, if◌then◌else◌, Option, none, some, All, replicate, map, Lacks,
}

-- strings.TrimSuffix for a suffix of one byte
unfoldable pub trim_suffix : Text → ℕ → Text
trim_suffix s c = elim (reverse s) [ [] ↦ s | (d ∷ rest) ↦ if eqb d c then reverse rest else s ]

-- strings.SplitN(s, sep, 2), where there is a separator: the parts before and behind the first.
unfoldable pub cut : ℕ → Text → Option (Text × Text)
cut sep [] = none
cut sep (c ∷ s) =
    let rest = cut sep s in
    if eqb c sep
    then some ([], s)
    else elim rest [ none ↦ none | some parts ↦ some (c ∷ parts.0, parts.1) ]

-- The text goes on with a byte that is no white space.
unfoldable pub in_word : Text → Bool
in_word [] = false
in_word (c ∷ s) = not (is_space c)

unfoldable pub grow_head : ℕ → List Text → List Text
grow_head c [] = (c ∷ []) ∷ []
grow_head c (w ∷ ws) = (c ∷ w) ∷ ws

-- strings.Fields
unfoldable pub fields : Text → List Text
unfolding in_word grow_head
fields [] = []
fields (c ∷ s) =
    let rest = fields s in
    if is_space c then rest else if in_word s then grow_head c rest else (c ∷ []) ∷ rest

-- strings.Join
unfoldable pub join : Text → List Text → Text
join sep [] = []
join sep (p ∷ []) = p
join sep (p ∷ q ∷ ps) = p ++ sep ++ join sep (q ∷ ps)

-- A word is not empty and has no white space in it.
abbrev pub IsSolid : Text → Type 0
IsSolid [] = Unit
IsSolid (c ∷ s) = (is_space c ≡ false) × IsSolid s

abbrev pub IsWord : Text → Type 0
IsWord w = (w ≢ []) × IsSolid w

fields_space : (s : Text) → fields (32 ∷ s) ≡ fields s
unfolding fields is_space
fields_space s = refl

fields_cons :
    (c : ℕ) (s : Text)
    → is_space c ≡ false
    → fields (c ∷ s) ≡ (if in_word s then grow_head c (fields s) else (c ∷ []) ∷ fields s)
unfolding fields
fields_cons c s h = rw (h, fields) refl

in_word_solid : (c : ℕ) (s : Text) → is_space c ≡ false → in_word (c ∷ s) ≡ true
unfolding in_word
in_word_solid c s h = rw h refl

fields_last : (c : ℕ) (w : Text) → IsSolid (c ∷ w) → fields (c ∷ w) ≡ (c ∷ w) ∷ []
unfolding grow_head fields in_word
fields_last c [] h = rw (h.0, fields) refl
fields_last c (d ∷ w) h =
    fields_cons c (d ∷ w) h.0
    ∙ rw (in_word_solid d w h.1.0) (ap (grow_head c) (fields_last d w h.1))

fields_word :
    (c : ℕ) (w s : Text) → IsSolid (c ∷ w) → fields (c ∷ (w ++ 32 ∷ s)) ≡ (c ∷ w) ∷ fields s
unfolding grow_head is_space
fields_word c [] s h =
    fields_cons c (32 ∷ s) h.0 ∙ (unfold in_word in ap (λ ws. (c ∷ []) ∷ ws) (fields_space s))
fields_word c (d ∷ w) s h =
    fields_cons c (d ∷ (w ++ 32 ∷ s)) h.0
    ∙ rw (in_word_solid d (w ++ 32 ∷ s) h.1.0) (ap (grow_head c) (fields_word d w s h.1))

-- Words with one space or more between them, and none before or behind.
abbrev pub columns : Text → List (ℕ × Text) → Text
columns w [] = w
columns w ((n, v) ∷ ws) = w ++ 32 ∷ (replicate n 32 ++ columns v ws)

fields_spaces : (n : ℕ) (s : Text) → fields (replicate n 32 ++ s) ≡ fields s
fields_spaces zero s = refl
fields_spaces (suc n) s = fields_space (replicate n 32 ++ s) ∙ fields_spaces n s

-- The words of a line are read back, whatever the number of spaces between them.
pub fields-columns :
    (w : Text) (ws : List (ℕ × Text))
    → IsWord w
    → All (λ p. IsWord p.1) ws
    → fields (columns w ws) ≡ w ∷ map (λ p. p.1) ws
fields-columns [] ws h hs = absurd (h.0 refl)
fields-columns (c ∷ w) [] h hs = fields_last c w h.1
fields-columns (c ∷ w) ((n, v) ∷ ws) h hs =
    fields_word c w (replicate n 32 ++ columns v ws) h.1
    ∙ ap (λ r. (c ∷ w) ∷ r) (fields_spaces n (columns v ws) ∙ fields-columns v ws hs.0 hs.1)

Lacks-append : (sep : ℕ) (s t : Text) → Lacks sep s → Lacks sep t → Lacks sep (s ++ t)
Lacks-append sep [] t h k = k
Lacks-append sep (c ∷ s) t h k = (h.0, Lacks-append sep s t h.1 k)

IsSolid-Lacks : (s : Text) → IsSolid s → Lacks b'\n' s
unfolding is_space
IsSolid-Lacks [] h = tt
IsSolid-Lacks (c ∷ s) h = ((λ e. ground arith), IsSolid-Lacks s h.1)

spaces-Lacks : (n : ℕ) → Lacks b'\n' (replicate n 32)
spaces-Lacks zero = tt
spaces-Lacks (suc n) = ((λ e. omega arith), spaces-Lacks n)

-- Such a line is one line.
pub columns-Lacks :
    (w : Text) (ws : List (ℕ × Text))
    → IsWord w
    → All (λ p. IsWord p.1) ws
    → Lacks b'\n' (columns w ws)
columns-Lacks w [] h hs = IsSolid-Lacks w h.1
columns-Lacks w ((n, v) ∷ ws) h hs =
    Lacks-append b'\n' w (32 ∷ (replicate n 32 ++ columns v ws)) (IsSolid-Lacks w h.1) (
      λ e. omega arith,
      Lacks-append b'\n' (replicate n 32) (columns v ws) (spaces-Lacks n)
          (columns-Lacks v ws hs.0 hs.1),
    )

pub join-ne_nil : (sep p : Text) (ps : List Text) → p ≢ [] → join sep (p ∷ ps) ≢ []
unfolding join
join-ne_nil sep [] ps h e = h refl
join-ne_nil sep (c ∷ p) [] h e = cc
join-ne_nil sep (c ∷ p) (q ∷ ps) h e = cc
