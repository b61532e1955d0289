-- ===== src/Agent/System/Read.antt =====
-- What the agent reads from the texts of its commands.
use m_cloud.Base.{
  ℕ, ◌^◌, ◌<◌, ◌≡◌, ◌≢◌, refl, ap, ◌∙◌, inl, inr, true, false, List, [], ◌∷◌, ◌++◌, map, arith,
  Text, codes, ◌==◌, ==_iff, some, eqb, Option-cases, All, Lacks, split, split-append, trim_space,
}
use m_cloud.Base.Words.{fields, columns, fields-columns, columns-Lacks, IsWord, cut}
use m_cloud.Base.Numbers.{decimal, parse_uint-decimal, decimal-IsWord}
use m_cloud.Agent.System.{Exec, Floats, output, lines}
use m_cloud.Agent.System.Info.{lsb_value, get_lsb_field, second_line, get_memory_mb}
use m_cloud.Agent.System.Metrics.{memory_load, get_mem_percent}

second_line-append :
    (title line rest : Text)
    → Lacks b'\n' title
    → Lacks b'\n' line
    → second_line (title ++ b'\n' ∷ (line ++ b'\n' ∷ rest)) ≡ fields line
second_line-append title line rest t l =
    let parts : lines (title ++ b'\n' ∷ (line ++ b'\n' ∷ rest)) ≡ title ∷ line ∷ split b'\n' rest =
      split-append b'\n' title (line ++ b'\n' ∷ rest) t
      ∙ ap (λ ls. title ∷ ls) (split-append b'\n' line rest l) in
    rw (parts, second_line) refl

abbrev pub free : List Text
free = codes "free" ∷ codes "-m" ∷ []

-- If `free -m` ends well and prints a line of titles and then a line of columns, with any name, the
-- total and the used amount as its first three, and more columns and lines behind, the agent reports
-- that total as its memory, and in its metrics the used amount and, as its share, the used amount
-- divided by the total, times 100, in 64-bit floats; a total of 0 gives 0 for both.
pub memory_lem :
    (exec : Exec) (floats : Floats) (title name rest : Text) (g h total used : ℕ)
    (more : List (ℕ × Text))
    → Lacks b'\n' title
    → IsWord name
    → All (λ p. IsWord p.1) more
    → total < 2 ^ 64
    → used < 2 ^ 64
    → exec free ≡ record {
      ok = true;
      out =
          title
          ++ b'\n' ∷ (columns name ((g, decimal total) ∷ (h, decimal used) ∷ more) ++ b'\n' ∷ rest);
    }
    → (get_memory_mb exec ≡ total)
      × (total ≢ 0
          → get_mem_percent exec floats ≡ (
            floats.times
                (floats.divided (floats.of_uint used) (floats.of_uint total))
                (floats.of_uint 100),
            used,
          ))
      × (total ≡ 0 → get_mem_percent exec floats ≡ (0, 0))
unfolding get_memory_mb get_mem_percent output
memory_lem exec floats title name rest g h total used more titled named others small small' prints =
    let cells : List (ℕ × Text) = (g, decimal total) ∷ (h, decimal used) ∷ more in
    let words : All (λ p. IsWord p.1) cells =
      (decimal-IsWord total, (decimal-IsWord used, others)) in
    let read : second_line (title ++ b'\n' ∷ (columns name cells ++ b'\n' ∷ rest))
        ≡ name ∷ decimal total ∷ decimal used ∷ map (λ p. p.1) more =
      second_line-append title (columns name cells) rest titled
        (columns-Lacks name cells named words)
      ∙ fields-columns name cells named words in
    let loads : get_mem_percent exec floats ≡ memory_load floats total used =
      rw (prints, get_mem_percent)
        (rw read (rw (parse_uint-decimal total small, parse_uint-decimal used small') refl)) in
    (
      rw (prints, get_memory_mb) (rw read (parse_uint-decimal total small)),
      λ some_memory. let counted : eqb total 0 ≡ false = ground arith in loads ∙ rw counted refl,
      λ no_memory. loads ∙ rw no_memory refl,
    )

-- The line says nothing of the field.
abbrev pub IsOther : Text → Text → Type 0
IsOther field line = (key value : Text) → cut b':' line ≡ some (key, value) → trim_space key ≢ field

lsb_skips :
    (field line : Text) (rest : List Text)
    → IsOther field line
    → lsb_value field (line ∷ rest) ≡ lsb_value field rest
unfolding lsb_value
lsb_skips field line rest other = elim (Option-cases (cut b':' line)) [
  | inl e ↦ rw (e, lsb_value) refl
  | inr (parts, e) ↦
      let different : (trim_space parts.0 == field) ≡ false =
        ground (arith, ==_iff (trim_space parts.0) field, other parts.0 parts.1 e) in
      rw (e, different, lsb_value) refl
]

cut-append : (sep : ℕ) (s t : Text) → Lacks sep s → cut sep (s ++ sep ∷ t) ≡ some (s, t)
unfolding cut
cut-append sep [] t h = ground arith
cut-append sep (c ∷ s) t h = ground (arith, cut-append sep s t h.1)

lsb_finds :
    (field key value : Text) (before after : List Text)
    → All (IsOther field) before
    → Lacks b':' key
    → trim_space key ≡ field
    → lsb_value field (before ++ (key ++ b':' ∷ value) ∷ after) ≡ trim_space value
unfolding lsb_value
lsb_finds field key value [] after others plain named =
    let same : (trim_space key == field) ≡ true = (==_iff (trim_space key) field).1 named in
    rw (cut-append b':' key value plain, same, lsb_value) refl
lsb_finds field key value (line ∷ before) after others plain named =
    lsb_skips field line (before ++ (key ++ b':' ∷ value) ∷ after) others.0
    ∙ lsb_finds field key value before after others.1 plain named

-- Where `lsb_release -a` ends well, the agent reports as a field the text behind the colon of the
-- first line that names the field, without the white space around both.
pub get_lsb_field_lem :
    (exec : Exec) (field key value : Text) (before after : List Text)
    → (exec (codes "lsb_release" ∷ codes "-a" ∷ [])).ok ≡ true
    → lines ((exec (codes "lsb_release" ∷ codes "-a" ∷ [])).out)
      ≡ before ++ (key ++ b':' ∷ value) ∷ after
    → All (IsOther field) before
    → Lacks b':' key
    → trim_space key ≡ field
    → get_lsb_field exec field ≡ trim_space value
unfolding get_lsb_field output
get_lsb_field_lem exec field key value before after good prints others plain named =
    rw (good, get_lsb_field) (rw prints (lsb_finds field key value before after others plain named))
