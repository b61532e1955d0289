-- ===== src/Agent/CleanPath/Laws.antt =====
-- What a cleaned path looks like.
use m_cloud.Base.{
  ◌≡◌, ◌≢◌, refl, sym, ap, ◌∙◌, inl, inr, Bool, true, false, List, [], ◌∷◌, ◌++◌, reverse,
  append_assoc, arith, Text, split, split-Lacks, split-joined, joined, Lacks, ◌==◌, ==_iff,
  starts_with, starts_with_split, All, length, length-append, All-append_right, All-reverse,
  All-weaken, Bool-cases, split-joined_append, split-ne-nil,
}
use mathlib.Core.Path.{subst}
use m_cloud.Agent.CleanPath.{slash, dot_dot, one_dot, step_up, push, push_all, rendered, clean}

-- A name that stands for an entry of the directory before it: not empty, not "." or "..", and with
-- no slash.
pub record IsName (p : Text) : Type 0 where
  pub some_byte : p ≢ []
  pub not_here : p ≢ one_dot
  pub not_up : p ≢ dot_dot
  pub no_slash : Lacks slash p

push-IsName :
    (stack : List Text) (part : Text)
    → Lacks slash part
    → All IsName stack
    → All IsName (push true stack part)
unfolding push
push-IsName stack part lacks h = elim (Bool-cases (part == [])) [
  | inl e ↦ rw e h
  | inr e ↦ elim (Bool-cases (part == one_dot)) [
    | inl o ↦ rw (e, o) h
    | inr o ↦ elim (Bool-cases (part == dot_dot)) [
      | inl u ↦ rw (e, o, u) (step_up-IsName stack h)
      | inr u ↦
          rw (e, o, u)
            (
              record {
                some_byte = λ q. cc (e, (==_iff part []).1 q);
                not_here = λ q. cc (o, (==_iff part one_dot).1 q);
                not_up = λ q. cc (u, (==_iff part dot_dot).1 q);
                no_slash = lacks;
              },
              h,
            )
    ]
  ]
]
  where
    step_up-IsName : (stack : List Text) → All IsName stack → All IsName (step_up true stack)
    step_up-IsName [] h = tt
    step_up-IsName (top ∷ rest) h = elim (Bool-cases (top == dot_dot)) [
      | inl u ↦ absurd (h.0.not_up ((==_iff top dot_dot).0 u))
      | inr u ↦ rw u h.1
    ]

-- A part of a path: not empty, with no slash.
abbrev IsPart : Text → Type 0
IsPart p = (p ≢ []) × Lacks slash p

dot_dot-IsPart : IsPart dot_dot
dot_dot-IsPart = (λ e. cc, omega arith)

step_up-IsPart :
    (rooted : Bool) (stack : List Text) → All IsPart stack → All IsPart (step_up rooted stack)
unfolding step_up
step_up-IsPart true [] h = tt
step_up-IsPart false [] h = (dot_dot-IsPart, tt)
step_up-IsPart true (top ∷ rest) h = elim (Bool-cases (top == dot_dot)) [
  | inl u ↦ rw u (dot_dot-IsPart, h)
  | inr u ↦ rw u h.1
]
step_up-IsPart false (top ∷ rest) h = elim (Bool-cases (top == dot_dot)) [
  | inl u ↦ rw u (dot_dot-IsPart, h)
  | inr u ↦ rw u h.1
]

push-IsPart :
    (rooted : Bool) (stack : List Text) (part : Text)
    → Lacks slash part
    → All IsPart stack
    → All IsPart (push rooted stack part)
unfolding push
push-IsPart rooted stack part lacks h = elim (Bool-cases (part == [])) [
  | inl e ↦ rw e h
  | inr e ↦ elim (Bool-cases (part == one_dot)) [
    | inl o ↦ rw (e, o) h
    | inr o ↦ elim (Bool-cases (part == dot_dot)) [
      | inl u ↦ rw (e, o, u) (step_up-IsPart rooted stack h)
      | inr u ↦ rw (e, o, u) ((λ q. cc (e, (==_iff part []).1 q), lacks), h)
    ]
  ]
]

push_all-IsName :
    (stack ps : List Text)
    → All (Lacks slash) ps
    → All IsName stack
    → All IsName (push_all true stack ps)
unfolding push_all
push_all-IsName stack [] l h = h
push_all-IsName stack (p ∷ ps) l h =
    push_all-IsName (push true stack p) ps l.1 (push-IsName stack p l.0 h)

push_all-IsPart :
    (rooted : Bool) (stack ps : List Text)
    → All (Lacks slash) ps
    → All IsPart stack
    → All IsPart (push_all rooted stack ps)
unfolding push_all
push_all-IsPart rooted stack [] l h = h
push_all-IsPart rooted stack (p ∷ ps) l h =
    push_all-IsPart rooted (push rooted stack p) ps l.1 (push-IsPart rooted stack p l.0 h)

-- A path that is not rooted stays so.
rendered-relative :
    (parts : List Text) → All IsPart parts → (t : Text) → rendered false parts ≢ slash ∷ t
unfolding rendered joined
rendered-relative [] h t e = ground arith
rendered-relative ([] ∷ ps) h t e = h.0.0 refl
rendered-relative ((c ∷ p) ∷ []) h t e = h.0.1.0 (ground arith)
rendered-relative ((c ∷ p) ∷ q ∷ ps) h t e = h.0.1.0 (ground arith)

-- The path lies below the directory that the names `dirs` lead to from the root: it goes down from
-- there by one name or more, and never up.
abbrev pub IsBelow : List Text → Text → Type 0
IsBelow dirs path =
    (names : List Text) × (path ≡ slash ∷ joined slash (dirs ++ names))
    × All IsName names
    × (names ≢ [])

IsBelow-of_names :
    (d : Text) (dirs parts : List Text) (t : Text)
    → All (Lacks slash) (d ∷ dirs)
    → All IsName parts
    → joined slash parts ≡ joined slash (d ∷ dirs) ++ slash ∷ t
    → IsBelow (d ∷ dirs) (slash ∷ joined slash parts)
IsBelow-of_names d dirs [] t l h e = absurd (
    unfold joined in
    omega (arith, ap length e, length-append (joined slash (d ∷ dirs)) (slash ∷ t)))
IsBelow-of_names d dirs (p ∷ ps) t l h e =
    let same : p ∷ ps ≡ (d ∷ dirs) ++ split slash t =
      sym (split-joined slash p ps (All-weaken IsName (Lacks slash) (p ∷ ps) (λ a n. n.no_slash) h))
      ∙ ap (split slash) e
      ∙ split-joined_append slash d dirs t l in
    (
      split slash t,
      ap (λ l. slash ∷ joined slash l) same,
      All-append_right IsName (d ∷ dirs) (split slash t) (subst (All IsName) same h),
      split-ne-nil slash t,
    )

-- Whatever the path, if its cleaned form begins with a directory and a slash, then the cleaned form
-- lies below that directory: no ".." is left in it that could lead out again.
pub clean-IsBelow :
    (path d : Text) (dirs : List Text)
    → All (Lacks slash) (d ∷ dirs)
    → starts_with (clean path) (slash ∷ (joined slash (d ∷ dirs) ++ slash ∷ [])) ≡ true
    → IsBelow (d ∷ dirs) (clean path)
unfolding clean
clean-IsBelow path d dirs l h = elim (Bool-cases (starts_with path (slash ∷ []))) [
  | inl r ↦ rw r (rooted (rw r at h))
  | inr r ↦ absurd (relative (rw r at h))
]
  where
    parts : Bool → List Text
    parts rooted = reverse (push_all rooted [] (split slash path))

    rooted :
        starts_with (rendered true (parts true)) (slash ∷ (joined slash (d ∷ dirs) ++ slash ∷ []))
          ≡ true
        → IsBelow (d ∷ dirs) (rendered true (parts true))
    rooted s =
        let (rest, e) = starts_with_split _ _ s in
        unfold rendered in
        IsBelow-of_names d dirs (parts true) rest l
          (All-reverse IsName _ (push_all-IsName [] (split slash path) (split-Lacks slash path) tt))
          (ground (arith, e, append_assoc (joined slash (d ∷ dirs)) (slash ∷ []) rest))

    relative :
        starts_with (rendered false (parts false)) (slash ∷ (joined slash (d ∷ dirs) ++ slash ∷ []))
          ≡ true
        → ⊥
    relative s =
        let (rest, e) = starts_with_split _ _ s in
        rendered-relative (parts false)
          (All-reverse IsPart _
            (push_all-IsPart false [] (split slash path) (split-Lacks slash path) tt))
          _ e
