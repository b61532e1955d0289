-- ===== src/Audit/Bounds.antt =====
-- The audit log against the list of all entries that were ever logged.
use m_cloud.Base.{
  ℕ, ◌-◌, ◌≡◌, refl, ap, sym, ◌∙◌, min, none, inl, inr, Bool-cases, List, [], ◌∷◌, ◌++◌, map,
  map-append, append-nil, append_assoc, arith, Option, some, length, drop, take_last,
  take_last-append, take_last-take_last, trim-take_last, ltb,
}
use mathlib.Core.Path.{subst}
use m_cloud.Audit.{Entry, Logger, new, stamped, log, recent}

-- Calls of Log, each at its time.
unfoldable pub log_all : List (ℕ × Entry) → Option Logger → Option Logger
unfolding log
log_all [] l = l
log_all ((now, e) ∷ es) l = log_all es (log now e l)

-- The entry as it should be filed: its own time or else that of the call, and the rest as it is.
abbrev pub stamp : ℕ × Entry → Entry
stamp (now, e) = record e { timestamp = some (elim e.timestamp [ none ↦ now | some t ↦ t ]) }

stamped_lem : (now : ℕ) (e : Entry) → stamped now e ≡ stamp (now, e)
unfolding stamped
stamped_lem now e = go e.timestamp refl
  where
    go :
        (t : Option ℕ)
        → e.timestamp ≡ t
        → stamped now e ≡ record e { timestamp = some (elim t [ none ↦ now | some t ↦ t ]) }
    go none q = rw (q, stamped) refl
    go (some t) q = rw (q, stamped) (ap (λ x. record e { timestamp = x }) q)

-- The file has all the entries, and memory the last ones.
record Holds (all : List (ℕ × Entry)) (l : Logger) : Type 0 where
  filed : l.lines ≡ map stamp all
  kept : l.entries ≡ take_last 1000 (map stamp all)
  sized : l.max_size ≡ 1000

log-Holds :
    (all : List (ℕ × Entry)) (now : ℕ) (e : Entry) (l : Logger)
    → Holds all l
    → (l' : Logger) × (log now e (some l) ≡ some l') × Holds (all ++ (now, e) ∷ []) l'
unfolding log
log-Holds all now e l h =
    let more : map stamp (all ++ (now, e) ∷ []) ≡ map stamp all ++ stamped now e ∷ [] =
      map-append stamp all ((now, e) ∷ [])
      ∙ ap (λ x. map stamp all ++ x ∷ []) (sym (stamped_lem now e)) in
    (
      _,
      refl,
      record {
        filed = rw (more, ← h.filed) refl;
        kept =
            trim-take_last l.max_size (l.entries ++ stamped now e ∷ [])
            ∙ rw (h.sized, h.kept, more) (take_last-append 1000 (map stamp all) (stamped now e));
        sized = h.sized;
      },
    )

log_all-Holds :
    (all es : List (ℕ × Entry)) (l : Logger)
    → Holds all l
    → (l' : Logger) × (log_all es (some l) ≡ some l') × Holds (all ++ es) l'
unfolding log_all
log_all-Holds all [] l h = (l, refl, rw (append-nil all) h)
log_all-Holds all ((now, e) ∷ es) l h =
    let (k, q, v) = log-Holds all now e l h in
    let (l', r, w) = log_all-Holds (all ++ (now, e) ∷ []) es k v in
    (l', rw q r, subst (λ a. Holds a l') (append_assoc all ((now, e) ∷ []) es) w)

recent_lem : (n : ℕ) (l : Logger) → recent n (some l) ≡ take_last n l.entries
unfolding recent
recent_lem n l = elim (Bool-cases (ltb (length l.entries) n)) [
  | inl b ↦
      let same : length l.entries - length l.entries ≡ length l.entries - n = ground arith in
      rw (b, recent) (ap (λ k. drop k l.entries) same)
  | inr b ↦ rw (b, recent) refl
]

-- Whatever is logged by a new logger, the file receives every entry, in order and with the time of
-- the call where the entry has none, and Recent returns the last `n` of them, at most 1000.
pub recent-log_all :
    (n : ℕ) (es : List (ℕ × Entry))
    → (l : Logger) × (log_all es (some new) ≡ some l)
      × (l.lines ≡ map stamp es)
      × (recent n (some l) ≡ take_last (min n 1000) (map stamp es))
unfolding new
recent-log_all n es =
    let (l, q, h) = log_all-Holds [] es new (record { filed = refl; kept = refl; sized = refl }) in
    (
      l,
      q,
      h.filed,
      recent_lem n l ∙ ap (take_last n) h.kept ∙ take_last-take_last n 1000 (map stamp es),
    )
