-- ===== src/Middleware/Limiter/Window.antt =====
-- How many requests of an address a window lets through.
use m_cloud.Base.{
  ℕ, ◌+◌, ◌-◌, ◌≤◌, ◌<◌, min, ◌≡◌, refl, sym, ap, lt→ltb, inl, inr, Bool, true, false, List, [],
  ◌∷◌, arith, Text, ◌==◌, ==_iff, ==_refl, if◌then◌else◌, leb, ltb, some, All, Bool-cases,
  Option-cases,
}
use mathlib.Core.Path.{subst}
use m_cloud.Dict
use m_cloud.Dict.{get-put, get-retain, only_if}
use m_cloud.Middleware.Limiter.{LimiterEntry, RateLimiter, allow, open_window, cleanup}

-- What can happen to a limiter: a request from an address, or a tick of the cleanup.
pub data Event : Type 0 where
  request : Text → Event
  sweep : Event

unfoldable pub after : ℕ → Event → RateLimiter → RateLimiter
after now (request ip) rl = (allow now ip rl).0
after now sweep rl = cleanup now rl

-- Whether the event is a request of the address that is let through.
unfoldable pub granted : Text → ℕ → Event → RateLimiter → Bool
granted ip now (request other) rl = if other == ip then (allow now other rl).1 else false
granted ip now sweep rl = false

-- The requests of the address that are let through in a run of events.
unfoldable pub grants : Text → List (ℕ × Event) → RateLimiter → ℕ
unfolding after granted
grants ip [] rl = 0
grants ip ((now, e) ∷ es) rl =
    (if granted ip now e rl then 1 else 0) + grants ip es (after now e rl)

abbrev pub is_request : Text → Event → Bool
is_request ip (request other) = other == ip
is_request ip sweep = false

-- The requests of the address in a run.
unfoldable pub requests : Text → List (ℕ × Event) → ℕ
requests ip [] = 0
requests ip ((now, e) ∷ es) = (if is_request ip e then 1 else 0) + requests ip es

-- The address has an open window with so many requests counted.
record Counted (ip : Text) (count until rate : ℕ) (rl : RateLimiter) : Type 0 where
  here : Dict.get rl.limits ip ≡ some (record { count = count; reset_at = until })
  rated : rl.rate ≡ rate

-- A request only writes the entry of its own address.
allow_shape :
    (now : ℕ) (other : Text) (rl : RateLimiter)
    → (e : LimiterEntry) × ((allow now other rl).0
        ≡ record rl { limits = Dict.put rl.limits other e })
unfolding allow open_window
allow_shape now other rl = elim (Option-cases (Dict.get rl.limits other)) [
  | inl q ↦ (record { count = 1; reset_at = now + rl.window }, rw (q, allow) refl)
  | inr (e, q) ↦ elim (Bool-cases (ltb e.reset_at now)) [
    | inl t ↦ (record { count = 1; reset_at = now + rl.window }, rw (q, t, allow) refl)
    | inr t ↦ (record e { count = e.count + 1 }, rw (q, t, allow) refl)
  ]
]

module _ (ip : Text) (until rate : ℕ) where
  sweep-Counted :
      (count now : ℕ) (rl : RateLimiter)
      → now ≤ until
      → Counted ip count until rate rl
      → Counted ip count until rate (cleanup now rl)
  unfolding cleanup
  sweep-Counted count now rl le c = record {
    here = rw (get-retain, c.here) (let t : ltb until now ≡ false = ground arith in rw t refl);
    rated = c.rated;
  }

  other-Counted :
      (count now : ℕ) (other : Text) (rl : RateLimiter)
      → (other == ip) ≡ false
      → Counted ip count until rate rl
      → Counted ip count until rate (allow now other rl).0
  other-Counted count now other rl ne c =
      let (e, shape) = allow_shape now other rl in
      rw shape (record { here = rw (get-put, ne) c.here; rated = c.rated })

  own_step :
      (count now : ℕ) (rl : RateLimiter)
      → now ≤ until
      → Counted ip count until rate rl
      → Counted ip (count + 1) until rate (allow now ip rl).0
        × ((allow now ip rl).1 ≡ leb (count + 1) rate)
  unfolding allow
  own_step count now rl le c =
      let t : ltb until now ≡ false = ground arith in
      rw (c.here, t, allow)
        (
          record { here = rw (get-put, ==_refl) refl; rated = c.rated },
          ap (leb (count + 1)) c.rated,
        )

  -- No event of the list is later than the end of the window.
  abbrev InWindow : List (ℕ × Event) → Type 0
  InWindow es = All (λ e. e.0 ≤ until) es

  -- What the events of a list let through is what the count leaves room for.
  abbrev Fits : List (ℕ × Event) → ℕ → RateLimiter → Type 0
  Fits es count rl = grants ip es rl ≡ min (requests ip es) (rate - count)

  own_Fits :
      (now : ℕ) (es : List (ℕ × Event)) (count : ℕ) (rl : RateLimiter)
      → (allow now ip rl).1 ≡ leb (count + 1) rate
      → Fits es (count + 1) (allow now ip rl).0
      → Fits ((now, request ip) ∷ es) count rl
  unfolding grants requests
  own_Fits now es count rl g ih = rw (==_refl, g) (ground (arith, ih))

  other_Fits :
      (now : ℕ) (other : Text) (es : List (ℕ × Event)) (count : ℕ) (rl : RateLimiter)
      → (other == ip) ≡ false
      → Fits es count (allow now other rl).0
      → Fits ((now, request other) ∷ es) count rl
  unfolding grants requests
  other_Fits now other es count rl ne ih = rw ne (omega (arith, ih))

  sweep_Fits :
      (now : ℕ) (es : List (ℕ × Event)) (count : ℕ) (rl : RateLimiter)
      → Fits es count (cleanup now rl)
      → Fits ((now, sweep) ∷ es) count rl
  unfolding grants requests
  sweep_Fits now es count rl ih = omega (arith, ih)

  Counted-Fits :
      (es : List (ℕ × Event)) (count : ℕ) (rl : RateLimiter)
      → InWindow es
      → Counted ip count until rate rl
      → Fits es count rl
  Counted-Fits [] count rl w c = unfold grants requests in omega arith
  Counted-Fits ((now, sweep) ∷ es) count rl w c =
      sweep_Fits now es count rl
        (Counted-Fits es count (cleanup now rl) w.1 (sweep-Counted count now rl w.0 c))
  Counted-Fits ((now, request other) ∷ es) count rl w c = elim (Bool-cases (other == ip)) [
    | inl q ↦
        let (c', g) = own_step count now rl w.0 c in
        subst (λ o. Fits ((now, request o) ∷ es) count rl) (sym ((==_iff other ip).0 q))
          (own_Fits now es count rl g (Counted-Fits es (count + 1) (allow now ip rl).0 w.1 c'))
    | inr q ↦
        other_Fits now other es count rl q
          (Counted-Fits es count (allow now other rl).0 w.1 (other-Counted count now other rl q c))
  ]

-- The address has no window that is open at this time.
abbrev pub Closed : ℕ → Text → RateLimiter → Type 0
Closed now ip rl = (e : LimiterEntry) → Dict.get rl.limits ip ≡ some e → e.reset_at < now

opening :
    (now : ℕ) (ip : Text) (rl : RateLimiter)
    → Closed now ip rl
    → ((allow now ip rl).1 ≡ true) × Counted ip 1 (now + rl.window) rl.rate (allow now ip rl).0
unfolding allow open_window
opening now ip rl closed = elim (Option-cases (Dict.get rl.limits ip)) [
  | inl q ↦ (
    rw (q, allow) refl,
    rw (q, allow) (record { here = rw (get-put, ==_refl) refl; rated = refl }),
  )
  | inr (e, q) ↦
      let t : ltb e.reset_at now ≡ true = lt→ltb e.reset_at now (closed e q) in
      (
        rw (q, t, allow) refl,
        rw (q, t, allow) (record { here = rw (get-put, ==_refl) refl; rated = refl }),
      )
]

-- From the request of an address that opens a window to the end of the window, exactly the first
-- `rate` requests of that address are let through (at least the one that opens it), whatever other
-- addresses do and however often the cleanup runs in between.
pub grants-eq-min :
    (ip : Text) (now : ℕ) (es : List (ℕ × Event)) (rl : RateLimiter)
    → Closed now ip rl
    → All (λ e. e.0 ≤ now + rl.window) es
    → grants ip ((now, request ip) ∷ es) rl ≡ 1 + min (requests ip es) (rl.rate - 1)
unfolding grants
grants-eq-min ip now es rl closed w =
    let (g, c) = opening now ip rl closed in
    rw (==_refl, g)
      (omega (arith, Counted-Fits ip (now + rl.window) rl.rate es 1 (allow now ip rl).0 w c))
