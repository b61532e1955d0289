-- ===== src/Middleware/Limiter.antt =====
-- RateLimiter: a count and an end of the window for each address. `now` is in nanoseconds; a method
-- holds the limiter's lock for its whole body.
pub mod Window
pub mod Limits
use m_cloud.Base.{
  ℕ, ◌+◌, Bool, true, false, not, ◌||◌, Text, codes, leb, ltb, if◌then◌else◌, Option, none, some,
}
use m_cloud.Dict
use m_cloud.Dict.{Dict}
use m_cloud.Http.{Request, Handler, too_many_requests}
use m_cloud.Middleware.Ip.{Net, extract_ip}

pub record LimiterEntry : Type 0 where
  pub count : ℕ
  pub reset_at : ℕ

pub record RateLimiter : Type 0 where
  pub limits : Dict LimiterEntry
  pub rate : ℕ
  pub window : ℕ

unfoldable pub new : ℕ → ℕ → RateLimiter
new rate window = record { limits = Dict.empty; rate = rate; window = window }

-- A minute in nanoseconds.
abbrev pub minute : ℕ
minute = 60_000_000_000

unfoldable pub new_login : RateLimiter
unfolding new
new_login = new 5 minute

unfoldable pub open_window : ℕ → Text → RateLimiter → RateLimiter × Bool
open_window now ip rl = (
  record rl { limits = Dict.put rl.limits ip (record { count = 1; reset_at = now + rl.window }) },
  true,
)

unfoldable pub allow : ℕ → Text → RateLimiter → RateLimiter × Bool
unfolding open_window
allow now ip rl = elim (Dict.get rl.limits ip) [
  | none ↦ open_window now ip rl
  | some entry ↦ if ltb entry.reset_at now then open_window now ip rl else (
    record rl { limits = Dict.put rl.limits ip (record entry { count = entry.count + 1 }) },
    leb (entry.count + 1) rl.rate,
  )
]

-- A tick of the cleanup goroutine.
unfoldable pub cleanup : ℕ → RateLimiter → RateLimiter
cleanup now rl = record rl { limits = Dict.retain (λ e. not (ltb e.reset_at now)) rl.limits }

-- The limiter is a part of the state that the handlers share.
module _ (net : Net) {S R : Type 0} (failure : ℕ → Text → R) (part : S → RateLimiter)
    (set : RateLimiter → S → S) where
  unfoldable pub limited : Handler S R → Handler S R
  limited next ctx r s =
      let (rl, allowed) = allow r.time (extract_ip net r) (part s) in
      if not allowed
      then (failure too_many_requests (codes "too many requests"), set rl s)
      else next ctx r (set rl s)
