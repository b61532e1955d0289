-- ===== src/Middleware/Limiter/Limits.antt =====
-- A handler behind the limiter, for clients whose address is neither private nor loopback.
use m_cloud.Base.{
  ℕ, ◌≤◌, ◌<◌, ◌≡◌, refl, ◌⊎◌, true, false, arith, Text, codes, ltb, Option, none, some,
}
use m_cloud.Dict
use m_cloud.Auth.Jwt.{Claims}
use m_cloud.Http.{Request, Handler, too_many_requests}
use m_cloud.Middleware.Ip.{Net, is_private_addr, peer}
use m_cloud.Middleware.Ip.Laws.{extract_ip_untrusted}
use m_cloud.Middleware.Limiter.{LimiterEntry, RateLimiter, allow, open_window, limited}

allow_spent :
    (now : ℕ) (ip : Text) (rl : RateLimiter) (entry : LimiterEntry)
    → Dict.get rl.limits ip ≡ some entry
    → now ≤ entry.reset_at
    → rl.rate ≤ entry.count
    → (allow now ip rl).1 ≡ false
unfolding allow
allow_spent now ip rl entry e inside spent =
    let t : ltb entry.reset_at now ≡ false = ground arith in rw (e, allow) (rw t (ground arith))

allow_left :
    (now : ℕ) (ip : Text) (rl : RateLimiter) (entry : LimiterEntry)
    → Dict.get rl.limits ip ≡ some entry
    → (entry.reset_at < now) ⊎ (entry.count < rl.rate)
    → (allow now ip rl).1 ≡ true
unfolding allow open_window
allow_left now ip rl entry e left = rw (e, allow) (ground arith)

pub allow_first :
    (now : ℕ) (ip : Text) (rl : RateLimiter)
    → Dict.get rl.limits ip ≡ none
    → (allow now ip rl).1 ≡ true
unfolding allow open_window
allow_first now ip rl e = rw (e, allow) refl

-- A client whose address is neither private nor loopback is counted by that address, whatever its
-- headers say. While the window of the address is open and its rate is used up, the response is
-- 429; with no window, with one that has ended, or with less than the rate counted, the request
-- goes on. The limiter counts it in each case, before the handler runs.
pub limited_lem :
    (net : Net) {S R : Type 0} (failure : ℕ → Text → R) (part : S → RateLimiter)
    (set : RateLimiter → S → S) (next : Handler S R) (ctx : Option Claims) (r : Request) (s : S)
    → is_private_addr net r.remote_addr ≡ false
    → ((entry : LimiterEntry)
        → Dict.get (part s).limits (peer net r.remote_addr) ≡ some entry
        → r.time ≤ entry.reset_at
        → (part s).rate ≤ entry.count
        → limited net failure part set next ctx r s ≡ (
          failure too_many_requests (codes "too many requests"),
          set (allow r.time (peer net r.remote_addr) (part s)).0 s,
        ))
      × ((entry : LimiterEntry)
          → Dict.get (part s).limits (peer net r.remote_addr) ≡ some entry
          → (entry.reset_at < r.time) ⊎ (entry.count < (part s).rate)
          → limited net failure part set next ctx r s
            ≡ next ctx r (set (allow r.time (peer net r.remote_addr) (part s)).0 s))
      × (Dict.get (part s).limits (peer net r.remote_addr) ≡ none
          → limited net failure part set next ctx r s
            ≡ next ctx r (set (allow r.time (peer net r.remote_addr) (part s)).0 s))
unfolding limited
limited_lem net failure part set next ctx r s outside =
    let ip = extract_ip_untrusted net r outside in
    let at = peer net r.remote_addr in
    let rl = part s in
    (
      λ entry e inside spent. rw (ip, allow_spent r.time at rl entry e inside spent, limited) refl,
      λ entry e left. rw (ip, allow_left r.time at rl entry e left, limited) refl,
      λ e. rw (ip, allow_first r.time at rl e, limited) refl,
    )
