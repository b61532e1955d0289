-- ===== src/Http/Origin.antt =====
-- CheckOrigin of the WebSocket upgraders in internal/master/api/api.go and cmd/gateway/main.go,
-- which have the same text.
use m_cloud.Base.{
  ◌≡◌, Bool, true, false, ◌||◌, [], ◌++◌, arith, Text, codes, ◌==◌, ==_iff, starts_with,
  starts_with-append, if◌then◌else◌,
}
use m_cloud.Http.{Request}

unfoldable pub check_origin : Request → Bool
check_origin r =
    let origin = r.header (codes "Origin") in
    let host = r.host in
    if origin == []
    then false
    else origin == codes "http://" ++ host
      || origin == codes "https://" ++ host
      || starts_with origin (codes "https://" ++ host)
      || starts_with origin (codes "http://" ++ host)

-- A request with no Origin header is refused, as any client sends one that is not a browser.
pub check_origin_absent : (r : Request) → r.header (codes "Origin") ≡ [] → check_origin r ≡ false
unfolding check_origin
check_origin_absent r e = ground (arith, ==_iff (r.header (codes "Origin")) [])

-- An origin of another site passes if its text goes on from the host's name, as in
-- https://ops.example.evil.org for the host ops.example.
pub check_origin_suffix :
    (r : Request) (suffix : Text)
    → r.header (codes "Origin") ≡ codes "https://" ++ (r.host ++ suffix)
    → check_origin r ≡ true
unfolding check_origin
check_origin_suffix r suffix e =
    let p : starts_with (r.header (codes "Origin")) (codes "https://" ++ r.host) ≡ true =
      rw e (starts_with-append (codes "https://" ++ r.host) suffix) in
    ground (arith, p, ==_iff (r.header (codes "Origin")) [])
