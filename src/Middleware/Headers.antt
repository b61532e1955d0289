-- ===== src/Middleware/Headers.antt =====
-- SecurityHeaders and AuditLogger. The headers that a response has so far stand beside it, and the
-- log is a part of the state that the handlers share.
use m_cloud.Base.{Bool, List, [], ◌∷◌, ◌++◌, Text, codes, if◌then◌else◌, not}
use m_cloud.Flags.{set_of, flag}
use m_cloud.Dict.{Dict}
use m_cloud.Http.{Handler}
use m_cloud.Middleware.Ip.{Net, extract_ip}

unfoldable pub headers : List (Text × Text)
headers =
    (codes "X-Content-Type-Options", codes "nosniff")
    ∷ (codes "X-Frame-Options", codes "DENY")
    ∷ (codes "X-XSS-Protection", codes "1; mode=block")
    ∷ (codes "Referrer-Policy", codes "strict-origin-when-cross-origin")
    ∷ (
      codes "Content-Security-Policy",
      codes "default-src 'self'; script-src 'self' 'unsafe-inline' https://cdn.jsdelivr.net; "
          ++ codes "style-src 'self' 'unsafe-inline' https://cdn.jsdelivr.net; "
          ++ codes "connect-src 'self' ws: wss:; font-src 'self'; img-src 'self' data:;",
    )
    ∷ (codes "Permissions-Policy", codes "camera=(), microphone=(), geolocation=()")
    ∷ []

-- The paths that are not logged.
abbrev pub exclude_paths : Dict Bool
exclude_paths = set_of (codes "/favicon.ico" ∷ [])

module _ {S R : Type 0} where
  unfoldable pub security_headers : Handler S R → Handler S (List (Text × Text) × R)
  security_headers next ctx r s = let (reply, s') = next ctx r s in ((headers, reply), s')

  unfoldable pub audit_logger : Net → (Text → S → S) → Handler S R → Handler S R
  audit_logger net append next ctx r s =
      let line =
        codes "[AUDIT] " ++ r.method ++ codes " " ++ r.path ++ codes " ip=" ++ extract_ip net r in
      next ctx r (if not (flag exclude_paths r.path) then append line s else s)
