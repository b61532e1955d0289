-- ===== src/Middleware/Ip.antt =====
-- ExtractIP, isPrivateAddr and IPWhitelist. The parsers of package net are parameters.
pub mod Laws
use m_cloud.Base.{
  ℕ, Bool, true, false, not, ◌&&◌, ◌||◌, List, [], ◌∷◌, Text, codes, ◌==◌, split, trim_space, leb,
  ltb, if◌then◌else◌, Option, none, some, length,
}
use m_cloud.Dict.{Dict}
use m_cloud.Flags.{set_of, flag}
use m_cloud.Http.{Request, Handler, forbidden}

-- net.SplitHostPort (its host), net.ParseIP, IP.IsPrivate and IP.IsLoopback.
pub record Net : Type 0 where
  pub split_host_port : Text → Option Text
  pub parse_ip : Text → Option Text
  pub is_private : Text → Bool
  pub is_loopback : Text → Bool

module _ (net : Net) where
  unfoldable pub is_private_addr : Text → Bool
  is_private_addr addr = elim (net.split_host_port addr) [
    | none ↦ false
    | some host ↦ elim (net.parse_ip host) [
      | none ↦ false
      | some ip ↦ net.is_private ip || net.is_loopback ip
    ]
  ]

  -- The part of ExtractIP after the X-Forwarded-For header is set aside.
  unfoldable pub peer : Text → Text
  peer addr = elim (net.split_host_port addr) [ none ↦ addr | some host ↦ host ]

  -- strings.TrimSpace(parts[0]); strings.Split returns at least one part.
  unfoldable pub first_part : List Text → Text
  first_part [] = []
  first_part (p ∷ ps) = trim_space p

  unfoldable pub extract_ip : Request → Text
  unfolding is_private_addr peer first_part
  extract_ip r =
      let xff = r.header (codes "X-Forwarded-For") in
      if not (xff == []) && is_private_addr r.remote_addr
      then first_part (split b',' xff)
      else peer r.remote_addr

pub record IpWhitelist : Type 0 where
  pub allowed : Dict Bool
  pub enabled : Bool

unfoldable pub new_whitelist : List Text → IpWhitelist
new_whitelist ips = record { allowed = set_of ips; enabled = ltb 0 (length ips) }

module _ (net : Net) {S R : Type 0} (failure : ℕ → Text → R) where
  unfoldable pub whitelist : IpWhitelist → Handler S R → Handler S R
  whitelist wl next ctx r s =
      if not wl.enabled
      then next ctx r s
      else if not (flag wl.allowed (extract_ip net r))
      then (failure forbidden (codes "forbidden"), s)
      else next ctx r s
