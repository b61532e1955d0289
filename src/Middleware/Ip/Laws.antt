-- ===== src/Middleware/Ip/Laws.antt =====
-- Whom the whitelist lets through.
use m_cloud.Auth.Jwt.{Claims}
use m_cloud.Base.{
  Option, ℕ, ◌≡◌, ◌≢◌, ◌⊎◌, refl, inl, inr, true, false, List, [], ◌∷◌, arith, Text, codes, In,
  Bool-cases, length, suc, ltb, lt→ltb,
}
use m_cloud.Flags.{flag, set_of, flag-set_of}
use m_cloud.Http.{Request, Handler, forbidden}
use m_cloud.Middleware.Ip.{Net, is_private_addr, peer, extract_ip, new_whitelist, whitelist}

-- A client that connects from an address which is neither private nor loopback cannot choose the
-- address it is known by: it is the peer's, whatever its headers say.
pub extract_ip_untrusted :
    (net : Net) (r : Request)
    → is_private_addr net r.remote_addr ≡ false
    → extract_ip net r ≡ peer net r.remote_addr
unfolding extract_ip
extract_ip_untrusted net r h = ground arith

-- A whitelist made of a list passes a request on exactly if the list is empty or holds the
-- request's address; any other request gets 403 and the state is not touched.
pub whitelist_lem :
    (net : Net) {S R : Type 0} (failure : ℕ → Text → R) (ips : List Text) (next : Handler S R)
    → (ctx : Option Claims) (r : Request) (s : S)
    → ((ips ≡ []) ⊎ In (extract_ip net r) ips
        → whitelist net failure (new_whitelist ips) next ctx r s ≡ next ctx r s)
      × (ips ≢ []
          → ¬ In (extract_ip net r) ips
          → whitelist net failure (new_whitelist ips) next ctx r s
            ≡ (failure forbidden (codes "forbidden"), s))
unfolding whitelist new_whitelist
whitelist_lem net failure [] next ctx r s = (λ _. refl, λ ne. absurd (ne refl))
whitelist_lem net failure (ip ∷ ips) next ctx r s =
    let on : ltb 0 (suc (length ips)) ≡ true = lt→ltb 0 (suc (length ips)) (omega arith) in
    elim (Bool-cases (flag (set_of (ip ∷ ips)) (extract_ip net r))) [
      | inl e ↦ (
        λ _. rw (on, e, whitelist, new_whitelist) refl,
        λ _ n. absurd (n ((flag-set_of (ip ∷ ips) (extract_ip net r)).0 e)),
      )
      | inr e ↦ (
        λ h. absurd (cc (e, (flag-set_of (ip ∷ ips) (extract_ip net r)).1 (listed h))),
        λ _ _. rw (on, e, whitelist, new_whitelist) refl,
      )
    ]
  where
    listed : (ip ∷ ips ≡ []) ⊎ In (extract_ip net r) (ip ∷ ips) → In (extract_ip net r) (ip ∷ ips)
    listed (inl e) = absurd (cc e)
    listed (inr m) = m
