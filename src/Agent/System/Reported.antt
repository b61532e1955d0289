-- ===== src/Agent/System/Reported.antt =====
-- What a registration says of a machine, whatever its commands print.
use m_cloud.Base.{
  In, In-filter_split, ℕ, ◌^◌, ◌<◌, ◌≡◌, ◌≢◌, refl, sym, ◌∙◌, ◌⊎◌, inl, inr, true, List, [], ◌∷◌,
  arith, Text, codes, ◌==◌, ==_iff, Option, some, Option-cases, Bool-cases, filter, trim_space,
}
use m_cloud.Base.Words.{join-ne_nil, join}
use m_cloud.Base.Numbers.{parse_uint_bound}
use m_cloud.Base.Int.{pos}
use m_cloud.Store.{online}
use m_cloud.Agent.System.{Exec, Floats, output, lines}
use m_cloud.Agent.System.Info.{
  unknown, urls, curl, geo_request, cpu_lines, first_ip, get_public_ip, GeoResponse,
  get_geo_location, second_line, uint_field, get_memory_mb, collect_agent_info, get_cpu_info,
  get_disk_info, disk_sizes, is_known,
}
use m_cloud.Agent.System.Read.{free}

-- The answer of one of the URLs, without the white space around it.
abbrev pub IsAnswer : Exec → List Text → Text → Type 0
IsAnswer exec addresses ip =
    (url : Text) × In url addresses
    × ((text : Text) × (output exec (curl url) ≡ some text) × (trim_space text ≡ ip))

first_ip_lem :
    (exec : Exec) (addresses : List Text)
    → (first_ip exec addresses ≡ unknown)
      ⊎ (IsAnswer exec addresses (first_ip exec addresses) × (first_ip exec addresses ≢ []))
unfolding first_ip
first_ip_lem exec [] = inl refl
first_ip_lem exec (url ∷ rest) = elim (Option-cases (output exec (curl url))) [
  | inl e ↦ rw (e, first_ip) (later (first_ip_lem exec rest))
  | inr (text, e) ↦ elim (Bool-cases (trim_space text == [])) [
    | inl blank ↦ rw (e, blank, first_ip) (later (first_ip_lem exec rest))
    | inr some_text ↦
        rw (e, some_text, first_ip)
          (inr (
            (url, inl refl, (text, e, refl)),
            λ q. cc ((==_iff (trim_space text) []).1 q, some_text),
          ))
  ]
]
  where
    later :
        (first_ip exec rest ≡ unknown)
          ⊎ (IsAnswer exec rest (first_ip exec rest) × (first_ip exec rest ≢ []))
        → (first_ip exec rest ≡ unknown)
          ⊎ (IsAnswer exec (url ∷ rest) (first_ip exec rest) × (first_ip exec rest ≢ []))
    later (inl e) = inl e
    later (inr (answer, ne)) = let (u, m, said) = answer in inr ((u, inr m, said), ne)

filter_known :
    (texts : List Text) (p : Text) (ps : List Text) → filter is_known texts ≡ p ∷ ps → p ≢ []
filter_known texts p ps e =
    let member : In p (filter is_known texts) = rw e (inl refl) in
    let known : is_known p ≡ true = (In-filter_split is_known p texts member).1 in
    ground (arith, ==_iff p [])

unknown-ne_nil : unknown ≢ []
unknown-ne_nil e = cc

located :
    (texts : List Text)
    → (elim texts [ [] ↦ unknown | (p ∷ ps) ↦ join (codes " - ") (p ∷ ps) ]) ≢ []
      ⊎ ((p : Text) × (ps : List Text) × (texts ≡ p ∷ ps) × (p ≡ []))
located [] = inl unknown-ne_nil
located (p ∷ ps) = elim (Bool-cases (p == [])) [
  | inl e ↦ inr (p, ps, refl, (==_iff p []).0 e)
  | inr e ↦ inl (join-ne_nil (codes " - ") p ps (λ q. cc ((==_iff p []).1 q, e)))
]

get_geo_location-ne_nil :
    (decode : Text → Option GeoResponse) (exec : Exec) (ip : Text)
    → get_geo_location decode exec ip ≢ []
unfolding get_geo_location
get_geo_location-ne_nil decode exec ip = elim (Option-cases (output exec (geo_request ip))) [
  | inl e ↦ rw (e, get_geo_location) unknown-ne_nil
  | inr (text, e) ↦ elim (Option-cases (decode text)) [
    | inl d ↦ rw (e, d, get_geo_location) unknown-ne_nil
    | inr (geo, d) ↦
        rw (e, d, get_geo_location)
          (elim (located (filter is_known (geo.country ∷ geo.region_name ∷ geo.city ∷ []))) [
            | inl ne ↦ ne
            | inr (p, ps, q, blank) ↦
                absurd (filter_known (geo.country ∷ geo.region_name ∷ geo.city ∷ []) p ps q blank)
          ])
  ]
]

public_ip_lem :
    (exec : Exec)
    → ((get_public_ip exec ≡ unknown) ⊎ IsAnswer exec urls (get_public_ip exec))
      × (get_public_ip exec ≢ [])
unfolding get_public_ip
public_ip_lem exec = elim (first_ip_lem exec urls) [
  | inl e ↦ (inl e, λ q. unknown-ne_nil (sym e ∙ q))
  | inr (answer, ne) ↦ (inr answer, ne)
]

cpu_model-ne_nil : (exec : Exec) (num_cpu : ℕ) → (get_cpu_info exec num_cpu).0 ≢ []
unfolding get_cpu_info
cpu_model-ne_nil exec num_cpu = elim (Option-cases (output exec (codes "lscpu" ∷ []))) [
  | inl e ↦ rw (e, get_cpu_info) unknown-ne_nil
  | inr (text, e) ↦
      rw (e, get_cpu_info)
        (elim (Bool-cases ((cpu_lines (lines text) ([], pos 0)).0 == [])) [
          | inl blank ↦ rw blank unknown-ne_nil
          | inr named ↦ rw named (λ q. cc ((==_iff _ []).1 q, named))
        ])
]

memory_bound : (exec : Exec) → get_memory_mb exec < 2 ^ 64
unfolding get_memory_mb
memory_bound exec = elim (Option-cases (output exec free)) [
  | inl e ↦ rw (e, get_memory_mb) (omega arith)
  | inr (text, e) ↦ rw (e, get_memory_mb) (at (second_line text))
]
  where
    at : (words : List Text) → uint_field 1 words < 2 ^ 64
    at [] = omega arith
    at (a ∷ []) = omega arith
    at (a ∷ b ∷ rest) = parse_uint_bound b

disk_bound : (exec : Exec) → ((get_disk_info exec).0 < 2 ^ 64) × ((get_disk_info exec).1 < 2 ^ 64)
unfolding get_disk_info
disk_bound exec = elim (Option-cases (output exec (codes "df" ∷ codes "-BG" ∷ codes "/" ∷ []))) [
  | inl e ↦ rw (e, get_disk_info) (omega arith, omega arith)
  | inr (text, e) ↦ rw (e, get_disk_info) (at (second_line text))
]
  where
    at : (words : List Text) → ((disk_sizes words).0 < 2 ^ 64) × ((disk_sizes words).1 < 2 ^ 64)
    at [] = (omega arith, omega arith)
    at (a ∷ []) = (omega arith, omega arith)
    at (a ∷ b ∷ []) = (omega arith, omega arith)
    at (a ∷ b ∷ c ∷ rest) = (parse_uint_bound _, parse_uint_bound _)

-- Whatever the commands answer, a registration has an address, a location, a name for the
-- processor and the status "online"; its amounts of memory and disk are numbers of 64 bits; and its
-- address is "unknown" or what one of the three services answered.
pub collect_agent_info_lem :
    (decode : Text → Option GeoResponse) (exec : Exec) (floats : Floats) (goos : Text)
    (num_cpu now : ℕ) (id : Text)
    → let info = collect_agent_info decode exec floats goos num_cpu now id in
      (info.agent_id ≡ id)
      × (info.status ≡ online)
      × (info.public_ip ≢ [])
      × ((info.public_ip ≡ unknown) ⊎ IsAnswer exec urls info.public_ip)
      × (info.location ≢ [])
      × (info.cpu_model ≢ [])
      × (info.memory_mb < 2 ^ 64)
      × (info.disk_gb < 2 ^ 64)
      × (info.disk_used < 2 ^ 64)
unfolding collect_agent_info
collect_agent_info_lem decode exec floats goos num_cpu now id =
    let (address, address_ne) = public_ip_lem exec in
    let (total, used) = disk_bound exec in
    (
      refl,
      refl,
      address_ne,
      address,
      get_geo_location-ne_nil decode exec (get_public_ip exec),
      cpu_model-ne_nil exec num_cpu,
      memory_bound exec,
      total,
      used,
    )
