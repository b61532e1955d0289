-- ===== src/Agent/System/Info.antt =====
-- internal/agent/system/info.go: what a machine registers with.
use m_cloud.Base.{
  ℕ, zero, Bool, not, ◌&&◌, List, [], ◌∷◌, ◌++◌, filter, Text, codes, ◌==◌, if◌then◌else◌, Option,
  none, some, starts_with, trim_prefix, trim_space, get_elem?,
}
use m_cloud.Base.Int.{ℤ, pos}
use m_cloud.Base.Words.{fields, cut, trim_suffix, join}
use m_cloud.Base.Numbers.{parse_uint, atoi}
use m_cloud.Protocol.{AgentInfo, zero_info}
use m_cloud.Store.{online, unix}
use m_cloud.Agent.System.{Exec, Floats, output, lines, run}

abbrev pub unknown : Text
unknown = codes "unknown"

abbrev pub curl : Text → List Text
curl url = codes "curl" ∷ codes "-s" ∷ codes "--connect-timeout" ∷ codes "3" ∷ url ∷ []

abbrev pub urls : List Text
urls =
    codes "https://api.ipify.org" ∷ codes "https://ifconfig.me" ∷ codes "https://icanhazip.com" ∷ []

-- The loop of getPublicIP.
unfoldable pub first_ip : Exec → List Text → Text
unfolding output
first_ip exec [] = unknown
first_ip exec (url ∷ rest) =
    let others = first_ip exec rest in
    elim (output exec (curl url)) [
      | none ↦ others
      | some text ↦ if not (trim_space text == []) then trim_space text else others
    ]

unfoldable pub get_public_ip : Exec → Text
unfolding first_ip
get_public_ip exec = first_ip exec urls

pub record GeoResponse : Type 0 where
  pub country : Text
  pub region_name : Text
  pub city : Text

-- s != "" && s != "undefined"
abbrev pub is_known : Text → Bool
is_known s = not (s == []) && not (s == codes "undefined")

abbrev pub geo_request : Text → List Text
geo_request ip =
    curl (codes "http://ip-api.com/json/" ++ ip ++ codes "?fields=country,regionName,city")

-- `decode` reads the JSON text of a response.
unfoldable pub get_geo_location : (Text → Option GeoResponse) → Exec → Text → Text
unfolding output join
get_geo_location decode exec ip = elim (output exec (geo_request ip)) [
  | none ↦ unknown
  | some text ↦ elim (decode text) [
    | none ↦ unknown
    | some geo ↦ elim (filter is_known (geo.country ∷ geo.region_name ∷ geo.city ∷ [])) [
      | [] ↦ unknown
      | (p ∷ ps) ↦ join (codes " - ") (p ∷ ps)
    ]
  ]
]

-- The loop of getLSBField over the lines.
unfoldable pub lsb_value : Text → List Text → Text
unfolding cut
lsb_value field [] = []
lsb_value field (line ∷ rest) =
    let others = lsb_value field rest in
    elim (cut b':' line) [
      | none ↦ others
      | some parts ↦ if trim_space parts.0 == field then trim_space parts.1 else others
    ]

unfoldable pub get_lsb_field : Exec → Text → Text
unfolding output lsb_value
get_lsb_field exec field = elim (output exec (codes "lsb_release" ∷ codes "-a" ∷ [])) [
  | none ↦ []
  | some text ↦ lsb_value field (lines text)
]

-- trimPrefixAny; `none` is its false.
unfoldable pub trim_prefix_any : Text → List Text → Option Text
trim_prefix_any s [] = none
trim_prefix_any s (p ∷ ps) =
    let others = trim_prefix_any s ps in if starts_with s p then some (trim_prefix s p) else others

-- The full-width colon, and the Chinese words for "model name", in UTF-8.
abbrev pub wide_colon : Text
wide_colon = 0xEF ∷ 0xBC ∷ 0x9A ∷ []

abbrev pub model_name : Text
model_name = 0xE5 ∷ 0x9E ∷ 0x8B ∷ 0xE5 ∷ 0x8F ∷ 0xB7 ∷ 0xE5 ∷ 0x90 ∷ 0x8D ∷ 0xE7 ∷ 0xA7 ∷ 0xB0 ∷ []

abbrev pub model_prefixes : List Text
model_prefixes =
    codes "Model name:" ∷ (model_name ++ wide_colon) ∷ (codes "Model name" ++ wide_colon) ∷ []

abbrev pub core_prefixes : List Text
core_prefixes = codes "CPU(s):" ∷ (codes "CPU" ++ wide_colon) ∷ codes "CPU:" ∷ []

-- A turn of the loop of getCPUInfo.
unfoldable pub cpu_line : Text → Text × ℤ → Text × ℤ
unfolding trim_prefix_any
cpu_line raw (model, cores) =
    let line = trim_space raw in
    (
      elim (trim_prefix_any line model_prefixes) [ none ↦ model | some after ↦ trim_space after ],
      elim (trim_prefix_any line core_prefixes) [
        | none ↦ cores
        | some after ↦ atoi (trim_space after)
      ],
    )

unfoldable pub cpu_lines : List Text → Text × ℤ → Text × ℤ
unfolding cpu_line
cpu_lines [] found = found
cpu_lines (line ∷ rest) found = cpu_lines rest (cpu_line line found)

-- `num_cpu` is runtime.NumCPU().
unfoldable pub get_cpu_info : Exec → ℕ → Text × ℤ
unfolding output cpu_lines
get_cpu_info exec num_cpu = elim (output exec (codes "lscpu" ∷ [])) [
  | none ↦ (unknown, pos 1)
  | some text ↦
      let found = cpu_lines (lines text) ([], pos 0) in
      (if found.0 == [] then unknown else found.0, elim found.1 [ pos zero ↦ pos num_cpu | n ↦ n ])
]

-- The fields of the second line.
abbrev pub second_line : Text → List Text
second_line text = elim (get_elem? (lines text) 1) [ none ↦ [] | some line ↦ fields line ]

-- parse(fields[i]), or 0 where there is no such field.
abbrev pub uint_field : ℕ → List Text → ℕ
uint_field i words = elim (get_elem? words i) [ none ↦ 0 | some word ↦ parse_uint word ]

unfoldable pub get_memory_mb : Exec → ℕ
unfolding output fields
get_memory_mb exec = elim (output exec (codes "free" ∷ codes "-m" ∷ [])) [
  | none ↦ 0
  | some text ↦ uint_field 1 (second_line text)
]

-- The sizes stand with a G behind them.
abbrev pub gigabytes : Text → ℕ
gigabytes word = parse_uint (trim_suffix word b'G')

abbrev pub disk_sizes : List Text → ℕ × ℕ
disk_sizes (name ∷ total ∷ used ∷ rest) = (gigabytes total, gigabytes used)
disk_sizes _ = (0, 0)

unfoldable pub get_disk_info : Exec → ℕ × ℕ
unfolding output fields
get_disk_info exec = elim (output exec (codes "df" ∷ codes "-BG" ∷ codes "/" ∷ [])) [
  | none ↦ (0, 0)
  | some text ↦ disk_sizes (second_line text)
]

unfoldable pub get_uptime_seconds : Exec → Floats → ℕ
unfolding output fields
get_uptime_seconds exec floats = elim (output exec (codes "cat" ∷ codes "/proc/uptime" ∷ [])) [
  | none ↦ 0
  | some text ↦ elim (fields text) [
    | [] ↦ 0
    | (word ∷ rest) ↦ floats.to_uint ((floats.parse word).0)
  ]
]

-- `goos` is runtime.GOOS.
unfoldable pub collect_agent_info :
    (Text → Option GeoResponse) → Exec → Floats → Text → ℕ → ℕ → Text → AgentInfo
unfolding run get_public_ip get_geo_location get_lsb_field get_cpu_info get_memory_mb get_disk_info
    get_uptime_seconds
collect_agent_info decode exec floats goos num_cpu now id =
    let ip = get_public_ip exec in
    let (model, cores) = get_cpu_info exec num_cpu in
    let (total, used) = get_disk_info exec in
    record zero_info {
      agent_id = id;
      status = online;
      os = goos;
      hostname = run exec (codes "hostname" ∷ []);
      public_ip = ip;
      location = get_geo_location decode exec ip;
      distributor_id = get_lsb_field exec (codes "Distributor ID");
      description = get_lsb_field exec (codes "Description");
      release = get_lsb_field exec (codes "Release");
      codename = get_lsb_field exec (codes "Codename");
      cpu_model = model;
      cpu_cores = cores;
      memory_mb = get_memory_mb exec;
      disk_gb = total;
      disk_used = used;
      uptime = get_uptime_seconds exec floats;
      last_seen = unix now;
    }
