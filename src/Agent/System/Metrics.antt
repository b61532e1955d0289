-- ===== src/Agent/System/Metrics.antt =====
-- internal/agent/system/metrics.go: the load of a machine, as it is pushed every five seconds.
use m_cloud.Base.{
  ℕ, List, [], ◌∷◌, Text, codes, if◌then◌else◌, none, some, eqb, trim_space, get_elem?,
}
use m_cloud.Base.Int.{ℤ, pos}
use m_cloud.Base.Words.{fields, cut, trim_suffix}
use m_cloud.Base.Numbers.{parse_uint, atoi}
use m_cloud.Protocol.{MachineMetrics, Float64}
use m_cloud.Agent.System.{Exec, Floats, zero_float, output}
use m_cloud.Agent.System.Info.{second_line}

abbrev pub bash : Text → List Text
bash script = codes "bash" ∷ codes "-c" ∷ script ∷ []

unfoldable pub get_cpu_percent : Exec → Floats → Float64
unfolding output
get_cpu_percent exec floats =
    elim (output exec (bash (codes "top -bn1 | grep 'Cpu(s)' | awk '{print $2}'"))) [
      | none ↦ zero_float
      | some text ↦
          let parsed = floats.parse (trim_space text) in if parsed.1 then parsed.0 else zero_float
    ]

-- float64(used) / float64(total) * 100, and used.
abbrev pub memory_load : Floats → ℕ → ℕ → Float64 × ℕ
memory_load floats total used = if eqb total 0 then (zero_float, 0) else (
  floats.times (floats.divided (floats.of_uint used) (floats.of_uint total)) (floats.of_uint 100),
  used,
)

abbrev pub memory_fields : Floats → List Text → Float64 × ℕ
memory_fields floats (name ∷ total ∷ used ∷ rest) =
    memory_load floats (parse_uint total) (parse_uint used)
memory_fields floats _ = (zero_float, 0)

unfoldable pub get_mem_percent : Exec → Floats → Float64 × ℕ
unfolding output fields
get_mem_percent exec floats = elim (output exec (codes "free" ∷ codes "-m" ∷ [])) [
  | none ↦ (zero_float, 0)
  | some text ↦ memory_fields floats (second_line text)
]

unfoldable pub get_disk_percent : Exec → Floats → Float64
unfolding output fields
get_disk_percent exec floats = elim (output exec (codes "df" ∷ codes "-h" ∷ codes "/" ∷ [])) [
  | none ↦ zero_float
  | some text ↦ elim (get_elem? (second_line text) 4) [
    | none ↦ zero_float
    | some word ↦ (floats.parse (trim_suffix word b'%')).0
  ]
]

abbrev pub load_fields : Floats → List Text → Float64 × Float64 × Float64
load_fields floats (a ∷ b ∷ c ∷ rest) = ((floats.parse a).0, (floats.parse b).0, (floats.parse c).0)
load_fields floats _ = (zero_float, zero_float, zero_float)

unfoldable pub get_load_avg : Exec → Floats → Float64 × Float64 × Float64
unfolding output fields
get_load_avg exec floats = elim (output exec (codes "cat" ∷ codes "/proc/loadavg" ∷ [])) [
  | none ↦ (zero_float, zero_float, zero_float)
  | some text ↦ load_fields floats (fields text)
]

-- The first and the ninth of at least ten fields.
abbrev pub byte_counts : List Text → ℕ × ℕ
byte_counts words = elim (get_elem? words 9) [
  | none ↦ (0, 0)
  | some tenth ↦ (
    elim (get_elem? words 0) [ none ↦ 0 | some rx ↦ parse_uint rx ],
    elim (get_elem? words 8) [ none ↦ 0 | some tx ↦ parse_uint tx ],
  )
]

unfoldable pub get_net_bytes : Exec → ℕ × ℕ
unfolding output fields cut
get_net_bytes exec =
    elim (output exec (bash (codes "cat /proc/net/dev | grep -E 'eth|ens|wlan|enp' | head -1"))) [
      | none ↦ (0, 0)
      | some text ↦ elim (cut b':' (trim_space text)) [
        | none ↦ (0, 0)
        | some parts ↦ byte_counts (fields parts.1)
      ]
    ]

abbrev pub line_count : Exec → Text → ℤ
line_count exec script = elim (output exec (bash script)) [
  | none ↦ pos 0
  | some text ↦ atoi (trim_space text)
]

unfoldable pub get_tcp_conns : Exec → ℤ
unfolding output
get_tcp_conns exec = line_count exec (codes "ss -t | tail -n +2 | wc -l")

unfoldable pub get_process_count : Exec → ℤ
unfolding output
get_process_count exec = line_count exec (codes "ps -e --no-headers | wc -l")

-- The caller sets the timestamp.
unfoldable pub collect_metrics : Exec → Floats → MachineMetrics
unfolding get_cpu_percent get_mem_percent get_disk_percent get_load_avg get_net_bytes get_tcp_conns
    get_process_count
collect_metrics exec floats =
    let (percent, used) = get_mem_percent exec floats in
    let (load1, load5, load15) = get_load_avg exec floats in
    let (rx, tx) = get_net_bytes exec in
    record {
      cpu_percent = get_cpu_percent exec floats;
      mem_percent = percent;
      mem_used_mb = used;
      disk_percent = get_disk_percent exec floats;
      load1 = load1;
      load5 = load5;
      load15 = load15;
      net_rx_bytes = rx;
      net_tx_bytes = tx;
      tcp_conns = get_tcp_conns exec;
      process_count = get_process_count exec;
      timestamp = pos 0;
    }
