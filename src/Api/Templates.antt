-- ===== src/Api/Templates.antt =====
-- HandleScriptTemplates: the scripts that the web page offers. The names are Chinese words, written as
-- the bytes of UTF-8.
use m_cloud.Base.{List, [], ◌∷◌, ◌++◌, Text, codes}

pub record ScriptTemplate : Type 0 where
  pub id : Text
  pub name : Text
  pub script : Text

abbrev template : Text → Text → Text → ScriptTemplate
template id name script = record { id = id; name = name; script = script }

unfoldable pub script_templates : List ScriptTemplate
script_templates =
    template (codes "sysinfo")
      (0xE7 ∷ 0xB3 ∷ 0xBB ∷ 0xE7 ∷ 0xBB ∷ 0x9F ∷ 0xE4 ∷ 0xBF ∷ 0xA1 ∷ 0xE6 ∷ 0x81 ∷ 0xAF ∷ [])
      (codes "echo '=== System Info ==='"
        ++ (b'\n' ∷ [])
        ++ codes "uname -a"
        ++ (b'\n' ∷ [])
        ++ codes "cat /etc/os-release | head -5"
        ++ (b'\n' ∷ [])
        ++ codes "uptime")
    ∷ template (codes "disk")
        (0xE7 ∷ 0xA3 ∷ 0x81 ∷ 0xE7 ∷ 0x9B ∷ 0x98 ∷ 0xE4 ∷ 0xBD ∷ 0xBF ∷ 0xE7 ∷ 0x94 ∷ 0xA8 ∷ [])
        (codes "echo '=== Disk Usage ==='"
          ++ (b'\n' ∷ [])
          ++ codes "df -h"
          ++ (b'\n' ∷ [])
          ++ codes "echo '=== Inodes ==='"
          ++ (b'\n' ∷ [])
          ++ codes "df -i")
    ∷ template (codes "net")
        (0xE7 ∷ 0xBD ∷ 0x91 ∷ 0xE7 ∷ 0xBB ∷ 0x9C ∷ 0xE4 ∷ 0xBF ∷ 0xA1 ∷ 0xE6 ∷ 0x81 ∷ 0xAF ∷ [])
        (codes "echo '=== Network ==='"
          ++ (b'\n' ∷ [])
          ++ codes "ip addr show | grep 'inet '"
          ++ (b'\n' ∷ [])
          ++ codes "echo '=== Connections ==='"
          ++ (b'\n' ∷ [])
          ++ codes "ss -tlnp | head -20")
    ∷ template (codes "process") ((0xE8 ∷ 0xBF ∷ 0x9B ∷ 0xE7 ∷ 0xA8 ∷ 0x8B ∷ []) ++ codes "TOP") (
        codes "echo '=== Top CPU ==='"
        ++ (b'\n' ∷ [])
        ++ codes "ps aux --sort=-%cpu | head -10"
        ++ (b'\n' ∷ [])
        ++ codes "echo '=== Top Memory ==='"
        ++ (b'\n' ∷ [])
        ++ codes "ps aux --sort=-%mem | head -10")
    ∷ template (codes "security")
        (0xE5 ∷ 0xAE ∷ 0x89 ∷ 0xE5 ∷ 0x85 ∷ 0xA8 ∷ 0xE6 ∷ 0xA3 ∷ 0x80 ∷ 0xE6 ∷ 0x9F ∷ 0xA5 ∷ [])
        (codes "echo '=== Last Logins ==='"
          ++ (b'\n' ∷ [])
          ++ codes "last -10"
          ++ (b'\n' ∷ [])
          ++ codes "echo '=== Failed SSH ==='"
          ++ (b'\n' ∷ [])
          ++ codes
              "grep 'Failed password' /var/log/auth.log 2>/dev/null | tail -10 || journalctl -u sshd | grep Failed | tail -10")
    ∷ template (codes "docker") (codes "Docker" ++ (0xE7 ∷ 0x8A ∷ 0xB6 ∷ 0xE6 ∷ 0x80 ∷ 0x81 ∷ [])) (
        codes "echo '=== Docker Containers ==='"
        ++ (b'\n' ∷ [])
        ++ codes "docker ps -a 2>/dev/null || echo 'Docker not installed'"
        ++ (b'\n' ∷ [])
        ++ codes "echo '=== Docker Images ==='"
        ++ (b'\n' ∷ [])
        ++ codes "docker images 2>/dev/null")
    ∷ template (codes "update")
        (0xE7 ∷ 0xB3 ∷ 0xBB ∷ 0xE7 ∷ 0xBB ∷ 0x9F ∷ 0xE6 ∷ 0x9B ∷ 0xB4 ∷ 0xE6 ∷ 0x96 ∷ 0xB0 ∷ [])
        (codes
          "apt list --upgradable 2>/dev/null | head -20 || yum check-update 2>/dev/null | head -20")
    ∷ template (codes "mem_detail")
        (0xE5 ∷ 0x86 ∷ 0x85 ∷ 0xE5 ∷ 0xAD ∷ 0x98 ∷ 0xE8 ∷ 0xAF ∷ 0xA6 ∷ 0xE6 ∷ 0x83 ∷ 0x85 ∷ [])
        (codes "echo '=== Memory ==='"
          ++ (b'\n' ∷ [])
          ++ codes "free -h"
          ++ (b'\n' ∷ [])
          ++ codes "echo '=== Top Memory Processes ==='"
          ++ (b'\n' ∷ [])
          ++ codes "ps aux --sort=-%mem | head -10")
    ∷ []

-- 200 with the list.
unfoldable pub handle_script_templates : List ScriptTemplate
unfolding script_templates
handle_script_templates = script_templates
