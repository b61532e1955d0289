-- ===== src/Env.antt =====
-- getEnv, which stands in cmd/agent/main.go, cmd/gateway/main.go and cmd/master/main.go. os.Getenv
-- gives "" for a variable that is not set.
use m_cloud.Base.{[], not, Text, ◌==◌, if◌then◌else◌}

abbrev pub Env : Type 0
Env = Text → Text

unfoldable pub get_env : Env → Text → Text → Text
get_env env key fallback = if not (env key == []) then env key else fallback
