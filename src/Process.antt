-- ===== src/Process.antt =====
-- process_env.py: the environment of a child process.
pub mod Secrets
mod Tests
use chatgpt_web_oauth_mcp.Prelude.{Option, none, some, List, [], ◌∷◌, Text, codes}
use chatgpt_web_oauth_mcp.Prelude.Dict.{Dict, remove}
use chatgpt_web_oauth_mcp.Prelude.Dict.Merge.{merge}

abbrev pub control_plane_secret_env_keys : List Text
control_plane_secret_env_keys =
    codes "CHATGPT_MCP_AUTH_TOKEN"
    ∷ codes "CHATGPT_MCP_HEALTH_TOKEN"
    ∷ codes "CHATGPT_MCP_OAUTH_LOGIN_TOKEN"
    ∷ []

-- The loop of `env.pop(key, None)`.
unfoldable pub drop_keys : List Text → Dict Text → Dict Text
drop_keys [] env = env
drop_keys (key ∷ keys) env = drop_keys keys (remove key env)

abbrev pub overridden : Dict Text → Option (Dict Text) → Dict Text
overridden env none = env
overridden env (some overrides) = merge env overrides

-- `environ` is a copy of the server's environment.
unfoldable pub sanitized_child_env : Dict Text → Option (Dict Text) → Dict Text
unfolding drop_keys
sanitized_child_env environ overrides =
    drop_keys control_plane_secret_env_keys (overridden environ overrides)
