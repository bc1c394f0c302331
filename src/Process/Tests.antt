-- ===== src/Process/Tests.antt =====
-- A run of process_env.py.
use chatgpt_web_oauth_mcp.Prelude.{◌≡◌, some, [], ◌∷◌, Text, codes, text_eq, elem}
use chatgpt_web_oauth_mcp.Prelude.Dict.{Dict, get}
use chatgpt_web_oauth_mcp.Prelude.Dict.Merge.{last_value}
use chatgpt_web_oauth_mcp.Process.{sanitized_child_env}
use chatgpt_web_oauth_mcp.Process.Secrets.{sanitized_child_env-get}

abbrev environ : Dict Text
environ = (codes "PATH", codes "p") ∷ (codes "CHATGPT_MCP_AUTH_TOKEN", codes "s") ∷ []

sanitized_child_env-get_example :
    get (codes "PATH") (sanitized_child_env environ (some ((codes "PATH", codes "q") ∷ [])))
    ≡ some (codes "q")
unfolding last_value elem text_eq
sanitized_child_env-get_example =
    sanitized_child_env-get (codes "PATH") environ (some ((codes "PATH", codes "q") ∷ []))
