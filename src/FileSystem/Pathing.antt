-- ===== src/FileSystem/Pathing.antt =====
-- pathing.py and session.py: how a tool's `path` and `cwd` arguments become a path.
use chatgpt_web_oauth_mcp.Prelude.{Bool, Option, none, some, ◌∷◌, Text, if◌then◌else◌}
use chatgpt_web_oauth_mcp.FileSystem.{FilePath}

-- What `pathlib` and the operating system do with a path.
pub record PathLib : Type 1 where
  pub RawPath : Type 0
  pub expanduser : Text → RawPath
  pub is_absolute : RawPath → Bool
  pub under : FilePath → RawPath → RawPath
  pub resolve : RawPath → FilePath

-- The module state of session.py.
pub record Session : Type 0 where
  pub default_cwd : Option FilePath

unfoldable pub get_default_cwd : Session → Option FilePath
get_default_cwd s = s.default_cwd

-- Returns the new session and the active value.
unfoldable pub set_default_cwd : Option FilePath → Session → Session × Option FilePath
set_default_cwd cwd s = (record s { default_cwd = cwd }, cwd)

module _ (lib : PathLib) where
  open lib use {expanduser, is_absolute, under, resolve}

  unfoldable pub resolve_path : Text → FilePath → FilePath
  resolve_path path workspace_root =
      let raw = expanduser path in
      if is_absolute raw then resolve raw else resolve (under workspace_root raw)

  session_or_root : Option FilePath → FilePath → FilePath
  session_or_root (some cwd) workspace_root = cwd
  session_or_root none workspace_root = workspace_root

  -- An absent and an empty `cwd` both fall back.
  unfoldable pub resolve_cwd : Session → Option Text → FilePath → FilePath
  unfolding resolve_path session_or_root get_default_cwd
  resolve_cwd s (some (c ∷ cwd)) workspace_root = resolve_path (c ∷ cwd) workspace_root
  resolve_cwd s _ workspace_root = session_or_root (get_default_cwd s) workspace_root
