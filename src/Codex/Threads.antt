-- ===== src/Codex/Threads.antt =====
-- The checks of arguments and of what the app server says of a thread.
use chatgpt_web_oauth_mcp.Prelude.{
  ℕ, Bool, true, false, Option, none, some, [], ◌∷◌, Text, length, ltb, if◌then◌else◌, Result, ok,
  err, ◌>>=◌,
}
use chatgpt_web_oauth_mcp.FileSystem.{FilePath}
use chatgpt_web_oauth_mcp.Codex.{
  Sandbox, Code, invalid_arguments, codex_protocol_error, runtime_metadata_mismatch, Thread, World,
  sandbox_matches, strip,
}

-- `MAX_RUNTIME_NAME_LENGTH`
abbrev pub max_runtime_name_length : ℕ
max_runtime_name_length = 128

abbrev bounded_name : Text → Result Code (Option Text)
bounded_name [] = ok none
bounded_name (c ∷ normalized) =
    if ltb max_runtime_name_length (length (c ∷ normalized))
    then err invalid_arguments
    else ok (some (c ∷ normalized))

unfoldable pub normalize_name : Option Text → Result Code (Option Text)
normalize_name none = ok none
normalize_name (some name) = bounded_name (strip name)

-- `isinstance(value, str) and value.strip()`
abbrev non_blank : Code → Option Text → Result Code Text
non_blank code none = err code
non_blank code (some value) = elim (strip value) [ [] ↦ err code | c ∷ text ↦ ok (c ∷ text) ]

abbrev present_path : Option FilePath → Result Code FilePath
present_path none = err codex_protocol_error
present_path (some path) = ok path

abbrev pub unless_code : Bool → Code → Result Code (Unit {0})
unless_code true code = ok tt
unless_code false code = err code

module _ {W : Type 0} (env : World W) where
  open env use {resolve, path_eq}

  unfoldable pub verify_thread_metadata :
      Thread → FilePath → Sandbox → Result Code (Text × FilePath)
  verify_thread_metadata result expected_cwd expected_sandbox = do
    thread_id ← non_blank codex_protocol_error result.thread_id
    cwd ← present_path result.cwd
    same_cwd ← unless_code (path_eq (resolve cwd) (resolve expected_cwd)) runtime_metadata_mismatch
    same_mode ←
        unless_code (sandbox_matches expected_sandbox result.sandbox_type) runtime_metadata_mismatch
    ok (thread_id, resolve cwd)
