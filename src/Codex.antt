-- ===== src/Codex.antt =====
-- codex_runtime/manager.py: the bindings of named runtimes to threads of a Codex app server, of
-- which only so many may be there at once.
pub mod Release
pub mod Capacity
pub mod Threads
pub mod Runtimes
pub mod Keys
pub mod Selection
pub mod Updates
pub mod Resume
pub mod Calls
use chatgpt_web_oauth_mcp.Prelude.{
  ℕ, Bool, true, false, ◌&&◌, ◌||◌, not, Option, none, some, List, [], ◌∷◌, ◌++◌, Text, codes,
  text_eq, if◌then◌else◌, Result, ok, err,
}
use chatgpt_web_oauth_mcp.Prelude.Dict.{Dict}
use chatgpt_web_oauth_mcp.Prelude.Split.{is_space}
use chatgpt_web_oauth_mcp.FileSystem.{FilePath}

pub data Sandbox : Type 0 where
  read_only workspace_write full_access : Sandbox

pub data Status : Type 0 where
  ready detached errored : Status

-- `RuntimeBinding`; times are whole seconds.
pub record Binding : Type 0 where
  pub runtime_id : Text
  pub thread_id : Text
  pub cwd : FilePath
  pub sandbox : Sandbox
  pub name : Option Text
  pub created_at : ℕ
  pub last_used_at : ℕ
  pub status : Status
  pub mcp_server_count : Option ℕ

-- The codes of `CodexRuntimeError`; `other` is one of the adapter or of the store.
pub data Code : Type 0 where
  invalid_arguments runtime_not_found runtime_busy runtime_limit_reached : Code
  runtime_cleanup_incomplete runtime_not_active runtime_changed : Code
  runtime_metadata_mismatch resume_metadata_required codex_protocol_error : Code
  other : Text → Code

-- An error with its side effects: the thread that was created, and whether it was released.
pub record RuntimeError : Type 0 where
  pub code : Code
  pub thread_id : Option Text
  pub resources_released : Option Bool

abbrev pub raised : Code → RuntimeError
raised code = record { code = code; thread_id = none; resources_released = none }

-- What the app server says of a thread.
pub record Thread : Type 0 where
  pub thread_id : Option Text
  pub cwd : Option FilePath
  pub sandbox_type : Option Text

-- The app server behind its adapter, the store of the bindings and `pathlib`, on a state of theirs.
pub record World (W : Type 0) : Type 1 where
  pub connection_generation : W → Option ℕ
  pub is_running : W → Bool
  pub has_pending_operations : Text → W → Bool
  pub owns_thread : Text → W → Bool
  pub thread_start : FilePath → Sandbox → W → Result Code Thread × W
  pub thread_resume : Text → FilePath → Sandbox → W → Result Code Thread × W
  pub is_no_rollout : Code → Bool
  pub release_thread : Text → W → Result Code Bool × W
  pub cleanup_abandoned_threads : W → Result Code (Unit {0}) × W
  pub save : Dict Binding → W → Result Code (Unit {0}) × W
  pub resolve : FilePath → FilePath
  pub path_eq : FilePath → FilePath → Bool
  pub validate_cwd : FilePath → W → Result Code FilePath

pub record Settings : Type 0 where
  pub max_runtimes : ℕ
  pub idle_ttl_seconds : ℕ

-- The members of `CodexRuntimeManager` that change; a set is a list.
pub record Manager (W : Type 0) : Type 0 where
  pub bindings : Dict Binding
  pub active_requests : Dict ℕ
  pub pending_release : List Text
  pub live_thread_ids : List Text
  pub observed_generation : Option ℕ
  pub cleanup_error : Option Code
  pub persistence_warning : Option Code
  pub load_error : Option Code
  pub gc_stop : Bool
  pub last_gc_at : Option ℕ
  pub gc_collected_total : ℕ
  pub lru_evicted_total : ℕ
  pub world : W

-- A call ends with a value or an error, and leaves the manager.
abbrev pub Ending : Type 0 → Type 0 → Type 0
Ending W A = Result RuntimeError A × Manager W

module _ {W A B : Type 0} where
  abbrev pub after : Ending W A → (A → Manager W → Ending W B) → Ending W B
  after (ok value, s) next = next value s
  after (err e, s) next = (err e, s)

-- A call of the world, written back.
abbrev pub lifted : {W A : Type 0} → Manager W → Result Code A × W → Ending W A
lifted s (ok value, w) = (ok value, record s { world = w })
lifted s (err code, w) = (err (raised code), record s { world = w })

-- A check without a change.
abbrev pub checked : {W A : Type 0} → Manager W → Result Code A → Ending W A
checked s (ok value) = (ok value, s)
checked s (err code) = (err (raised code), s)

abbrev pub same_sandbox : Sandbox → Sandbox → Bool
same_sandbox read_only read_only = true
same_sandbox workspace_write workspace_write = true
same_sandbox full_access full_access = true
same_sandbox _ _ = false

abbrev pub is_detached : Status → Bool
is_detached detached = true
is_detached _ = false

abbrev pub is_ready : Status → Bool
is_ready ready = true
is_ready _ = false

-- `_SANDBOX_POLICY_TYPES`
abbrev pub policy_type : Sandbox → Text
policy_type read_only = codes "readOnly"
policy_type workspace_write = codes "workspaceWrite"
policy_type full_access = codes "dangerFullAccess"

abbrev pub sandbox_matches : Sandbox → Option Text → Bool
sandbox_matches mode none = false
sandbox_matches mode (some type_) = text_eq type_ (policy_type mode)

-- `s.strip()`
abbrev pub lstrip : Text → Text
lstrip [] = []
lstrip (c ∷ s) = let rest = lstrip s in if is_space c then rest else c ∷ s

abbrev pub reversed : Text → Text
reversed [] = []
reversed (c ∷ s) = reversed s ++ c ∷ []

abbrev pub strip : Text → Text
strip s = reversed (lstrip (reversed (lstrip s)))
