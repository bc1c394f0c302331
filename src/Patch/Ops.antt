-- ===== src/Patch/Ops.antt =====
-- The data of patching.py: operations, planned changes and the errors.
use chatgpt_web_oauth_mcp.Prelude.{ℕ, Option, List, Text, Result}
use chatgpt_web_oauth_mcp.FileSystem.{FilePath}

-- The first character of a line in a hunk: ' ', '+' or '-'.
pub data Kind : Type 0 where
  context addition removal : Kind

pub record DiffLine : Type 0 where
  pub kind : Kind
  pub text : Text

pub record UpdateHunk : Type 0 where
  pub lines : List DiffLine
  pub patch_line : ℕ

-- `AddFilePatch`, `DeleteFilePatch` and `UpdateFilePatch`.
pub data PatchOperation : Type 0 where
  add_file : Text → List Text → PatchOperation
  delete_file : Text → PatchOperation
  update_file : Text → Option Text → List UpdateHunk → PatchOperation

-- What the message of the code `invalid_patch` says.
pub data Reason : Type 0 where
  no_begin no_end no_diff_lines : Reason
  add_line_without_plus unexpected_line unexpected_header no_changes : Text → Reason

-- The codes of `PatchError` with the fields that tell errors of one code apart.
pub data PatchError : Type 0 where
  invalid_patch : Reason → PatchError
  empty_hunk : (patch_line : ℕ) → PatchError
  unanchored_hunk : (patch_line : ℕ) → PatchError
  patch_context_not_found :
      FilePath
      → (hunk_index : ℕ) → (patch_line : ℕ) → (expected : List Text) → (search_started_at_line : ℕ)
      → PatchError
  ambiguous_context_match :
      FilePath
      → (hunk_index : ℕ) → (patch_line : ℕ) → (expected : List Text) → (match_count : ℕ)
      → (matching_lines : List ℕ) → PatchError
  file_not_found not_a_file target_exists path_exists path_not_found not_text_file :
      FilePath → PatchError
  -- No error of the code: the model's loops ran out of their bound on rounds.
  out_of_fuel : PatchError

abbrev pub Patched : Type 0 → Type 0
Patched = Result PatchError

pub data ChangeKind : Type 0 where
  add delete update move : ChangeKind

pub record PlannedChange : Type 0 where
  pub kind : ChangeKind
  pub path : FilePath
  pub previous_path : Option FilePath
  pub old_text : Text
  pub new_text : Text
  pub hunks_applied : ℕ
