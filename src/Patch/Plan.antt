-- ===== src/Patch/Plan.antt =====
-- `_read_text`, `_join_lines` and the planning of each operation of a patch.
pub mod Updates
use chatgpt_web_oauth_mcp.Prelude.{
  ℕ, Bool, true, false, ◌||◌, not, Option, none, some, List, [], ◌∷◌, ◌++◌, Text, length, take,
  ◌==◌, if◌then◌else◌, ok, err, ◌>>=◌, ◌>>◌, guard,
}
use chatgpt_web_oauth_mcp.Prelude.Split.{splitlines, join, ends_lf}
use chatgpt_web_oauth_mcp.FileSystem.{
  FilePath, Bytes, Node, file, Files, Codec, path_eq, exists_at, is_file_at, is_dir_at,
}
use chatgpt_web_oauth_mcp.FileSystem.Pathing.{PathLib, resolve_path}
use chatgpt_web_oauth_mcp.Patch.Ops.{
  UpdateHunk, PatchOperation, add_file, delete_file, update_file, Patched, file_not_found,
  not_a_file, target_exists, path_exists, path_not_found, not_text_file, PlannedChange, add, delete,
  update, move,
}
use chatgpt_web_oauth_mcp.Patch.Match.{apply_hunks}

unfoldable pub join_lines : List Text → Bool → Text
join_lines [] trailing_newline = []
join_lines (l ∷ ls) trailing_newline =
    join (10 ∷ []) (l ∷ ls) ++ (if trailing_newline then 10 ∷ [] else [])

-- `b"\x00" in raw`
unfoldable pub has_nul : Bytes → Bool
has_nul [] = false
has_nul (b ∷ raw) = (b == 0) || has_nul raw

abbrev is_nonempty : List Text → Bool
is_nonempty [] = false
is_nonempty (l ∷ ls) = true

-- The bytes at a path; a directory has none, and `_plan_*` excludes it before.
abbrev pub raw_of : Option Node → Bytes
raw_of (some (file raw)) = raw
raw_of _ = []

-- The new path of a move, where it differs from the old one.
abbrev pub moves_to : FilePath → Option FilePath → Option FilePath
moves_to path none = none
moves_to path (some target) = if path_eq target path then none else some target

-- `move_to and move_to.exists() and move_to != path`
abbrev check_target : Files → Option FilePath → Patched (Unit {0})
check_target fs none = ok tt
check_target fs (some target) = if exists_at (fs target) then err (target_exists target) else ok tt

abbrev pub move_or_update : FilePath → Option FilePath → Text → Text → ℕ → PlannedChange
move_or_update path none old new n = record {
  kind = update;
  path = path;
  previous_path = none;
  old_text = old;
  new_text = new;
  hunks_applied = n;
}
move_or_update path (some target) old new n = record {
  kind = move;
  path = target;
  previous_path = some path;
  old_text = old;
  new_text = new;
  hunks_applied = n;
}

module _ (codec : Codec) where
  open codec use {decode}

  unfoldable pub read_text : Files → FilePath → Patched Text
  unfolding has_nul
  read_text fs path =
      let raw = raw_of (fs path) in
      if has_nul (take 1024 raw) then err (not_text_file path) else ok (decode raw)

  -- `target` is `path` where `move_to` names the path itself.
  unfoldable pub plan_update :
      Files → FilePath → Option FilePath → List UpdateHunk → Patched PlannedChange
  plan_update fs path move_to hunks = do
    guard (exists_at (fs path)) (file_not_found path)
    guard (is_file_at (fs path)) (not_a_file path)
    original ← read_text fs path
    lines ← apply_hunks path 0 hunks (splitlines original) 0
    check_target fs (moves_to path move_to)
    ok (
        move_or_update path (moves_to path move_to) original (join_lines lines (ends_lf original))
          (length hunks))

  unfoldable pub plan_add : Files → FilePath → List Text → Patched PlannedChange
  plan_add fs path lines = do
    guard (not (exists_at (fs path))) (path_exists path)
    ok (record {
      kind = add;
      path = path;
      previous_path = none;
      old_text = [];
      new_text = join_lines lines (is_nonempty lines);
      hunks_applied = 1;
    })

  unfoldable pub plan_delete : Files → FilePath → Patched PlannedChange
  unfolding read_text
  plan_delete fs path = do
    guard (exists_at (fs path)) (path_not_found path)
    guard (not (is_dir_at (fs path))) (not_a_file path)
    old ← read_text fs path
    ok (record {
      kind = delete;
      path = path;
      previous_path = none;
      old_text = old;
      new_text = [];
      hunks_applied = 1;
    })

  module _ (lib : PathLib) where
    -- `resolve_path(operation.move_to, root) if operation.move_to else None`
    abbrev pub resolve_move : Option Text → FilePath → Option FilePath
    resolve_move (some (c ∷ target)) root = some (resolve_path lib (c ∷ target) root)
    resolve_move _ root = none

    -- One round of the planning loop of `apply_patch`.
    unfoldable pub plan_operation : Files → FilePath → PatchOperation → Patched PlannedChange
    unfolding plan_add plan_delete plan_update
    plan_operation fs root (add_file path lines) = plan_add fs (resolve_path lib path root) lines
    plan_operation fs root (delete_file path) = plan_delete fs (resolve_path lib path root)
    plan_operation fs root (update_file path move_to hunks) =
        plan_update fs (resolve_path lib path root) (resolve_move move_to root) hunks

    -- Every operation is planned against the files as they are before the patch.
    unfoldable pub plan_operations :
        Files → FilePath → List PatchOperation → Patched (List PlannedChange)
    unfolding plan_operation
    plan_operations fs root [] = ok []
    plan_operations fs root (operation ∷ operations) = do
      change ← plan_operation fs root operation
      changes ← plan_operations fs root operations
      ok (change ∷ changes)
