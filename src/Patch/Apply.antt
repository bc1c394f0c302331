-- ===== src/Patch/Apply.antt =====
-- `_apply_change` and `apply_patch`.
pub mod Frame
pub mod Outcome
pub mod Success
pub mod Lost
use chatgpt_web_oauth_mcp.Prelude.{
  Bool, ◌&&◌, ◌||◌, not, Option, none, some, List, [], ◌∷◌, Text, if◌then◌else◌, ok, err, ◌>>=◌,
}
use chatgpt_web_oauth_mcp.FileSystem.{
  FilePath, Files, Codec, OsError, Effect, continue, and_then, path_eq, ancestors, make_dirs,
  write_bytes, unlink,
}
use chatgpt_web_oauth_mcp.FileSystem.Pathing.{PathLib}
use chatgpt_web_oauth_mcp.Patch.Ops.{Patched, PatchError, PlannedChange, ChangeKind, delete, move}
use chatgpt_web_oauth_mcp.Patch.Parse.{parse_patch}
use chatgpt_web_oauth_mcp.Patch.Plan.{plan_operations}

-- The value that `apply_patch` returns, with what the model keeps of the payload.
pub record Report : Type 0 where
  pub changes : List PlannedChange
  pub applied : Bool
  pub validated : Bool

-- How a call ends: a payload of success or of a `PatchError`, or an `OSError` that nothing catches.
pub data Ending : Type 0 where
  success : Report → Ending
  failure : PatchError → Ending
  raised : OsError → Ending

-- `if change.kind == "move" and change.previous_path not in (None, change.path): unlink`
drop_previous : PlannedChange → ChangeKind → Option FilePath → Effect
drop_previous change move (some previous) fs =
    if path_eq previous change.path then (fs, none) else unlink previous fs
drop_previous change _ previous fs = (fs, none)

module _ (codec : Codec) where
  open codec use {encode}

  -- A change that is no deletion.
  write_change : PlannedChange → Effect
  unfolding drop_previous
  write_change change =
      and_then
        (and_then (make_dirs (ancestors change.path))
          (write_bytes change.path (encode change.new_text)))
        (drop_previous change change.kind change.previous_path)

  dispatch : ChangeKind → PlannedChange → Effect
  unfolding write_change
  dispatch delete change = unlink change.path
  dispatch _ change = write_change change

  unfoldable pub apply_change : PlannedChange → Effect
  unfolding dispatch
  apply_change change = dispatch change.kind change

  -- The loop over the planned changes. What was written before an error stays written.
  unfoldable pub apply_changes : List PlannedChange → Effect
  apply_changes [] fs = (fs, none)
  apply_changes (change ∷ changes) fs = continue (apply_change change fs) (apply_changes changes)

  ending : Report → Option OsError → Ending
  ending report none = success report
  ending report (some e) = raised e

  commit : Bool → Bool → List PlannedChange → Files → Files × Ending
  unfolding ending
  commit dry_run validate_only changes fs =
      let should_apply = not dry_run && not validate_only in
      let report : Report = record {
        changes = changes;
        applied = should_apply;
        validated = dry_run || validate_only;
      } in
      if should_apply
      then (let (fs', e) = apply_changes changes fs in (fs', ending report e))
      else (fs, success report)

  module _ (lib : PathLib) where
    unfoldable pub plan_patch : Text → FilePath → Files → Patched (List PlannedChange)
    plan_patch patch workspace_root fs = do
      operations ← parse_patch patch
      plan_operations codec lib fs workspace_root operations

    -- The files after the call, and how it ends.
    unfoldable pub apply_patch : Text → FilePath → Bool → Bool → Files → Files × Ending
    unfolding commit
    apply_patch patch workspace_root dry_run validate_only fs =
        elim (plan_patch patch workspace_root fs) [
          | ok changes ↦ commit dry_run validate_only changes fs
          | err e ↦ (fs, failure e)
        ]
