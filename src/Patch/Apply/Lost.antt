-- ===== src/Patch/Apply/Lost.antt =====
-- Two updates of one file in one patch.
use chatgpt_web_oauth_mcp.Prelude.{
  ◌≡◌, sym, ap, ◌∙◌, none, some, List, [], ◌∷◌, ok, Text, Bool, true,
}
use chatgpt_web_oauth_mcp.Prelude.Split.{splitlines, ends_lf}
use chatgpt_web_oauth_mcp.FileSystem.{FilePath, Bytes, file, Files, Codec}
use chatgpt_web_oauth_mcp.FileSystem.Pathing.{PathLib, resolve_path}
use chatgpt_web_oauth_mcp.Patch.Ops.{UpdateHunk, update_file, PlannedChange}
use chatgpt_web_oauth_mcp.Patch.Match.{apply_hunks}
use chatgpt_web_oauth_mcp.Patch.Parse.{parse_patch}
use chatgpt_web_oauth_mcp.Patch.Plan.{join_lines, plan_operation}
use chatgpt_web_oauth_mcp.Patch.Plan.Updates.{plan_update-ok}
use chatgpt_web_oauth_mcp.Patch.Apply.{Report, success, apply_patch}
use chatgpt_web_oauth_mcp.Patch.Apply.Outcome.{apply_change-written}
use chatgpt_web_oauth_mcp.Patch.Apply.Success.{Applied, Planned, apply_patch-success}

-- The file has the hunks on the lines that it had before.
abbrev pub HasOnly : Codec → FilePath → List UpdateHunk → Files → Files → Type 0
HasOnly codec path hunks fs fs' =
    (raw : Bytes) × (lines : List Text) × (fs path ≡ some (file raw))
    × (apply_hunks path 0 hunks (splitlines (codec.decode raw)) 0 ≡ ok lines)
    × (fs' path ≡ some (file (codec.encode (join_lines lines (ends_lf (codec.decode raw))))))

module _ (codec : Codec) (lib : PathLib) (root : FilePath) (path : Text)
    (first second : List UpdateHunk) where
  second_stays :
      (changes : List PlannedChange) (fs fs' : Files)
      → Planned codec lib fs root
          (update_file path none first ∷ update_file path none second ∷ [])
          changes
      → Applied codec changes fs fs'
      → HasOnly codec (resolve_path lib path root) second fs fs'
  unfolding Planned Applied plan_operation
  second_stays [] fs fs' p a = absurd p
  second_stays (c ∷ []) fs fs' p a = absurd p.1
  second_stays (c ∷ d ∷ e ∷ changes) fs fs' p a = absurd p.1.1
  second_stays (c ∷ d ∷ []) fs fs' (_, (q, _)) (between, _, (last, g, same)) =
      let (raw, lines, at_path, applied, _, new, here, kept) =
        plan_update-ok codec fs (resolve_path lib path root) none second q in
      (
        raw,
        lines,
        at_path,
        applied,
        ap (λ files. files (resolve_path lib path root)) (sym same)
            ∙ ap last (sym here)
            ∙ apply_change-written codec d between kept g
            ∙ ap (λ t. some (file (codec.encode t))) new,
      )

  -- If one patch has two updates of one path and nothing else, no update moves the file, and the
  -- call reports the patch as applied, then the file is that of the second update alone: its hunks
  -- on the lines before the call, with nothing of the first update.
  pub apply_patch-second_update :
      (patch : Text) (dry_run validate_only : Bool) (fs : Files) {fs' : Files} {report : Report}
      → parse_patch patch ≡ ok (update_file path none first ∷ update_file path none second ∷ [])
      → apply_patch codec lib patch root dry_run validate_only fs ≡ (fs', success report)
      → report.applied ≡ true
      → HasOnly codec (resolve_path lib path root) second fs fs'
  apply_patch-second_update patch dry_run validate_only fs {fs'} {report} parsed h a =
      let (operations, p, planned, applied) =
        apply_patch-success codec lib root fs patch dry_run validate_only h a in
      let same : operations ≡ update_file path none first ∷ update_file path none second ∷ [] =
        cc in
      second_stays report.changes fs fs' (rw same at planned) applied
