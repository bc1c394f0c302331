-- ===== src/Patch/Match.antt =====
-- `_find_sequence_matches` and `_apply_hunk`.
pub mod Occurs
pub mod Hunks
use chatgpt_web_oauth_mcp.Prelude.{
  ℕ, zero, suc, ◌+◌, ◌-◌, Bool, true, false, ◌&&◌, List, [], ◌∷◌, ◌++◌, map, Text, text_eq, length,
  take, drop, ltb, if◌then◌else◌, ok, err, ◌>>=◌,
}
use chatgpt_web_oauth_mcp.FileSystem.{FilePath}
use chatgpt_web_oauth_mcp.Patch.Ops.{
  addition, removal, DiffLine, UpdateHunk, Patched, patch_context_not_found,
  ambiguous_context_match,
}

-- `==` on two lists of lines.
unfoldable pub lines_eq : List Text → List Text → Bool
lines_eq [] [] = true
lines_eq (l ∷ ls) (m ∷ ms) = text_eq l m && lines_eq ls ms
lines_eq [] (m ∷ ms) = false
lines_eq (l ∷ ls) [] = false

-- The loop over `range(index, index + rounds)`.
pub scan : ℕ → ℕ → List Text → List Text → List ℕ
scan zero index lines needle = []
scan (suc rounds) index lines needle =
    let rest = scan rounds (index + 1) lines needle in
    if lines_eq (take (length needle) (drop index lines)) needle then index ∷ rest else rest

unfoldable pub find_sequence_matches : List Text → List Text → List ℕ
unfolding scan lines_eq
find_sequence_matches lines [] = []
find_sequence_matches lines (n ∷ needle) =
    let size = length (n ∷ needle) in
    if ltb (length lines + 1) size
    then []
    else scan (length lines + 1 - size + 1) 0 lines (n ∷ needle)

-- `[line.text for line in hunk.lines if line.kind != "+"]`
unfoldable pub old_lines : List DiffLine → List Text
old_lines [] = []
old_lines (d ∷ ds) = elim d.kind [ addition ↦ old_lines ds | _ ↦ d.text ∷ old_lines ds ]

-- `[line.text for line in hunk.lines if line.kind != "-"]`
unfoldable pub new_lines : List DiffLine → List Text
new_lines [] = []
new_lines (d ∷ ds) = elim d.kind [ removal ↦ new_lines ds | _ ↦ d.text ∷ new_lines ds ]

-- What `_apply_hunk` does with the matches: `old` and `new` are the lines of the hunk.
apply_match :
    FilePath
    → ℕ
    → UpdateHunk
    → List Text
    → ℕ
    → List Text
    → List Text
    → List ℕ
    → Patched (List Text × ℕ)
apply_match path hunk_index hunk lines cursor old new [] =
    err (patch_context_not_found path hunk_index hunk.patch_line old (cursor - length old + 1))
apply_match path hunk_index hunk lines cursor old new (i ∷ []) =
    ok (take i lines ++ (new ++ drop (i + length old) lines), i + length new)
apply_match path hunk_index hunk lines cursor old new (i ∷ j ∷ more) = err (
    ambiguous_context_match path hunk_index hunk.patch_line old (length (i ∷ j ∷ more))
      (map (λ m. m + 1) (i ∷ j ∷ more)))

-- The new lines, and the cursor behind the inserted ones.
unfoldable pub apply_hunk : FilePath → ℕ → UpdateHunk → List Text → ℕ → Patched (List Text × ℕ)
unfolding apply_match
apply_hunk path hunk_index hunk lines cursor =
    apply_match path hunk_index hunk lines cursor (old_lines hunk.lines) (new_lines hunk.lines)
      (find_sequence_matches lines (old_lines hunk.lines))

-- The loop of `_plan_update` over the hunks.
unfoldable pub apply_hunks : FilePath → ℕ → List UpdateHunk → List Text → ℕ → Patched (List Text)
apply_hunks path hunk_index [] lines cursor = ok lines
apply_hunks path hunk_index (hunk ∷ hunks) lines cursor = do
  (lines', cursor') ← apply_hunk path hunk_index hunk lines cursor
  apply_hunks path (hunk_index + 1) hunks lines' cursor'
