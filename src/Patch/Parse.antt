-- ===== src/Patch/Parse.antt =====
-- `parse_patch` and its helpers. A parser takes the lines from its position on, with the index of
-- the first of them, and returns the lines behind what it read.
pub mod Print
mod Updates
pub mod RoundTrip
pub mod Total
use chatgpt_web_oauth_mcp.Prelude.{
  ℕ, zero, suc, ◌+◌, Bool, true, false, ◌&&◌, ◌||◌, not, Option, none, some, List, [], ◌∷◌, Text,
  codes, text_eq, strip_prefix, length, ◌==◌, if◌then◌else◌, ok, err, ◌>>=◌,
}
use chatgpt_web_oauth_mcp.Prelude.Split.{splitlines}
use chatgpt_web_oauth_mcp.Patch.Ops.{
  Kind, context, addition, removal, DiffLine, UpdateHunk, PatchOperation, add_file, delete_file,
  update_file, Patched, invalid_patch, no_begin, no_end, no_diff_lines, add_line_without_plus,
  unexpected_line, unexpected_header, no_changes, empty_hunk, unanchored_hunk, out_of_fuel,
}

abbrev pub begin_patch : Text
begin_patch = codes "*** Begin Patch"

abbrev pub end_patch : Text
end_patch = codes "*** End Patch"

abbrev pub end_of_file : Text
end_of_file = codes "*** End of File"

abbrev pub add_header : Text
add_header = codes "*** Add File: "

abbrev pub delete_header : Text
delete_header = codes "*** Delete File: "

abbrev pub update_header : Text
update_header = codes "*** Update File: "

abbrev pub move_header : Text
move_header = codes "*** Move to: "

abbrev pub hunk_header : Text
hunk_header = codes "@@"

abbrev is_some : Option Text → Bool
is_some none = false
is_some (some t) = true

-- `line.startswith(prefix)`
abbrev pub starts_with : Text → Text → Bool
starts_with prefix line = is_some (strip_prefix prefix line)

unfoldable pub next_is_operation_header : Text → Bool
next_is_operation_header line =
    starts_with add_header line
    || starts_with delete_header line
    || starts_with update_header line
    || text_eq line end_patch

-- What a parser returns: the value, the lines left and the index of the first of them.
abbrev pub Parsed : Type 0 → Type 0
Parsed A = Patched (A × List Text × ℕ)

-- `line[1:]`, if the line starts with '+'.
abbrev pub added_text : Text → Option Text
added_text = strip_prefix (codes "+")

-- The loop of `_parse_add_file`.
pub add_lines : List Text → ℕ → Parsed (List Text)
add_lines [] i = ok ([], [], i)
add_lines (line ∷ rest) i =
    let more = add_lines rest (i + 1) in
    if next_is_operation_header line then ok ([], line ∷ rest, i) else elim (added_text line) [
      | none ↦ err (invalid_patch (add_line_without_plus line))
      | some t ↦ (do (content, left, j) ← more; ok (t ∷ content, left, j))
    ]

-- `_parse_add_file`, behind the header line that names the path.
unfoldable pub parse_add_file : Text → List Text → ℕ → Parsed PatchOperation
unfolding add_lines
parse_add_file path rest i = do
  (content, left, j) ← add_lines rest i
  ok (add_file path content, left, j)

abbrev pub kind_of : ℕ → Option Kind
kind_of c =
    if c == b' '
    then some context
    else if c == b'+'
    then some addition
    else if c == b'-'
    then some removal
    else none

-- `DiffLine(kind=line[0], text=line[1:])`; none where the line is empty or starts otherwise.
abbrev pub diff_line : Text → Option DiffLine
diff_line [] = none
diff_line (c ∷ t) = elim (kind_of c) [ none ↦ none | some k ↦ some (record { kind = k; text = t }) ]

-- The loop of `_parse_hunk`.
pub hunk_lines : List Text → ℕ → Parsed (List DiffLine)
hunk_lines [] i = ok ([], [], i)
hunk_lines (line ∷ rest) i =
    let more = hunk_lines rest (i + 1) in
    if next_is_operation_header line || starts_with hunk_header line
    then ok ([], line ∷ rest, i)
    else if text_eq line end_of_file
    then more
    else elim (diff_line line) [
      | none ↦ err (invalid_patch (unexpected_line line))
      | some d ↦ (do (ds, left, j) ← more; ok (d ∷ ds, left, j))
    ]

abbrev is_kind : Kind → Kind → Bool
is_kind context context = true
is_kind addition addition = true
is_kind removal removal = true
is_kind _ _ = false

-- `any(line.kind == kind for line in diff_lines)`
unfoldable pub has_kind : Kind → List DiffLine → Bool
has_kind k [] = false
has_kind k (d ∷ ds) = is_kind k d.kind || has_kind k ds

abbrev is_empty : List DiffLine → Bool
is_empty [] = true
is_empty (d ∷ ds) = false

-- The checks behind the loop of `_parse_hunk`.
unfoldable pub check_hunk : List DiffLine → ℕ → Patched UpdateHunk
check_hunk ds patch_line =
    let has_additions = has_kind addition ds in
    let has_removals = has_kind removal ds in
    let has_context = has_kind context ds in
    if is_empty ds
    then err (invalid_patch no_diff_lines)
    else if not has_additions && not has_removals
    then err (empty_hunk patch_line)
    else if has_additions && (not has_removals && not has_context)
    then err (unanchored_hunk patch_line)
    else ok (record { lines = ds; patch_line = patch_line })

-- `if lines[index].startswith("@@"): index += 1`
abbrev pub skip_header : List Text → ℕ → List Text × ℕ
skip_header [] i = ([], i)
skip_header (line ∷ rest) i =
    if starts_with hunk_header line then (rest, i + 1) else (line ∷ rest, i)

unfoldable pub parse_hunk : List Text → ℕ → Parsed UpdateHunk
unfolding hunk_lines check_hunk
parse_hunk lines start = do
  let (rest, i) = skip_header lines start
  (ds, left, j) ← hunk_lines rest i
  hunk ← check_hunk ds (start + 1)
  ok (hunk, left, j)

-- The second loop of `_parse_update_file`, with a bound on its rounds.
pub update_hunks : ℕ → List Text → ℕ → Parsed (List UpdateHunk)
update_hunks fuel [] i = ok ([], [], i)
update_hunks zero (line ∷ rest) i = err out_of_fuel
update_hunks (suc fuel) (line ∷ rest) i = elim (next_is_operation_header line) [
  | true ↦ ok ([], line ∷ rest, i)
  | false ↦ (do
    (hunk, left, j) ← parse_hunk (line ∷ rest) i
    (hunks, left', j') ← update_hunks fuel left j
    ok (hunk ∷ hunks, left', j'))
]

-- `*** Move to: `, if the next line is one: the target, the lines left and their index.
abbrev pub move_line : List Text → ℕ → Option Text × List Text × ℕ
move_line [] i = (none, [], i)
move_line (line ∷ rest) i = elim (strip_prefix move_header line) [
  | none ↦ (none, line ∷ rest, i)
  | some target ↦ (some target, rest, i + 1)
]

check_update : Text → Option Text → List UpdateHunk → Patched PatchOperation
check_update path none [] = err (invalid_patch (no_changes path))
check_update path move_to hunks = ok (update_file path move_to hunks)

-- `_parse_update_file`, behind the header line that names the path.
unfoldable pub parse_update_file : Text → List Text → ℕ → Parsed PatchOperation
unfolding update_hunks check_update
parse_update_file path lines start = do
  let (move_to, rest, i) = move_line lines start
  (hunks, left, j) ← update_hunks (length rest) rest i
  operation ← check_update path move_to hunks
  ok (operation, left, j)

-- One round of the loop of `parse_patch` at a header other than the end: the operation.
unfoldable pub parse_operation : Text → List Text → ℕ → Parsed PatchOperation
unfolding parse_add_file parse_update_file
parse_operation line rest i = elim (strip_prefix add_header line) [
  | some path ↦ parse_add_file path rest (i + 1)
  | none ↦ elim (strip_prefix delete_header line) [
    | some path ↦ ok (delete_file path, rest, i + 1)
    | none ↦ elim (strip_prefix update_header line) [
      | some path ↦ parse_update_file path rest (i + 1)
      | none ↦ err (invalid_patch (unexpected_header line))
    ]
  ]
]

-- The loop of `parse_patch`, with a bound on its rounds.
pub parse_operations : ℕ → List Text → ℕ → Patched (List PatchOperation)
parse_operations fuel [] i = err (invalid_patch no_end)
parse_operations zero (line ∷ rest) i = err out_of_fuel
parse_operations (suc fuel) (line ∷ rest) i = elim (text_eq line end_patch) [
  | true ↦ ok []
  | false ↦ (do
    (operation, left, j) ← parse_operation line rest i
    operations ← parse_operations fuel left j
    ok (operation ∷ operations))
]

unfoldable pub parse_lines : List Text → Patched (List PatchOperation)
unfolding parse_operations
parse_lines [] = err (invalid_patch no_begin)
parse_lines (line ∷ rest) =
    if text_eq line begin_patch
    then parse_operations (length rest) rest 1
    else err (invalid_patch no_begin)

unfoldable pub parse_patch : Text → Patched (List PatchOperation)
unfolding parse_lines
parse_patch patch = parse_lines (splitlines patch)
