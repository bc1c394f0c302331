-- ===== src/Patch/Parse/Print.antt =====
-- The text form of a patch, from its operations: what a client writes.
use chatgpt_web_oauth_mcp.Prelude.{
  ℕ, ◌+◌, ◌≡◌, true, ◌||◌, Option, none, some, List, [], ◌∷◌, ◌++◌, map, Text, length, All,
}
use chatgpt_web_oauth_mcp.Patch.Ops.{
  Kind, context, addition, removal, DiffLine, UpdateHunk, PatchOperation, add_file, delete_file,
  update_file,
}
use chatgpt_web_oauth_mcp.Patch.Parse.{
  begin_patch, end_patch, add_header, delete_header, update_header, move_header, hunk_header,
  has_kind,
}

abbrev pub sign : Kind → ℕ
sign context = b' '
sign addition = b'+'
sign removal = b'-'

abbrev pub print_line : DiffLine → Text
print_line d = sign d.kind ∷ d.text

unfoldable pub print_hunks : List UpdateHunk → List Text
print_hunks [] = []
print_hunks (h ∷ hs) = hunk_header ∷ (map print_line h.lines ++ print_hunks hs)

abbrev pub print_move : Option Text → List Text
print_move none = []
print_move (some target) = (move_header ++ target) ∷ []

abbrev pub print_header : PatchOperation → Text
print_header (add_file path lines) = add_header ++ path
print_header (delete_file path) = delete_header ++ path
print_header (update_file path move_to hunks) = update_header ++ path

abbrev pub print_body : PatchOperation → List Text
print_body (add_file path lines) = map (◌∷◌ b'+') lines
print_body (delete_file path) = []
print_body (update_file path move_to hunks) = print_move move_to ++ print_hunks hunks

unfoldable pub print_operation : PatchOperation → List Text
print_operation o = print_header o ∷ print_body o

unfoldable pub print_operations : List PatchOperation → List Text
unfolding print_operation
print_operations [] = end_patch ∷ []
print_operations (o ∷ os) = print_operation o ++ print_operations os

unfoldable pub print_patch : List PatchOperation → List Text
unfolding print_operations
print_patch os = begin_patch ∷ print_operations os

-- The text of lines that each end with a line feed.
unfoldable pub unlines : List Text → Text
unlines [] = []
unlines (l ∷ ls) = l ++ 10 ∷ unlines ls

-- The hunks with the `patch_line` that they have if the first of them is printed at line `i`,
-- counted from 0.
unfoldable pub locate_hunks : ℕ → List UpdateHunk → List UpdateHunk
locate_hunks i [] = []
locate_hunks i (h ∷ hs) = record h { patch_line = i + 1 } ∷ locate_hunks (i + 1 + length h.lines) hs

unfoldable pub locate_operation : ℕ → PatchOperation → PatchOperation
unfolding locate_hunks
locate_operation i (add_file path lines) = add_file path lines
locate_operation i (delete_file path) = delete_file path
locate_operation i (update_file path move_to hunks) =
    update_file path move_to (locate_hunks (i + 1 + length (print_move move_to)) hunks)

unfoldable pub locate : ℕ → List PatchOperation → List PatchOperation
unfolding locate_operation
locate i [] = []
locate i (o ∷ os) = locate_operation i o ∷ locate (i + length (print_operation o)) os

-- A hunk that says a change and where it goes.
abbrev pub IsAnchored : UpdateHunk → Type 0
IsAnchored h =
    ((has_kind addition h.lines || has_kind removal h.lines) ≡ true)
    × ((has_kind removal h.lines || has_kind context h.lines) ≡ true)

-- An operation that a patch can say.
abbrev pub IsSayable : PatchOperation → Type 0
IsSayable (update_file path none []) = ⊥
IsSayable (update_file path move_to hunks) = All IsAnchored hunks
IsSayable _ = Unit
