-- ===== src/Patch/Parse/RoundTrip.antt =====
-- Parsing a printed patch gives its operations back.
use chatgpt_web_oauth_mcp.Prelude.{
  ℕ, zero, suc, ◌+◌, ◌≤◌, ◌≡◌, refl, ap, ◌∙◌, true, false, List, [], ◌∷◌, ◌++◌, append_assoc, arith,
  Text, strip_prefix, text_eq, text_eq_refl, length, length-append, length-map, All, ok, ◌>>=◌,
}
use chatgpt_web_oauth_mcp.Prelude.Split.{splitlines}
use chatgpt_web_oauth_mcp.Prelude.Split.Lines.{IsLine, splitlines-line}
use chatgpt_web_oauth_mcp.Patch.Ops.{PatchOperation, add_file, delete_file, update_file}
use chatgpt_web_oauth_mcp.Patch.Parse.{
  begin_patch, end_patch, next_is_operation_header, parse_operation, parse_operations, parse_patch,
}
use chatgpt_web_oauth_mcp.Patch.Parse.Print.{
  print_move, print_hunks, print_header, print_body, print_operation, print_operations, print_patch,
  locate_operation, locate, IsSayable, unlines,
}
use chatgpt_web_oauth_mcp.Patch.Parse.Updates.{Stops, add_lines-print, parse_update_file-print}

header-Stops : (o : PatchOperation) → next_is_operation_header (print_header o) ≡ true
unfolding next_is_operation_header strip_prefix text_eq
header-Stops (add_file path lines) = refl
header-Stops (delete_file path) = refl
header-Stops (update_file path move_to hunks) = refl

header_is_no_end : (o : PatchOperation) → text_eq (print_header o) end_patch ≡ false
unfolding text_eq
header_is_no_end (add_file path lines) = refl
header_is_no_end (delete_file path) = refl
header_is_no_end (update_file path move_to hunks) = refl

parse_operation-print :
    (o : PatchOperation) (rest : List Text) (i : ℕ)
    → IsSayable o
    → Stops rest
    → parse_operation (print_header o) (print_body o ++ rest) i
      ≡ ok (locate_operation i o, rest, i + length (print_operation o))
unfolding parse_operation strip_prefix locate_operation print_operation
parse_operation-print (add_file path lines) rest i a s =
    rw (add_lines-print lines rest (i + 1) s)
      (ap (λ n. ok (add_file path lines, rest, n)) (omega (arith, length-map lines (◌∷◌ b'+'))))
parse_operation-print (delete_file path) rest i a s = refl
parse_operation-print (update_file path move_to hunks) rest i a s =
    rw (append_assoc, parse_update_file-print path move_to hunks rest (i + 1) a s)
      (ap (λ n. ok (locate_operation i (update_file path move_to hunks), rest, n))
        (omega (arith, length-append (print_move move_to) (print_hunks hunks))))

operations-Stops : (os : List PatchOperation) → Stops (print_operations os)
unfolding print_operations next_is_operation_header strip_prefix text_eq
operations-Stops [] = refl
operations-Stops (o ∷ os) = header-Stops o

parse_operations-step :
    (fuel : ℕ) (line : Text) (rest : List Text) (i : ℕ) {o : PatchOperation} {left : List Text}
    {j : ℕ}
    → text_eq line end_patch ≡ false
    → parse_operation line rest i ≡ ok (o, left, j)
    → parse_operations (suc fuel) (line ∷ rest) i
      ≡ (do os ← parse_operations fuel left j; ok (o ∷ os))
unfolding parse_operations
parse_operations-step fuel line rest i a b = rw (a, parse_operations, b)

parse_operations-print :
    (os : List PatchOperation) (fuel i : ℕ)
    → All IsSayable os
    → length (print_operations os) ≤ fuel
    → parse_operations fuel (print_operations os) i ≡ ok (locate i os)
unfolding print_operations locate print_operation parse_operations
parse_operations-print [] zero i a le = absurd (omega arith)
parse_operations-print (o ∷ os) zero i a le = absurd (omega arith)
parse_operations-print [] (suc fuel) i a le = rw (text_eq_refl end_patch, parse_operations)
parse_operations-print (o ∷ os) (suc fuel) i a le =
    parse_operations-step fuel (print_header o) (print_body o ++ print_operations os) i
      (header_is_no_end o)
      (parse_operation-print o (print_operations os) i a.0 (operations-Stops os))
    ∙ rw (
        parse_operations-print os fuel (i + length (print_operation o)) a.1
          (omega (arith, length-append (print_body o) (print_operations os))))

splitlines-unlines : (ls : List Text) → All IsLine ls → splitlines (unlines ls) ≡ ls
unfolding unlines
splitlines-unlines [] h = unfold splitlines in refl
splitlines-unlines (l ∷ ls) h =
    splitlines-line l (unlines ls) h.0 ∙ ap (◌∷◌ l) (splitlines-unlines ls h.1)

-- A patch that is printed from operations which a patch can say, none of whose paths and lines
-- holds a line boundary, parses to these operations, each hunk at its line.
pub parse_patch-print :
    (os : List PatchOperation)
    → All IsSayable os
    → All IsLine (print_patch os)
    → parse_patch (unlines (print_patch os)) ≡ ok (locate 1 os)
unfolding parse_patch print_patch
parse_patch-print os a l =
    rw (splitlines-unlines (print_patch os) l, text_eq_refl begin_patch)
      (parse_operations-print os (length (print_operations os)) 1 a (omega arith))
