-- ===== src/Patch/Parse/Updates.antt =====
-- Parsing the printed lines of one operation.
use native.Mathlib.Nat.{add-zero}
use chatgpt_web_oauth_mcp.Prelude.{
  ◌∙◌, ◌>>=◌, none, some, length-map, zero, suc, length-append, append_assoc, ◌≤◌, All, ℕ, ◌+◌, ◌≡◌,
  refl, ap, true, false, ◌||◌, some, List, [], ◌∷◌, ◌++◌, map, arith, Text, strip_prefix,
  strip_prefix-append, text_eq, length, ok,
}
use chatgpt_web_oauth_mcp.Patch.Ops.{
  update_file, UpdateHunk, Kind, context, addition, removal, DiffLine,
}
use chatgpt_web_oauth_mcp.Patch.Parse.{
  check_update, move_line, move_header, Option, parse_update_file, suc, has_kind, check_hunk,
  update_hunks, parse_hunk, hunk_header, added_text, starts_with, next_is_operation_header,
  add_lines, diff_line, hunk_lines, end_of_file,
}
use chatgpt_web_oauth_mcp.Patch.Parse.Print.{
  print_move, IsSayable, IsAnchored, locate_hunks, print_hunks, sign, print_line,
}

-- Where an operation ends: at the header of the next one, or at the end of the lines.
abbrev pub Stops : List Text → Type 0
Stops [] = Unit
Stops (line ∷ rest) = next_is_operation_header line ≡ true

signed_is_no_header : (k : Kind) (t : Text) → next_is_operation_header (sign k ∷ t) ≡ false
unfolding next_is_operation_header strip_prefix text_eq
signed_is_no_header context t = refl
signed_is_no_header addition t = refl
signed_is_no_header removal t = refl

pub add_lines-print :
    (lines rest : List Text) (i : ℕ)
    → Stops rest
    → add_lines (map (◌∷◌ b'+') lines ++ rest) i ≡ ok (lines, rest, i + length lines)
unfolding add_lines
add_lines-print [] [] i h = rw add-zero
add_lines-print [] (line ∷ rest) i h = rw (h, add-zero)
add_lines-print (l ∷ lines) rest i h =
    rw (signed_is_no_header addition l, strip_plus, add_lines-print lines rest (i + 1) h)
      (ap (λ n. ok (l ∷ lines, rest, n)) (omega arith))
  where
    strip_plus : added_text (b'+' ∷ l) ≡ some l
    strip_plus = strip_prefix-append (b'+' ∷ []) l

hunk_line :
    (d : DiffLine)
    → (next_is_operation_header (print_line d) ≡ false)
      × (starts_with hunk_header (print_line d) ≡ false)
      × (text_eq (print_line d) end_of_file ≡ false)
      × (diff_line (print_line d) ≡ some d)
unfolding next_is_operation_header strip_prefix text_eq
hunk_line d = ground arith

-- Where a hunk ends: there, or at the header of the next hunk.
abbrev StopsHunk : List Text → Type 0
StopsHunk [] = Unit
StopsHunk (line ∷ rest) = (next_is_operation_header line || starts_with hunk_header line) ≡ true

hunk_lines-print :
    (ds : List DiffLine) (rest : List Text) (i : ℕ)
    → StopsHunk rest
    → hunk_lines (map print_line ds ++ rest) i ≡ ok (ds, rest, i + length ds)
unfolding hunk_lines
hunk_lines-print [] [] i h = rw add-zero
hunk_lines-print [] (line ∷ rest) i h = rw (h, add-zero)
hunk_lines-print (d ∷ ds) rest i h =
    let (a, b, c, e) = hunk_line d in
    rw (a, b, c, e, hunk_lines-print ds rest (i + 1) h)
      (ap (λ n. ok (d ∷ ds, rest, n)) (omega arith))

check_hunk-anchored :
    (ds : List DiffLine) (n : ℕ)
    → ((has_kind addition ds || has_kind removal ds) ≡ true)
    → ((has_kind removal ds || has_kind context ds) ≡ true)
    → check_hunk ds n ≡ ok (record { lines = ds; patch_line = n })
unfolding check_hunk has_kind
check_hunk-anchored [] n a b = cc
check_hunk-anchored (d ∷ ds) n a b = ground arith

parse_hunk-print :
    (h : UpdateHunk) (rest : List Text) (i : ℕ)
    → IsAnchored h
    → StopsHunk rest
    → parse_hunk (hunk_header ∷ (map print_line h.lines ++ rest)) i
      ≡ ok (record h { patch_line = i + 1 }, rest, i + 1 + length h.lines)
unfolding parse_hunk strip_prefix
parse_hunk-print h rest i a s =
    rw (hunk_lines-print h.lines rest (i + 1) s, check_hunk-anchored h.lines (i + 1) a.0 a.1)

stops_hunk :
    (hs : List UpdateHunk) (rest : List Text) → Stops rest → StopsHunk (print_hunks hs ++ rest)
unfolding print_hunks strip_prefix next_is_operation_header text_eq
stops_hunk [] [] s = tt
stops_hunk [] (line ∷ rest) s = rw s
stops_hunk (h ∷ hs) rest s = refl

update_hunks-stop :
    (fuel : ℕ) (rest : List Text) (i : ℕ)
    → Stops rest
    → length rest ≤ fuel
    → update_hunks fuel rest i ≡ ok ([], rest, i)
unfolding update_hunks
update_hunks-stop zero [] i s h = refl
update_hunks-stop (suc fuel) [] i s h = refl
update_hunks-stop zero (line ∷ rest) i s h = absurd (omega arith)
update_hunks-stop (suc fuel) (line ∷ rest) i s h = rw (s, update_hunks)

header_plain : next_is_operation_header hunk_header ≡ false
unfolding next_is_operation_header strip_prefix text_eq
header_plain = refl

update_hunks-step :
    (fuel : ℕ) (line : Text) (rest : List Text) (i : ℕ) {hunk : UpdateHunk} {left : List Text}
    {j : ℕ}
    → next_is_operation_header line ≡ false
    → parse_hunk (line ∷ rest) i ≡ ok (hunk, left, j)
    → update_hunks (suc fuel) (line ∷ rest) i
      ≡ (do (hunks, left', j') ← update_hunks fuel left j; ok (hunk ∷ hunks, left', j'))
unfolding update_hunks
update_hunks-step fuel line rest i a b = rw (a, update_hunks, b)

print_hunks-cons :
    (h : UpdateHunk) (hs : List UpdateHunk) (rest : List Text)
    → print_hunks (h ∷ hs) ++ rest
      ≡ hunk_header ∷ (map print_line h.lines ++ (print_hunks hs ++ rest))
unfolding print_hunks
print_hunks-cons h hs rest = rw append_assoc

update_hunks-print :
    (hs : List UpdateHunk) (rest : List Text) (fuel i : ℕ)
    → All IsAnchored hs
    → Stops rest
    → length (print_hunks hs ++ rest) ≤ fuel
    → update_hunks fuel (print_hunks hs ++ rest) i
      ≡ ok (locate_hunks i hs, rest, i + length (print_hunks hs))
unfolding update_hunks print_hunks locate_hunks
update_hunks-print [] rest fuel i a s le = rw (update_hunks-stop fuel rest i s le, add-zero)
update_hunks-print (h ∷ hs) rest zero i a s le = absurd (omega arith)
update_hunks-print (h ∷ hs) rest (suc fuel) i a s le =
    rw
      (
        print_hunks-cons h hs rest,
        update_hunks-step fuel hunk_header (map print_line h.lines ++ (print_hunks hs ++ rest)) i
            header_plain (parse_hunk-print h (print_hunks hs ++ rest) i a.0 (stops_hunk hs rest s)),
        update_hunks-print hs rest fuel (i + 1 + length h.lines) a.1 s shorter,
      )
      (ap (λ n. ok (locate_hunks i (h ∷ hs), rest, n)) count)
  where
    shorter : length (print_hunks hs ++ rest) ≤ fuel
    shorter = omega (
      arith,
      length-append (map print_line h.lines) (print_hunks hs),
      length-append (map print_line h.lines ++ print_hunks hs) rest,
      length-append (print_hunks hs) rest,
    )

    count : i + 1 + length h.lines + length (print_hunks hs) ≡ i + length (print_hunks (h ∷ hs))
    count = omega (
      arith,
      length-append (map print_line h.lines) (print_hunks hs),
      length-map h.lines print_line,
    )

move_line-hunks :
    (h : UpdateHunk) (hs : List UpdateHunk) (rest : List Text) (i : ℕ)
    → move_line (print_hunks (h ∷ hs) ++ rest) i ≡ (none, print_hunks (h ∷ hs) ++ rest, i)
unfolding print_hunks strip_prefix
move_line-hunks h hs rest i = refl

move_line-target :
    (target : Text) (rest : List Text) (i : ℕ)
    → move_line ((move_header ++ target) ∷ rest) i ≡ (some target, rest, i + 1)
move_line-target target rest i = rw (strip_prefix-append move_header target, move_line)

parse_update_file-step :
    (path : Text) (lines : List Text) (start : ℕ) {m : Option Text} {r : List Text} {i : ℕ}
    {hs : List UpdateHunk} {left : List Text} {j : ℕ}
    → move_line lines start ≡ (m, r, i)
    → update_hunks (length r) r i ≡ ok (hs, left, j)
    → parse_update_file path lines start
      ≡ (do operation ← check_update path m hs; ok (operation, left, j))
unfolding parse_update_file
parse_update_file-step path lines start a b = rw (a, b)

pub parse_update_file-print :
    (path : Text) (move_to : Option Text) (hs : List UpdateHunk) (rest : List Text) (i : ℕ)
    → IsSayable (update_file path move_to hs)
    → Stops rest
    → parse_update_file path (print_move move_to ++ (print_hunks hs ++ rest)) i
      ≡ ok (
        update_file path move_to (locate_hunks (i + length (print_move move_to)) hs),
        rest,
        i + length (print_move move_to) + length (print_hunks hs),
      )
unfolding parse_update_file locate_hunks
parse_update_file-print path none [] rest i a s = absurd a
parse_update_file-print path none (h ∷ hs) rest i a s =
    parse_update_file-step path (print_hunks (h ∷ hs) ++ rest) i (move_line-hunks h hs rest i)
      (update_hunks-print (h ∷ hs) rest (length (print_hunks (h ∷ hs) ++ rest)) i a s (omega arith))
    ∙ rw add-zero
parse_update_file-print path (some target) hs rest i a s =
    parse_update_file-step path ((move_header ++ target) ∷ (print_hunks hs ++ rest)) i
      (move_line-target target (print_hunks hs ++ rest) i)
      (update_hunks-print hs rest (length (print_hunks hs ++ rest)) (i + 1) a s (omega arith))
