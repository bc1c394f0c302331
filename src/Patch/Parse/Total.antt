-- ===== src/Patch/Parse/Total.antt =====
-- The bounds on the rounds of the parser's loops are enough: each round reads a line.
use chatgpt_web_oauth_mcp.Prelude.{
  ap, ℕ, zero, suc, ◌+◌, ◌≤◌, ◌≡◌, ◌≢◌, inl, inr, false, ◌||◌, Option, none, List, [], ◌∷◌, arith,
  Text, strip_prefix, text_eq, length, Bool-cases, Option-cases, ok, err, ◌>>=◌,
}
use chatgpt_web_oauth_mcp.Prelude.Split.{splitlines}
use chatgpt_web_oauth_mcp.Patch.Ops.{
  DiffLine, UpdateHunk, PatchOperation, PatchError, Patched, out_of_fuel,
}
use chatgpt_web_oauth_mcp.Patch.Parse.{
  Parsed, begin_patch, end_patch, end_of_file, add_header, delete_header, update_header,
  hunk_header, added_text, starts_with, diff_line, skip_header, move_line, next_is_operation_header,
  add_lines, parse_add_file, hunk_lines, check_hunk, parse_hunk, update_hunks, check_update,
  parse_update_file, parse_operation, parse_operations, parse_lines, parse_patch,
}

-- The parser did not run out of rounds, and left at most `n` lines.
abbrev Leaves : {A : Type 0} → ℕ → Parsed A → Type 0
Leaves n (ok (a, left, j)) = length left ≤ n
Leaves n (err e) = e ≢ out_of_fuel

Leaves-bind :
    {A B : Type 0} (n k : ℕ) (m : Parsed A) (f : A × List Text × ℕ → Parsed B)
    → Leaves n m
    → ((a : A) (left : List Text) (j : ℕ) → length left ≤ n → Leaves k (f (a, left, j)))
    → Leaves k (m >>= f)
Leaves-bind n k (ok (a, left, j)) f h next = next a left j h
Leaves-bind n k (err e) f h next = h

add_lines-Leaves : (rest : List Text) (i : ℕ) → Leaves (length rest) (add_lines rest i)
unfolding add_lines
add_lines-Leaves [] i = omega arith
add_lines-Leaves (line ∷ rest) i = elim (Bool-cases (next_is_operation_header line)) [
  | inl e ↦ rw (e, add_lines) (omega arith)
  | inr e ↦ elim (Option-cases (added_text line)) [
    | inl g ↦ rw (e, g, add_lines) (λ q. cc)
    | inr (t, g) ↦
        rw (e, g, add_lines)
          (Leaves-bind (length rest) (suc (length rest)) (add_lines rest (i + 1)) _
            (add_lines-Leaves rest (i + 1)) λ a left j le. omega arith)
  ]
]

parse_add_file-Leaves :
    (path : Text) (rest : List Text) (i : ℕ) → Leaves (length rest) (parse_add_file path rest i)
unfolding parse_add_file
parse_add_file-Leaves path rest i =
    Leaves-bind (length rest) (length rest) (add_lines rest i) _ (add_lines-Leaves rest i)
      λ a left j le. le

Leaves-weaken : {A : Type 0} (n k : ℕ) (m : Parsed A) → n ≤ k → Leaves n m → Leaves k m
Leaves-weaken n k (ok (a, left, j)) le h = omega arith
Leaves-weaken n k (err e) le h = h

-- A line that begins no operation and no hunk is read by the loop.
hunk_lines-first :
    (line : Text) (rest : List Text) (i : ℕ)
    → (next_is_operation_header line || starts_with hunk_header line) ≡ false
    → Leaves (length rest) (hunk_lines rest (i + 1))
    → Leaves (length rest) (hunk_lines (line ∷ rest) i)
unfolding hunk_lines
hunk_lines-first line rest i e more = elim (Bool-cases (text_eq line end_of_file)) [
  | inl f ↦ rw (e, f, hunk_lines) more
  | inr f ↦ elim (Option-cases (diff_line line)) [
    | inl g ↦ rw (e, f, g, hunk_lines) (λ q. cc)
    | inr (d, g) ↦
        rw (e, f, g, hunk_lines)
          (Leaves-bind (length rest) (length rest) (hunk_lines rest (i + 1)) _ more
            λ a left j le. le)
  ]
]

hunk_lines-Leaves : (rest : List Text) (i : ℕ) → Leaves (length rest) (hunk_lines rest i)
unfolding hunk_lines
hunk_lines-Leaves [] i = omega arith
hunk_lines-Leaves (line ∷ rest) i =
    elim (Bool-cases (next_is_operation_header line || starts_with hunk_header line)) [
      | inl e ↦ rw (e, hunk_lines) (omega arith)
      | inr e ↦
          Leaves-weaken (length rest) (suc (length rest)) (hunk_lines (line ∷ rest) i) (omega arith)
            (hunk_lines-first line rest i e (hunk_lines-Leaves rest (i + 1)))
    ]

check_hunk-total : (ds : List DiffLine) (n : ℕ) → check_hunk ds n ≢ err out_of_fuel
unfolding check_hunk
check_hunk-total ds n = ground arith

-- The checks behind the loop leave the lines as they are.
checked-Leaves :
    (n start : ℕ) (m : Parsed (List DiffLine))
    → Leaves n m
    → Leaves n (do (ds, left, j) ← m; hunk ← check_hunk ds start; ok (hunk, left, j))
checked-Leaves n start (err e) h = h
checked-Leaves n start (ok (ds, left, j)) h =
    after (check_hunk ds start) (check_hunk-total ds start)
  where
    after :
        (c : Patched UpdateHunk) → c ≢ err out_of_fuel → Leaves n (do hunk ← c; ok (hunk, left, j))
    after (ok hunk) no_fuel = h
    after (err e) no_fuel = λ q. no_fuel (ap err q)

-- A hunk reads a line.
parse_hunk-Leaves :
    (line : Text) (rest : List Text) (i : ℕ)
    → next_is_operation_header line ≡ false
    → Leaves (length rest) (parse_hunk (line ∷ rest) i)
unfolding parse_hunk
parse_hunk-Leaves line rest i e = elim (Bool-cases (starts_with hunk_header line)) [
  | inl g ↦
      rw (g, skip_header)
        (checked-Leaves (length rest) (i + 1) (hunk_lines rest (i + 1))
          (hunk_lines-Leaves rest (i + 1)))
  | inr g ↦
      rw (g, skip_header)
        (checked-Leaves (length rest) (i + 1) (hunk_lines (line ∷ rest) i)
          (hunk_lines-first line rest i (ground arith) (hunk_lines-Leaves rest (i + 1))))
]

update_hunks-Leaves :
    (fuel : ℕ) (lines : List Text) (i : ℕ)
    → length lines ≤ fuel
    → Leaves (length lines) (update_hunks fuel lines i)
unfolding update_hunks
update_hunks-Leaves zero [] i h = omega arith
update_hunks-Leaves (suc fuel) [] i h = omega arith
update_hunks-Leaves zero (line ∷ rest) i h = absurd (omega arith)
update_hunks-Leaves (suc fuel) (line ∷ rest) i h =
    elim (Bool-cases (next_is_operation_header line)) [
      | inl e ↦ rw (e, update_hunks) (omega arith)
      | inr e ↦
          rw (e, update_hunks)
            (Leaves-bind (length rest) (suc (length rest)) (parse_hunk (line ∷ rest) i) _
              (parse_hunk-Leaves line rest i e)
              λ hunk left j le.
                Leaves-bind (length left) (suc (length rest)) (update_hunks fuel left j) _
                  (update_hunks-Leaves fuel left j (omega arith)) λ hunks left' j' le'. omega arith)
    ]

move_line-length : (lines : List Text) (i : ℕ) → length (move_line lines i).1 ≤ length lines
move_line-length [] i = omega arith
move_line-length (line ∷ rest) i = ground arith

check_update-total :
    (path : Text) (m : Option Text) (hs : List UpdateHunk)
    → check_update path m hs ≢ err out_of_fuel
unfolding check_update
check_update-total path none [] = λ q. cc
check_update-total path m hs = λ q. cc

parse_update_file-Leaves :
    (path : Text) (lines : List Text) (i : ℕ)
    → Leaves (length lines) (parse_update_file path lines i)
unfolding parse_update_file
parse_update_file-Leaves path lines start =
    let r = (move_line lines start).1 in
    Leaves-bind (length r) (length lines) (update_hunks (length r) r (move_line lines start).2) _
      (update_hunks-Leaves (length r) r (move_line lines start).2 (omega arith))
      λ hs left j le.
        after hs left j (omega (arith, move_line-length lines start))
          (check_update path (move_line lines start).0 hs)
          (check_update-total path (move_line lines start).0 hs)
  where
    after :
        (hs : List UpdateHunk) (left : List Text) (j : ℕ)
        → length left ≤ length lines
        → (c : Patched PatchOperation) → c ≢ err out_of_fuel
        → Leaves (length lines) (do operation ← c; ok (operation, left, j))
    after hs left j le (ok o) no_fuel = le
    after hs left j le (err e) no_fuel = λ q. no_fuel (ap err q)

parse_operation-Leaves :
    (line : Text) (rest : List Text) (i : ℕ) → Leaves (length rest) (parse_operation line rest i)
unfolding parse_operation
parse_operation-Leaves line rest i = elim (Option-cases (strip_prefix add_header line)) [
  | inr (path, e) ↦ rw (e, parse_operation) (parse_add_file-Leaves path rest (i + 1))
  | inl a ↦ elim (Option-cases (strip_prefix delete_header line)) [
    | inr (path, e) ↦ rw (a, e, parse_operation) (omega arith)
    | inl b ↦ elim (Option-cases (strip_prefix update_header line)) [
      | inr (path, e) ↦ rw (a, b, e, parse_operation) (parse_update_file-Leaves path rest (i + 1))
      | inl c ↦ rw (a, b, c, parse_operation) (λ q. cc)
    ]
  ]
]

err-injective : {A : Type 0} {e f : PatchError} → ◌≡◌ {A = Patched A} (err e) (err f) → e ≡ f
err-injective q = cc

Leaves-then :
    {A : Type 0} (n : ℕ) (m : Parsed PatchOperation)
    (f : PatchOperation × List Text × ℕ → Patched A)
    → Leaves n m
    → ((o : PatchOperation) (left : List Text) (j : ℕ)
        → length left ≤ n
        → f (o, left, j) ≢ err out_of_fuel)
    → (m >>= f) ≢ err out_of_fuel
Leaves-then n (ok (o, left, j)) f h next = next o left j h
Leaves-then n (err e) f h next = λ q. h (err-injective q)

parse_operations-total :
    (fuel : ℕ) (lines : List Text) (i : ℕ)
    → length lines ≤ fuel
    → parse_operations fuel lines i ≢ err out_of_fuel
unfolding parse_operations
parse_operations-total zero [] i h = λ q. cc
parse_operations-total (suc fuel) [] i h = λ q. cc
parse_operations-total zero (line ∷ rest) i h = absurd (omega arith)
parse_operations-total (suc fuel) (line ∷ rest) i h = elim (Bool-cases (text_eq line end_patch)) [
  | inl e ↦ rw (e, parse_operations) (λ q. cc)
  | inr e ↦
      rw (e, parse_operations)
        (Leaves-then (length rest) (parse_operation line rest i) _
          (parse_operation-Leaves line rest i)
          λ o left j le.
            bind_total o (parse_operations fuel left j)
              (parse_operations-total fuel left j (omega arith)))
]
  where
    bind_total :
        (o : PatchOperation) (m : Patched (List PatchOperation))
        → m ≢ err out_of_fuel
        → (do os ← m; ok (o ∷ os)) ≢ err out_of_fuel
    bind_total o (ok os) no_fuel = λ q. cc
    bind_total o (err e) no_fuel = λ q. no_fuel cc

-- The parser answers every text within the bounds on the rounds of its loops.
pub parse_patch-total : (patch : Text) → parse_patch patch ≢ err out_of_fuel
unfolding parse_patch
parse_patch-total patch = of_lines (splitlines patch)
  where
    of_lines : (lines : List Text) → parse_lines lines ≢ err out_of_fuel
    of_lines [] = λ q. cc
    of_lines (line ∷ rest) = elim (Bool-cases (text_eq line begin_patch)) [
      | inl e ↦ rw e (parse_operations-total (length rest) rest 1 (omega arith))
      | inr e ↦ rw e (λ q. cc)
    ]
