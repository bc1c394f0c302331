-- ===== src/Patch/Tests.antt =====
-- Runs of patching.py on small patches.
use chatgpt_web_oauth_mcp.Prelude.{
  if◌then◌else◌, strip_prefix, ℕ, zero, suc, ◌≡◌, ◌≢◌, ◌↔◌, refl, Bool, true, false, not, ◌&&◌,
  Bool-cases, none, some, List, [], ◌∷◌, ◌++◌, arith, Text, codes, text_eq, ok, err, In, inl, inr,
  All,
}
use chatgpt_web_oauth_mcp.Prelude.Split.{splitlines, ends_lf, join, lines_from, is_break}
use chatgpt_web_oauth_mcp.FileSystem.{
  make_dir, remove_node, write_node, FilePath, file, directory, Files, Codec, path_eq, make_dirs,
  write_bytes, unlink,
}
use chatgpt_web_oauth_mcp.FileSystem.Pathing.{PathLib, resolve_path}
use chatgpt_web_oauth_mcp.Patch.Ops.{
  out_of_fuel, context, addition, removal, UpdateHunk, PatchOperation, update_file, PlannedChange,
  update, invalid_patch, no_begin, out_of_fuel, patch_context_not_found, ambiguous_context_match,
}
use chatgpt_web_oauth_mcp.Patch.Match.{
  find_sequence_matches, lines_eq, old_lines, new_lines, apply_hunk, apply_hunks,
}
use chatgpt_web_oauth_mcp.Patch.Match.Occurs.{OccursAt, OccursAt-bound, In-matches_iff}
use chatgpt_web_oauth_mcp.Patch.Match.Hunks.{
  apply_hunk-absent, apply_hunk-ok, apply_hunk-at, apply_hunk-ambiguous,
}
use chatgpt_web_oauth_mcp.Patch.Parse.{
  parse_operation, next_is_operation_header, parse_hunk, check_hunk, parse_add_file, parse_lines,
  parse_update_file, has_kind, parse_patch,
}
use chatgpt_web_oauth_mcp.Patch.Parse.Print.{
  print_patch, print_operations, print_operation, print_hunks, unlines, locate,
}
use chatgpt_web_oauth_mcp.Patch.Parse.RoundTrip.{parse_patch-print}
use chatgpt_web_oauth_mcp.Patch.Parse.Total.{parse_patch-total}
use chatgpt_web_oauth_mcp.Patch.Plan.{
  plan_add, plan_delete, join_lines, plan_update, plan_operations, plan_operation, read_text,
  has_nul,
}
use chatgpt_web_oauth_mcp.Patch.Plan.Updates.{join_lines-splitlines}
use chatgpt_web_oauth_mcp.Patch.Apply.{apply_change, apply_changes, plan_patch, apply_patch}
use chatgpt_web_oauth_mcp.Patch.Apply.Frame.{apply_changes-frame}
use chatgpt_web_oauth_mcp.Patch.Apply.Outcome.{
  apply_change-written, apply_patch-failure, apply_patch-preview,
}
use chatgpt_web_oauth_mcp.Patch.Apply.Success.{Applied, Planned, apply_patch-success}
use chatgpt_web_oauth_mcp.Patch.Apply.Lost.{HasOnly, apply_patch-second_update}

abbrev identity_codec : Codec
identity_codec = record { decode = λ raw. raw; encode = λ text. text }

abbrev plain_paths : PathLib
plain_paths = record {
  RawPath = Text;
  expanduser = λ t. t;
  is_absolute = λ t. true;
  under = λ root t. t;
  resolve = λ t. t ∷ [];
}

abbrev notes : FilePath
notes = codes "notes" ∷ []

abbrev two_lines : Text
two_lines = codes "a" ++ 10 ∷ codes "b" ++ 10 ∷ []

abbrev files : Files
files p =
    if path_eq notes p then some (file two_lines) else if path_eq [] p then some directory else none

-- b becomes c.
abbrev hunk : UpdateHunk
hunk = record {
  lines =
      record { kind = removal; text = codes "b" }
      ∷ record { kind = addition; text = codes "c" }
      ∷ [];
  patch_line = 3;
}

abbrev operations : List PatchOperation
operations = update_file (codes "notes") none (hunk ∷ []) ∷ []

abbrev patch : Text
patch = unlines (print_patch operations)

abbrev lines_ab : List Text
lines_ab = [] ∷ codes "b" ∷ []

abbrev all : {A : Type 0} → (A → Bool) → List A → Bool
all test [] = true
all test (x ∷ xs) = test x && all test xs

All-of :
    {A : Type 0} {P : A → Type 0} (test : A → Bool)
    → ((a : A) → test a ≡ true → P a)
    → (xs : List A) → all test xs ≡ true
    → All P xs
All-of test holds [] h = tt
All-of test holds (x ∷ xs) h = elim (Bool-cases (test x)) [
  | inl y ↦ (holds x y, All-of test holds xs (rw y at h))
  | inr n ↦ cc (rw n at h)
]

not-true : (b : Bool) → not b ≡ true → b ≡ false
not-true true h = cc
not-true false h = refl

occurs_b : OccursAt lines_ab 1 (codes "b" ∷ [])
occurs_b = refl

only_b : (j : ℕ) → OccursAt lines_ab j (codes "b" ∷ []) → j ≡ 1
only_b zero h = cc
only_b (suc zero) h = refl
only_b (suc (suc j)) h =
    absurd (omega (arith, OccursAt-bound lines_ab (codes "b" ∷ []) (suc (suc j)) (λ e. cc) h))

In-matches_iff_example :
    In 1 (find_sequence_matches lines_ab (codes "b" ∷ [])) ↔ OccursAt lines_ab 1 (codes "b" ∷ [])
In-matches_iff_example = In-matches_iff lines_ab (codes "b" ∷ []) 1 (λ e. cc)

apply_hunk-ok_example : ◌≡◌ {A = List Text × ℕ} ([] ∷ codes "c" ∷ [], 2) ([] ∷ codes "c" ∷ [], 2)
unfolding apply_hunk find_sequence_matches old_lines new_lines text_eq lines_eq
apply_hunk-ok_example = apply_hunk-ok notes 0 hunk lines_ab 0 1 refl (λ e. cc) occurs_b

apply_hunk-at_example : apply_hunk notes 0 hunk lines_ab 0 ≡ ok ([] ∷ codes "c" ∷ [], 2)
unfolding old_lines new_lines
apply_hunk-at_example = apply_hunk-at notes 0 hunk lines_ab 0 1 (λ e. cc) occurs_b only_b

apply_hunk-ambiguous_example :
    apply_hunk notes 0 hunk (codes "b" ∷ codes "b" ∷ []) 0
    ≡ err (ambiguous_context_match notes 0 3 (codes "b" ∷ []) 2 (1 ∷ 2 ∷ []))
unfolding old_lines find_sequence_matches text_eq
apply_hunk-ambiguous_example =
    apply_hunk-ambiguous notes 0 hunk (codes "b" ∷ codes "b" ∷ []) 0 0 1 (λ e. cc) (λ e. cc) refl
      refl

parse_patch-print_example : parse_patch patch ≡ ok (locate 1 operations)
unfolding print_patch print_operations print_operation print_hunks has_kind
parse_patch-print_example =
    parse_patch-print operations (((refl, refl), tt), tt)
      (All-of (all (λ c. not (is_break c)))
        (All-of (λ c. not (is_break c)) λ c e. not-true (is_break c) e) (print_patch operations)
        refl)

parse_patch-total_example : parse_patch patch ≢ err out_of_fuel
parse_patch-total_example = parse_patch-total patch

join_lines-splitlines_example : join_lines (splitlines two_lines) (ends_lf two_lines) ≡ two_lines
join_lines-splitlines_example = join_lines-splitlines two_lines (refl, (refl, (refl, (refl, tt))))

abbrev change : PlannedChange
change = record {
  kind = update;
  path = notes;
  previous_path = none;
  old_text = two_lines;
  new_text = codes "a" ++ 10 ∷ codes "c" ++ 10 ∷ [];
  hunks_applied = 1;
}

planned : plan_update identity_codec files notes none (hunk ∷ []) ≡ ok change
unfolding plan_update path_eq text_eq read_text apply_hunks apply_hunk find_sequence_matches
    old_lines splitlines join_lines join new_lines ends_lf
planned = refl

apply_changes-frame_example :
    (apply_changes identity_codec (change ∷ []) files).0 (codes "other" ∷ []) ≡ none
unfolding path_eq text_eq
apply_changes-frame_example =
    apply_changes-frame identity_codec (change ∷ []) (codes "other" ∷ []) files
      ((refl, (refl, tt), tt), tt)

abbrev changed_files : Files
changed_files = (apply_changes identity_codec (change ∷ []) files).0

apply_change-written_example :
    (apply_change identity_codec change files).0 notes ≡ some (file change.new_text)
unfolding apply_change make_dirs path_eq write_bytes text_eq
apply_change-written_example = apply_change-written identity_codec change files (λ e. cc) refl

apply_patch-failure_example :
    (apply_patch identity_codec plain_paths (codes "x") [] false false files).0 ≡ files
unfolding apply_patch plan_patch parse_patch splitlines text_eq
apply_patch-failure_example =
    apply_patch-failure identity_codec plain_paths (codes "x") [] false false files
      (invalid_patch no_begin) refl

apply_patch-preview_example :
    (apply_patch identity_codec plain_paths patch [] true false files).0 ≡ files
apply_patch-preview_example =
    apply_patch-preview identity_codec plain_paths patch [] true false files refl

apply_patch-success_example :
    (ops : List PatchOperation) × (parse_patch patch ≡ ok ops)
    × Planned identity_codec plain_paths files [] ops (change ∷ [])
    × Applied identity_codec (change ∷ []) files changed_files
unfolding apply_patch plan_patch parse_patch splitlines unlines print_patch text_eq parse_operation
    strip_prefix print_hunks next_is_operation_header parse_hunk has_kind plan_operations path_eq
    resolve_path apply_hunks apply_hunk make_dir make_dirs remove_node unlink write_bytes write_node
    apply_change apply_changes find_sequence_matches new_lines old_lines print_operation
    print_operations check_hunk parse_add_file parse_lines parse_update_file has_nul join_lines
    plan_add plan_delete plan_operation plan_update read_text ends_lf join lines_from
apply_patch-success_example =
    apply_patch-success identity_codec plain_paths [] files patch false false
      {report = record { changes = change ∷ []; applied = true; validated = false }} refl refl

apply_hunk-absent_example :
    apply_hunk notes 0 hunk [] 0 ≡ err (patch_context_not_found notes 0 3 (codes "b" ∷ []) 1)
unfolding old_lines
apply_hunk-absent_example =
    apply_hunk-absent notes 0 hunk [] 0 (λ e. cc)
      λ j o. absurd (omega (arith, OccursAt-bound [] (codes "b" ∷ []) j (λ e. cc) o))

-- A line in front of the first one.
abbrev other_hunk : UpdateHunk
other_hunk = record {
  lines =
      record { kind = addition; text = codes "x" }
      ∷ record { kind = context; text = codes "a" }
      ∷ [];
  patch_line = 3;
}

abbrev other_change : PlannedChange
other_change = record change { new_text = codes "x" ++ 10 ∷ two_lines }

-- The second hunk, where it stands in the patch of both.
abbrev later_hunk : UpdateHunk
later_hunk = record other_hunk { patch_line = 7 }

abbrev both_updates : List PatchOperation
both_updates =
    update_file (codes "notes") none (hunk ∷ [])
    ∷ update_file (codes "notes") none (later_hunk ∷ [])
    ∷ []

abbrev both_patch : Text
both_patch = unlines (print_patch both_updates)

apply_patch-second_update_example :
    HasOnly identity_codec notes
      (later_hunk ∷ [])
      files
      (apply_patch identity_codec plain_paths both_patch [] false false files).0
unfolding apply_patch plan_patch parse_patch splitlines unlines print_patch text_eq parse_operation
    strip_prefix print_hunks next_is_operation_header parse_hunk has_kind plan_operations path_eq
    resolve_path apply_hunks apply_hunk make_dir make_dirs remove_node unlink write_bytes write_node
    apply_change apply_changes find_sequence_matches new_lines old_lines print_operation
    print_operations check_hunk parse_add_file parse_lines parse_update_file has_nul join_lines
    plan_add plan_delete plan_operation plan_update read_text ends_lf join lines_from
apply_patch-second_update_example =
    apply_patch-second_update identity_codec plain_paths [] (codes "notes") (hunk ∷ [])
      (later_hunk ∷ []) both_patch false false files
      {report = record { changes = change ∷ other_change ∷ []; applied = true; validated = false }}
      refl refl refl
