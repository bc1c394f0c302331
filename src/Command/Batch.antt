-- ===== src/Command/Batch.antt =====
-- `run_commands`: a batch, in sequence or in parallel.
pub mod Order
use chatgpt_web_oauth_mcp.Prelude.{
  ℕ, zero, suc, ◌+◌, ◌-◌, min, Bool, true, false, ◌&&◌, ◌||◌, not, Option, none, some, List, [],
  ◌∷◌, Text, codes, text_eq, length, get_elem?, set, replicate, ltb, leb, ◌==◌, if◌then◌else◌,
  Result, ok, err, ◌>>=◌,
}
use chatgpt_web_oauth_mcp.Prelude.Split.{is_space}
use chatgpt_web_oauth_mcp.FileSystem.{FilePath}
use chatgpt_web_oauth_mcp.Budget.{ℤ, pos, negsuc}
use chatgpt_web_oauth_mcp.Command.{CommandResult, RunError, is_above, max_command_timeout_seconds}

-- `MAX_COMMAND_BATCH_SIZE` and `MAX_COMMAND_BATCH_CONCURRENCY`
abbrev pub max_command_batch_size : ℕ
max_command_batch_size = 20

abbrev pub max_command_batch_concurrency : ℕ
max_command_batch_concurrency = 3

-- `_with_batch_index`
pub record Indexed : Type 0 where
  pub index : ℕ
  pub result : CommandResult

-- Why a batch is refused: the limit on the timeout, or one of the messages of `_invalid_batch_arguments`.
pub data Refusal : Type 0 where
  timeout_over_limit no_commands empty_command : Refusal
  too_many_commands unknown_mode bad_concurrency : Refusal

pub record BatchPayload (R : Type 0) : Type 0 where
  pub success : Bool
  pub execution_mode : Text
  pub command_count : ℕ
  pub completed_count : ℕ
  pub failed_count : ℕ
  pub timed_out_count : ℕ
  pub max_concurrency : ℕ
  pub timeout : ℤ
  pub force : Bool
  pub results : List R

-- `not command.strip()`
unfoldable pub is_blank_command : Text → Bool
is_blank_command [] = true
is_blank_command (c ∷ command) = is_space c && is_blank_command command

abbrev pub any_blank : List Text → Bool
any_blank [] = false
any_blank (command ∷ commands) = is_blank_command command || any_blank commands

abbrev is_nil : List Text → Bool
is_nil [] = true
is_nil (command ∷ commands) = false

-- The guards in front of a batch.
unfoldable pub refusal : List Text → ℤ → Bool → Text → ℤ → Option Refusal
unfolding is_blank_command text_eq
refusal commands timeout force mode max_concurrency =
    if is_above timeout max_command_timeout_seconds && not force
    then some timeout_over_limit
    else if is_nil commands
    then some no_commands
    else if any_blank commands
    then some empty_command
    else if ltb max_command_batch_size (length commands)
    then some too_many_commands
    else if not (text_eq mode (codes "sequential") || text_eq mode (codes "parallel"))
    then some unknown_mode
    else if not (is_above max_concurrency 0)
        || is_above max_concurrency max_command_batch_concurrency
    then some bad_concurrency
    else none

-- `sum(1 for item in results if test(item))`
unfoldable pub count_of : (Indexed → Bool) → List Indexed → ℕ
count_of test [] = 0
count_of test (item ∷ items) = (if test item then 1 else 0) + count_of test items

-- `[item for item in ordered_results if item is not None]`
unfoldable pub present : List (Option Indexed) → List Indexed
present [] = []
present (none ∷ items) = present items
present (some item ∷ items) = item ∷ present items

abbrev pub as_number : ℤ → ℕ
as_number (pos n) = n
as_number (negsuc n) = 0

-- The payload of the results.
unfoldable pub batch_payload :
    (commands : List Text) (timeout : ℤ) (force : Bool) (mode : Text) (max_concurrency : ℤ)
    (results : List Indexed)
    → BatchPayload Indexed
unfolding count_of
batch_payload commands timeout force mode max_concurrency results =
    let failed_count = count_of (λ item. not item.result.success) results in
    record {
      success = failed_count == 0;
      execution_mode = mode;
      command_count = length commands;
      completed_count = length results;
      failed_count = failed_count;
      timed_out_count = count_of (λ item. item.result.timed_out_) results;
      max_concurrency =
          if text_eq mode (codes "sequential")
          then 1
          else min (as_number max_concurrency) (length commands);
      timeout = timeout;
      force = force;
      results = results;
    }

module _ (run : Text → Result RunError CommandResult) where
  -- One command after the other, from an index on.
  unfoldable pub run_in_sequence : ℕ → List Text → Result RunError (List Indexed)
  run_in_sequence index [] = ok []
  run_in_sequence index (command ∷ commands) = do
    result ← run command
    results ← run_in_sequence (index + 1) commands
    ok (record { index = index; result = result } ∷ results)

  -- `future.result()` of the command of an index.
  future_result : List Text → ℕ → Result RunError (Option Indexed)
  future_result commands index = elim (get_elem? commands index) [
    | none ↦ ok none
    | some command ↦ do result ← run command; ok (some (record { index = index; result = result }))
  ]

  -- The loop over the futures in the order in which they are done.
  unfoldable pub collect :
      List Text → List ℕ → List (Option Indexed) → Result RunError (List (Option Indexed))
  unfolding future_result
  collect commands [] ordered_results = ok ordered_results
  collect commands (index ∷ completed) ordered_results = do
    item ← future_result commands index
    collect commands completed (set ordered_results index item)

  unfoldable pub run_in_parallel : List Text → List ℕ → Result RunError (List Indexed)
  unfolding collect present
  run_in_parallel commands completed = do
    ordered_results ← collect commands completed (replicate (length commands) none)
    ok (present ordered_results)

  -- `completed` is the order in which the commands of a parallel batch are done.
  unfoldable pub run_batch :
      (commands : List Text) (completed : List ℕ) (timeout : ℤ) (force : Bool) (mode : Text)
      (max_concurrency : ℤ)
      → Result RunError (BatchPayload Indexed)
  unfolding run_in_sequence run_in_parallel batch_payload
  run_batch commands completed timeout force mode max_concurrency = do
    results ←
        (if text_eq mode (codes "sequential")
          then run_in_sequence 0 commands
          else run_in_parallel commands completed)
    ok (batch_payload commands timeout force mode max_concurrency results)
