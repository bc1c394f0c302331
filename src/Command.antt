-- ===== src/Command.antt =====
-- shell.py: `run_command`, and in the children a batch of commands.
pub mod Reports
pub mod Batch
pub mod Fit
pub mod Commands
mod Tests
use chatgpt_web_oauth_mcp.Prelude.{
  ℕ, zero, suc, ◌+◌, ◌/◌, Bool, true, false, ◌&&◌, ◌||◌, not, Option, none, some, List, [], ◌∷◌,
  Text, codes, ltb, if◌then◌else◌, Result, ok, err, ◌>>=◌,
}
use chatgpt_web_oauth_mcp.FileSystem.{FilePath, Bytes, Codec}
use chatgpt_web_oauth_mcp.Budget.{
  ℤ, pos, negsuc, Counting, Measuring, MeasureError, BudgetError, ResponseBudget, response_budget,
}
use chatgpt_web_oauth_mcp.Output.Capture.{Capture, new_capture, add_all}
use chatgpt_web_oauth_mcp.Output.Render.{Both, Rendered, render_captured_output}

-- `TIMEOUT_EXIT_CODE`
abbrev pub timeout_exit_code : ℤ
timeout_exit_code = negsuc 0

-- `MAX_COMMAND_TIMEOUT_SECONDS`
abbrev pub max_command_timeout_seconds : ℕ
max_command_timeout_seconds = 300

-- `n > limit`
abbrev pub is_above : ℤ → ℕ → Bool
is_above (pos n) limit = ltb limit n
is_above (negsuc n) limit = false

-- `n == 0`
abbrev pub is_zero : ℤ → Bool
is_zero (pos zero) = true
is_zero _ = false

-- The `code` of the member `error`; the message follows from it and the other members.
pub data ErrorCode : Type 0 where
  timeout_exceeds_limit cwd_not_found cwd_not_directory command_start_failed timed_out : ErrorCode

-- `output_metadata`: as rendered, or the token count that is left of it in a batch.
pub data OutputMetadata : Type 0 where
  full : Rendered → OutputMetadata
  compact : Option ℕ → OutputMetadata

pub record CommandResult : Type 0 where
  pub success : Bool
  pub command : Text
  pub cwd : FilePath
  pub exit_code : ℤ
  pub stdout : Text
  pub stderr : Text
  pub timed_out_ : Bool
  pub timeout : ℤ
  pub force : Option Bool
  pub output_metadata : Option OutputMetadata
  pub error : Option ErrorCode
  pub hint : Option Text
  pub batch_budget_truncated : Bool

-- What a started command did: the chunks read from its pipes, whether the deadline passed before
-- it ended and before its pipes were drained, and its return code.
pub record Ran : Type 0 where
  pub stdout_chunks : List Bytes
  pub stderr_chunks : List Bytes
  pub wait_expired : Bool
  pub readers_alive : Bool
  pub returncode : Option ℤ

-- The operating system: `popen` is none where the command does not start.
pub record System : Type 0 where
  pub exists : FilePath → Bool
  pub is_dir : FilePath → Bool
  pub popen : Text → FilePath → Option Ran

-- The exceptions: a budget that is not positive, `capture_max_bytes`, or the
-- encoding of a text.
pub data RunError : Type 0 where
  bad_budget : BudgetError → RunError
  bad_capture : ℤ → RunError
  not_measured : MeasureError → RunError

-- A result without output.
abbrev pub failed_result : Text → FilePath → ℤ → ErrorCode → CommandResult
failed_result command cwd timeout code = record {
  success = false;
  command = command;
  cwd = cwd;
  exit_code = timeout_exit_code;
  stdout = [];
  stderr = [];
  timed_out_ = false;
  timeout = timeout;
  force = none;
  output_metadata = none;
  error = some code;
  hint = none;
  batch_budget_truncated = false;
}

unfoldable pub timeout_limit_error : Text → FilePath → ℤ → CommandResult
timeout_limit_error command cwd timeout =
    record (failed_result command cwd timeout timeout_exceeds_limit) {
      hint = some (codes "job_or_tmux_or_force_after_user_approval");
    }

abbrev pub checked_budget : Result BudgetError ResponseBudget → Result RunError ResponseBudget
checked_budget (ok budget) = ok budget
checked_budget (err e) = err (bad_budget e)

abbrev checked_capture : ℤ → Result RunError ℕ
checked_capture (pos (suc n)) = ok (suc n)
checked_capture n = err (bad_capture n)

-- The errors of measuring are not caught.
abbrev pub uncaught : {A : Type 0} → Measuring A → Result RunError A
uncaught (err e) = err (not_measured e)
uncaught (ok value) = ok value

abbrev pub exit_code_of : Option ℤ → ℤ
exit_code_of none = timeout_exit_code
exit_code_of (some code) = code

-- The two captures of a command, each with its part of the limit.
abbrev pub captured : ℕ → Ran → Both Capture
captured limit ran = record {
  out = add_all ran.stdout_chunks (new_capture ((limit + 1) / 2));
  error = add_all ran.stderr_chunks (new_capture (limit / 2));
}

-- The result of a command that was started.
abbrev pub finished : Text → FilePath → ℤ → Bool → Ran → Rendered → CommandResult
finished command cwd timeout force ran output =
    let code = exit_code_of ran.returncode in
    let shown : CommandResult = record (failed_result command cwd timeout timed_out) {
      stdout = output.texts.out;
      stderr = output.texts.error;
      output_metadata = some (full output);
    } in
    if ran.wait_expired || ran.readers_alive
    then record shown {
      timed_out_ = true;
      hint = some (codes "increase_timeout_or_use_job_or_tmux");
    }
    else record shown { success = is_zero code; exit_code = code; force = some force; error = none }

module _ (system : System) (codec : Codec) (counting : Counting) (encoding_name : Text) where
  open system use {exists, is_dir, popen}

  -- From the start of the process on.
  unfoldable pub start_command : Text → FilePath → ℤ → Bool → ℕ → ℕ → Result RunError CommandResult
  unfolding render_captured_output new_capture add_all
  start_command command cwd timeout force max_tokens limit = elim (popen command cwd) [
    | none ↦
        ok (record (failed_result command cwd timeout command_start_failed) { force = some force })
    | some ran ↦ do
      output ← uncaught (
          render_captured_output counting max_tokens codec encoding_name (captured limit ran) limit)
      ok (finished command cwd timeout force ran output)
  ]

  unfoldable pub run_command :
      (command : Text) (cwd : FilePath) (timeout : ℤ) (force : Bool)
      (max_tokens capture_max_bytes : ℤ)
      → Result RunError CommandResult
  unfolding timeout_limit_error response_budget start_command
  run_command command cwd timeout force max_tokens capture_max_bytes =
      if is_above timeout max_command_timeout_seconds && not force
      then ok (timeout_limit_error command cwd timeout)
      else if not (exists cwd)
      then ok (failed_result command cwd timeout cwd_not_found)
      else if not (is_dir cwd)
      then ok (failed_result command cwd timeout cwd_not_directory)
      else do
        budget ← checked_budget (response_budget (λ (n : ℤ). some n) max_tokens none)
        limit ← checked_capture capture_max_bytes
        start_command command cwd timeout force budget.max_tokens limit
