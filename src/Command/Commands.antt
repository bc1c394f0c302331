-- ===== src/Command/Commands.antt =====
-- `run_commands`: the guards, the batch and its response.
pub mod Answers
use chatgpt_web_oauth_mcp.Prelude.{ℕ, Option, none, some, List, Text, Result, ok, err, ◌>>=◌}
use chatgpt_web_oauth_mcp.FileSystem.{FilePath, Codec}
use chatgpt_web_oauth_mcp.Budget.{ℤ, pos, ResponseBudget, Response, Rendering, response_budget}
use chatgpt_web_oauth_mcp.Command.{
  Bool, System, CommandResult, RunError, uncaught, checked_budget, run_command,
}
use chatgpt_web_oauth_mcp.Command.Batch.{Indexed, BatchPayload, Refusal, refusal, run_batch}
use chatgpt_web_oauth_mcp.Command.Fit.{Entry, fit_command_batch_to_budget}

-- A batch that was refused, or its response.
pub data Answer : Type 0 where
  refused : Refusal → Answer
  answered : Response (BatchPayload Entry) → Answer

-- The batch of commands that passed the guards.
module _ (rendering : Rendering (BatchPayload Entry))
    (run : Text → Result RunError CommandResult) where
  unfoldable pub run_accepted :
      (commands : List Text) (completed : List ℕ) (timeout : ℤ) (force : Bool) (mode : Text)
      (max_concurrency max_tokens : ℤ)
      → Result RunError Answer
  unfolding run_batch response_budget fit_command_batch_to_budget
  run_accepted commands completed timeout force mode max_concurrency max_tokens = do
    payload ← run_batch run commands completed timeout force mode max_concurrency
    budget ← checked_budget (response_budget (λ (n : ℤ). some n) max_tokens none)
    response ← uncaught (fit_command_batch_to_budget rendering payload budget.max_tokens)
    ok (answered response)

module _ (rendering : Rendering (BatchPayload Entry)) (system : System) (codec : Codec)
    (encoding_name : Text) where
  unfoldable pub run_commands :
      (commands : List Text) (completed : List ℕ) (cwd : FilePath) (timeout : ℤ) (force : Bool)
      (mode : Text) (max_concurrency max_tokens capture_max_bytes : ℤ)
      → Result RunError Answer
  unfolding refusal run_accepted run_command
  run_commands commands completed cwd timeout force mode max_concurrency max_tokens
        capture_max_bytes =
      elim (refusal commands timeout force mode max_concurrency) [
        | some reason ↦ ok (refused reason)
        | none ↦
            run_accepted rendering
              (λ command.
                run_command system codec rendering.counting encoding_name command cwd timeout force
                  max_tokens capture_max_bytes)
              commands completed timeout force mode max_concurrency max_tokens
      ]
