-- ===== src/Command/Commands/Answers.antt =====
-- The response to a batch answers every command.
use chatgpt_web_oauth_mcp.Prelude.{
  ℕ, suc, ◌<◌, ◌≡◌, ap, ◌∙◌, Bool, true, false, none, List, [], In, Text, codes, text_eq, length,
  if◌then◌else◌, Result, ok,
}
use chatgpt_web_oauth_mcp.FileSystem.{FilePath, Codec}
use chatgpt_web_oauth_mcp.Budget.{ℤ, pos, BudgetMeasurement, Response, Rendering, response_budget}
use chatgpt_web_oauth_mcp.Budget.Honest.{Says}
use chatgpt_web_oauth_mcp.Command.Reports.{Concludes, uncaught-Concludes}
use chatgpt_web_oauth_mcp.Output.Truncate.{tokens_only}
use chatgpt_web_oauth_mcp.Command.{some, System, CommandResult, RunError, run_command}
use chatgpt_web_oauth_mcp.Command.Batch.{
  BatchPayload, refusal, run_in_sequence, run_in_parallel, run_batch, batch_payload,
}
use chatgpt_web_oauth_mcp.Command.Batch.Order.{
  expected_of, length-expected_of, run_in_sequence-expected, run_in_parallel-run_in_sequence,
}
use chatgpt_web_oauth_mcp.Command.Fit.{Entry, fit_command_batch_to_budget}
use chatgpt_web_oauth_mcp.Command.Fit.Outcomes.{
  AllTell, AllShow, KeepsOutcomes, fit_command_batch_to_budget-KeepsOutcomes,
}
use chatgpt_web_oauth_mcp.Command.Commands.{Answer, answered, refused, run_accepted, run_commands}

module _ (rendering : Rendering (BatchPayload Entry)) (result_of : Text → CommandResult) where
  -- The response tells how every command ended, in the order of the commands.
  pub record AnswersAll (commands : List Text) (max_tokens : ℕ)
      (response : Response (BatchPayload Entry)) : Type 0 where
    pub told : AllTell (expected_of result_of 0 commands) response.payload.results
    pub count : response.payload.completed_count ≡ length commands
    pub whole :
        response.complete ≡ true
        → AllShow (expected_of result_of 0 commands) response.payload.results
    pub honest :
        (truncated : Bool) × (stop_reason : Text) × (measurement : BudgetMeasurement) × Says
          rendering response.payload
          (tokens_only max_tokens)
          truncated
          stop_reason
          (response, measurement)

  abbrev pub Answers : List Text → ℕ → Answer → Type 0
  Answers commands max_tokens (answered response) = AnswersAll commands max_tokens response
  Answers commands max_tokens (refused reason) = ⊥

-- The results of a batch, in either mode, where each command returns a result.
module _ (run : Text → Result RunError CommandResult) (result_of : Text → CommandResult)
    (runs : (command : Text) → run command ≡ ok (result_of command)) where
  results-expected :
      (commands : List Text) (completed : List ℕ) (sequential : Bool)
      → ((i : ℕ) → i < length commands → In i completed)
      → (if sequential
          then run_in_sequence run 0 commands
          else run_in_parallel run commands completed)
        ≡ ok (expected_of result_of 0 commands)
  results-expected commands completed true done =
      run_in_sequence-expected run result_of runs 0 commands
  results-expected commands completed false done =
      run_in_parallel-run_in_sequence run result_of runs commands completed done
      ∙ run_in_sequence-expected run result_of runs 0 commands

  run_accepted-Answers :
      (rendering : Rendering (BatchPayload Entry)) (commands : List Text) (completed : List ℕ)
      (timeout : ℤ) (force : Bool) (mode : Text) (max_concurrency : ℤ) (tokens : ℕ)
      → rendering.counting.encoded_length [] ≡ some 0
      → ((i : ℕ) → i < length commands → In i completed)
      → Concludes rendering.counting (Answers rendering result_of commands (suc tokens)) (
          run_accepted rendering run commands completed timeout force mode max_concurrency
            (pos (suc tokens)))
  unfolding run_accepted run_batch response_budget batch_payload
  run_accepted-Answers rendering commands completed timeout force mode max_concurrency tokens empty
        done =
      let results = expected_of result_of 0 commands in
      let e = results-expected commands completed (text_eq mode (codes "sequential")) done in
      let payload = batch_payload commands timeout force mode max_concurrency results in
      let P = KeepsOutcomes rendering payload (suc tokens) in
      rw (run_batch, e)
        (uncaught-Concludes rendering.counting P (Answers rendering result_of commands (suc tokens))
          (fit_command_batch_to_budget rendering payload (suc tokens)) _
          (fit_command_batch_to_budget-KeepsOutcomes rendering payload (suc tokens) empty)
          (λ response (k : KeepsOutcomes rendering payload (suc tokens) response). record {
            told = k.told;
            count =
                ap (λ (p : BatchPayload Entry). p.completed_count) k.counts
                ∙ length-expected_of result_of 0 commands;
            whole = k.whole;
            honest = k.honest;
          }))

-- Where the encoding counts no tokens for an empty text, a batch that passes the guards, with a
-- positive budget and commands that all return a result, has a response in either mode, in whatever
-- order its commands are done, if each is; or the encoding refuses a text and that exception is
-- raised. The response has an entry for every command in its order, which tells whether it succeeded,
-- its exit code and whether it timed out; where it is called complete it shows both texts of every
-- result unchanged; and it is within the budget, or it says that it is cut and which limits the
-- response that claims more exceeds.
pub run_commands-Answers :
    (rendering : Rendering (BatchPayload Entry)) (system : System) (codec : Codec)
    (encoding_name : Text) (result_of : Text → CommandResult) (commands : List Text)
    (completed : List ℕ) (cwd : FilePath) (timeout : ℤ) (force : Bool) (mode : Text)
    (max_concurrency : ℤ) (tokens : ℕ) (capture_max_bytes : ℤ)
    → rendering.counting.encoded_length [] ≡ some 0
    → ((command : Text)
        → run_command system codec rendering.counting encoding_name command cwd timeout force
            (pos (suc tokens))
            capture_max_bytes
          ≡ ok (result_of command))
    → ((i : ℕ) → i < length commands → In i completed)
    → refusal commands timeout force mode max_concurrency ≡ none
    → Concludes rendering.counting (Answers rendering result_of commands (suc tokens)) (
        run_commands rendering system codec encoding_name commands completed cwd timeout force mode
          max_concurrency
          (pos (suc tokens))
          capture_max_bytes)
unfolding run_commands
run_commands-Answers rendering system codec encoding_name result_of commands completed cwd timeout
      force mode max_concurrency tokens capture_max_bytes empty runs done accepted =
    rw (run_commands, accepted)
      (run_accepted-Answers
        (λ command.
          run_command system codec rendering.counting encoding_name command cwd timeout force
            (pos (suc tokens)) capture_max_bytes)
        result_of runs rendering commands completed timeout force mode max_concurrency tokens empty
        done)
