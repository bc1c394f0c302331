-- ===== src/Command/Tests.antt =====
-- Runs of a command and of a batch.
use chatgpt_web_oauth_mcp.Output.Capture.{add}
use chatgpt_web_oauth_mcp.Prelude.{
  ℕ, zero, suc, ◌<◌, ◌≡◌, refl, inl, inr, true, false, none, some, List, [], ◌∷◌, In, Text, codes,
  length, Result, ok, err, arith,
}
use chatgpt_web_oauth_mcp.FileSystem.{Codec}
use chatgpt_web_oauth_mcp.Budget.{not_encodable, pos, Counting, Rendering}
use chatgpt_web_oauth_mcp.Budget.Ends.{Ends}
use chatgpt_web_oauth_mcp.Command.{
  not_measured, System, Ran, CommandResult, RunError, failed_result, timed_out,
  command_start_failed, run_command,
}
use chatgpt_web_oauth_mcp.Command.Reports.{Concludes, ReportsRun, run_command-ReportsRun}
use chatgpt_web_oauth_mcp.Command.Batch.{Indexed, BatchPayload, run_in_sequence, run_in_parallel}
use chatgpt_web_oauth_mcp.Command.Batch.Order.{run_in_parallel-run_in_sequence}
use chatgpt_web_oauth_mcp.Command.Batch.{refusal}
use chatgpt_web_oauth_mcp.Command.Commands.{run_commands}
use chatgpt_web_oauth_mcp.Command.Commands.Answers.{Answers, run_commands-Answers}
use chatgpt_web_oauth_mcp.Command.Fit.{Entry, fit_command_batch_to_budget}
use chatgpt_web_oauth_mcp.Command.Fit.Outcomes.{
  KeepsOutcomes, fit_command_batch_to_budget-KeepsOutcomes,
}

abbrev plain_counting : Counting
plain_counting = record { byte_count = λ t. length t; encoded_length = λ t. some (length t) }

abbrev plain_codec : Codec
plain_codec = record { decode = λ raw. raw; encode = λ text. text }

-- Every command writes two lines and ends with 0.
abbrev writes_lines : Ran
writes_lines = record {
  stdout_chunks = codes "one\n" ∷ codes "two\n" ∷ [];
  stderr_chunks = [];
  wait_expired = false;
  readers_alive = false;
  returncode = some (pos 0);
}

abbrev one_system : System
one_system = record {
  exists = λ p. true;
  is_dir = λ p. true;
  popen = λ command cwd. some writes_lines;
}

run_command-ReportsRun_example :
    Concludes plain_counting (ReportsRun plain_codec plain_counting 5 40 writes_lines) (
      run_command one_system plain_codec plain_counting
        (codes "o200k_base")
        (codes "seq 2")
        []
        (pos 30)
        false
        (pos 5)
        (pos 40))
run_command-ReportsRun_example =
    run_command-ReportsRun one_system plain_codec plain_counting (codes "o200k_base")
      (codes "seq 2") [] (pos 30) false 4 39 writes_lines refl (inl refl) refl refl refl

abbrev result_of : Text → CommandResult
result_of command = failed_result command [] (pos 30) command_start_failed

abbrev two_commands : List Text
two_commands = codes "ls" ∷ codes "pwd" ∷ []

abbrev last_first : List ℕ
last_first = 1 ∷ 0 ∷ []

each_done : (i : ℕ) → i < 2 → In i last_first
each_done zero h = inr (inl refl)
each_done (suc zero) h = inl refl
each_done (suc (suc i)) h = absurd (omega arith)

run_in_parallel-run_in_sequence_example :
    run_in_parallel (λ command. ok (result_of command)) two_commands last_first
    ≡ run_in_sequence (λ command. ok (result_of command)) 0 two_commands
run_in_parallel-run_in_sequence_example =
    run_in_parallel-run_in_sequence (λ command. ok (result_of command)) result_of (λ command. refl)
      two_commands last_first each_done

abbrev batch_rendering : Rendering (BatchPayload Entry)
batch_rendering = record { render_json_payload = λ r. codes "{}"; counting = plain_counting }

abbrev two_results : BatchPayload Indexed
two_results = record {
  success = false;
  execution_mode = codes "sequential";
  command_count = 2;
  completed_count = 2;
  failed_count = 2;
  timed_out_count = 0;
  max_concurrency = 1;
  timeout = pos 30;
  force = false;
  results =
      record { index = 0; result = result_of (codes "ls") }
      ∷ record { index = 1; result = result_of (codes "pwd") }
      ∷ [];
}

fit_command_batch_to_budget-KeepsOutcomes_example :
    Ends plain_counting
      (KeepsOutcomes batch_rendering two_results 1)
      (fit_command_batch_to_budget batch_rendering two_results 1)
fit_command_batch_to_budget-KeepsOutcomes_example =
    fit_command_batch_to_budget-KeepsOutcomes batch_rendering two_results 1 refl

abbrev run_one : Text → Result RunError CommandResult
run_one command =
    run_command one_system plain_codec plain_counting (codes "o200k_base") command [] (pos 30) false
      (pos 40) (pos 40)

abbrev value_of : Result RunError CommandResult → CommandResult
value_of (ok result) = result
value_of (err e) = failed_result [] [] (pos 0) timed_out

run_one-ok : (command : Text) → run_one command ≡ ok (value_of (run_one command))
unfolding run_command add
run_one-ok command = refl

accepted : refusal two_commands (pos 30) false (codes "parallel") (pos 2) ≡ none
unfolding refusal
accepted = refl

run_commands-Answers_example :
    Concludes plain_counting
      (Answers batch_rendering (λ command. value_of (run_one command)) two_commands 40)
      (run_commands batch_rendering one_system plain_codec
        (codes "o200k_base")
        two_commands
        last_first
        []
        (pos 30)
        false
        (codes "parallel")
        (pos 2)
        (pos 40)
        (pos 40))
run_commands-Answers_example =
    run_commands-Answers batch_rendering one_system plain_codec (codes "o200k_base")
      (λ command. value_of (run_one command)) two_commands last_first [] (pos 30) false
      (codes "parallel") (pos 2) 39 (pos 40) refl run_one-ok each_done accepted

-- A command whose output the encoding refuses.
refused_output_raises :
    run_command one_system plain_codec
      (record { byte_count = λ t. length t; encoded_length = λ t. none })
      (codes "o200k_base")
      (codes "seq 2")
      []
      (pos 30)
      false
      (pos 5)
      (pos 40)
    ≡ err (not_measured (not_encodable (codes "one\ntwo\n")))
unfolding run_command add
refused_output_raises = refl
