-- ===== src/Command/Fit.antt =====
-- `_fit_command_batch_to_budget`: one response budget for all results of a batch.
pub mod Outcomes
use chatgpt_web_oauth_mcp.Prelude.{
  ℕ, zero, suc, ◌+◌, ◌/◌, Bool, true, false, ◌&&◌, ◌||◌, not, Option, none, some, List, [], ◌∷◌,
  ◌++◌, map, Text, codes, ltb, if◌then◌else◌, ok, ◌>>=◌,
}
use chatgpt_web_oauth_mcp.Prelude.Dict.{Dict, get, put}
use chatgpt_web_oauth_mcp.Budget.{
  ℤ, Counting, Measuring, count_tokens, ResponseBudget, BudgetMeasurement, fits, Response,
  Rendering, with_budget_metadata,
}
use chatgpt_web_oauth_mcp.Output.Shares.{need_of, allocate_stream_token_budgets}
use chatgpt_web_oauth_mcp.Output.Truncate.{tokens_only, str, truncate_text_to_tokens}
use chatgpt_web_oauth_mcp.Output.Render.{shares_or, Stream, stdout, stderr, name_of, Rendered}
use chatgpt_web_oauth_mcp.Command.{CommandResult, OutputMetadata, full, compact}
use chatgpt_web_oauth_mcp.Command.Batch.{Indexed, BatchPayload}

-- A result in the response: with its output, or its terminal outcome alone.
pub data Entry : Type 0 where
  detailed : Indexed → Entry
  summary : (index : ℕ) (success : Bool) (exit_code : ℤ) (timed_out : Bool) → Entry

-- `f"{index}:{stream}"`
unfoldable pub key_of : ℕ → Stream → Text
unfolding str
key_of index stream = str index ++ (codes ":" ++ name_of stream)

abbrev pub text_of : Stream → CommandResult → Text
text_of stdout result = result.stdout
text_of stderr result = result.stderr

-- A result with its texts cut, and the flag of a share below the need.
unfoldable pub shortened : Dict ℕ → Dict ℕ → Indexed → Text → Text → Indexed
unfolding key_of need_of
shortened allocations needs item out error =
    let short = λ (stream : Stream).
      ltb (need_of allocations (key_of item.index stream))
        (need_of needs (key_of item.index stream)) in
    record item {
      result = record item.result {
        stdout = out;
        stderr = error;
        batch_budget_truncated = short stdout || short stderr || item.result.batch_budget_truncated;
      };
    }

-- `token_count` of the aggregate, where there is one.
abbrev aggregate_tokens : OutputMetadata → Option ℕ
aggregate_tokens (full rendered) = some rendered.aggregate.token_count
aggregate_tokens (compact count) = count

abbrev pub compacted : Option OutputMetadata → Option OutputMetadata
compacted none = none
compacted (some metadata) = some (compact (aggregate_tokens metadata))

-- The results without the metadata of their streams.
unfoldable pub compact_entry : Entry → Entry
compact_entry (detailed item) = detailed (record item {
  result = record item.result { output_metadata = compacted item.result.output_metadata };
})
compact_entry (summary index success exit_code timed_out) =
    summary index success exit_code timed_out

-- The terminal outcome of a result.
unfoldable pub summary_entry : Entry → Entry
summary_entry (detailed item) =
    summary item.index item.result.success item.result.exit_code item.result.timed_out_
summary_entry (summary index success exit_code timed_out) =
    summary index success exit_code timed_out

module _ (counting : Counting) where
  -- `budget.count_tokens(text) if text else 0`
  unfoldable pub need : Text → Measuring ℕ
  unfolding count_tokens
  need [] = ok 0
  need (c ∷ text) = count_tokens counting (c ∷ text)

  unfoldable pub content_needs : List Indexed → Dict ℕ → Measuring (Dict ℕ)
  unfolding key_of need
  content_needs [] needs = ok needs
  content_needs (item ∷ items) needs = need item.result.stdout >>= (λ out.
      need item.result.stderr >>= (λ error.
        content_needs items
          (put (key_of item.index stderr) error (put (key_of item.index stdout) out needs))))

  -- One result by its shares, and whether it was truncated.
  unfoldable pub fit_result : Dict ℕ → Dict ℕ → Indexed → Measuring (Indexed × Bool)
  unfolding key_of need_of truncate_text_to_tokens shortened
  fit_result allocations needs item = do
    out ←
        truncate_text_to_tokens counting item.result.stdout
          (need_of allocations (key_of item.index stdout))
    error ←
        truncate_text_to_tokens counting item.result.stderr
          (need_of allocations (key_of item.index stderr))
    ok (shortened allocations needs item (out.0) (error.0), out.1 || error.1)

  unfoldable pub fit_results : Dict ℕ → Dict ℕ → List Indexed → Measuring (List Indexed × Bool)
  unfolding fit_result
  fit_results allocations needs [] = ok ([], false)
  fit_results allocations needs (item ∷ items) =
      fit_result allocations needs item >>= (λ (fitted : Indexed × Bool).
        fit_results allocations needs items
        >>= (λ (rest : List Indexed × Bool). ok (fitted.0 ∷ rest.0, fitted.1 || rest.1)))

abbrev pub entries_of : List Indexed → List Entry
entries_of items = map detailed items

module _ (rendering : Rendering (BatchPayload Entry)) where
  open rendering use {counting}

  abbrev pub with_results : List Entry → BatchPayload Entry → BatchPayload Entry
  with_results results payload = record payload { results = results }

  -- The outcomes alone, where the results without metadata do not fit.
  unfoldable pub summarize :
      ResponseBudget
      → List Entry
      → Response (BatchPayload Entry) × BudgetMeasurement
      → Measuring (Response (BatchPayload Entry))
  unfolding summary_entry with_budget_metadata fits
  summarize budget compact_results (rendered, measurement) =
      let summarized =
        with_budget_metadata rendering
          (with_results (map summary_entry compact_results) rendered.payload) budget true
          (codes "token_budget")
        >>= (λ (r : Response (BatchPayload Entry) × BudgetMeasurement). ok (r.0)) in
      if fits measurement then ok rendered else summarized

  -- From the first response on: it fits, or without metadata, or the outcomes alone.
  unfoldable pub compact_or_summarize :
      ResponseBudget
      → Response (BatchPayload Entry) × BudgetMeasurement
      → Measuring (Response (BatchPayload Entry))
  unfolding compact_entry summarize with_budget_metadata fits
  compact_or_summarize budget (rendered, measurement) =
      let compact_results = map compact_entry rendered.payload.results in
      let compacting =
        with_budget_metadata rendering (with_results compact_results rendered.payload) budget true
          (codes "token_budget")
        >>= summarize budget compact_results in
      if fits measurement then ok rendered else compacting

  abbrev pub payload_of : BatchPayload Indexed → List Indexed → BatchPayload Entry
  payload_of payload items = record {
    success = payload.success;
    execution_mode = payload.execution_mode;
    command_count = payload.command_count;
    completed_count = payload.completed_count;
    failed_count = payload.failed_count;
    timed_out_count = payload.timed_out_count;
    max_concurrency = payload.max_concurrency;
    timeout = payload.timeout;
    force = payload.force;
    results = entries_of items;
  }

  -- The response to the results within their shares.
  unfoldable pub respond :
      BatchPayload Indexed
      → ResponseBudget
      → List Indexed × Bool
      → Measuring (Response (BatchPayload Entry))
  unfolding with_budget_metadata compact_or_summarize
  respond payload budget (items, any_truncated) =
      with_budget_metadata rendering (payload_of payload items) budget any_truncated
        (if any_truncated then codes "token_budget" else codes "end_of_results")
      >>= compact_or_summarize budget

  unfoldable pub fit_command_batch_to_budget :
      BatchPayload Indexed → ℕ → Measuring (Response (BatchPayload Entry))
  unfolding content_needs allocate_stream_token_budgets fit_results respond
  fit_command_batch_to_budget payload max_tokens = do
    needs ← content_needs counting payload.results []
    allocations ← shares_or (allocate_stream_token_budgets needs (max_tokens / 2))
    fitted ← fit_results counting allocations needs payload.results
    respond payload (tokens_only max_tokens) fitted
