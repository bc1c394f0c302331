-- ===== src/Command/Fit/Outcomes.antt =====
-- No command is lost from the response to a batch.
use chatgpt_web_oauth_mcp.Prelude.{
  ℕ, ◌/◌, ◌≡◌, refl, sym, ◌∙◌, Bool, true, false, not, ◌||◌, some, List, [], ◌∷◌, map, Text, codes,
  if◌then◌else◌,
}
use chatgpt_web_oauth_mcp.Prelude.Dict.{Dict}
use chatgpt_web_oauth_mcp.Budget.{
  ℤ, Counting, BudgetMeasurement, fits, Response, Rendering, count_tokens, with_budget_metadata,
}
use chatgpt_web_oauth_mcp.Budget.Ends.{Ends, >>=-Ends, Ends-widen, if-Ends, count_tokens-Ends}
use chatgpt_web_oauth_mcp.Budget.Honest.{Says, fitting, refusing, with_budget_metadata-honest}
use chatgpt_web_oauth_mcp.Output.Shares.{need_of, allocate_stream_token_budgets}
use chatgpt_web_oauth_mcp.Output.Shares.Bounds.{allocate_stream_token_budgets-Bounded}
use chatgpt_web_oauth_mcp.Output.Truncate.{tokens_only, truncate_text_to_tokens}
use chatgpt_web_oauth_mcp.Output.Truncate.Fits.{Truncated, truncate_text_to_tokens-Truncated}
use chatgpt_web_oauth_mcp.Output.Render.{stdout, stderr, shares_or}
use chatgpt_web_oauth_mcp.Command.Batch.{Indexed, BatchPayload}
use chatgpt_web_oauth_mcp.Command.Fit.{
  Entry, detailed, summary, key_of, compact_entry, summary_entry, need, content_needs, shortened,
  fit_result, fit_results, with_results, summarize, compact_or_summarize, entries_of, payload_of,
  respond, fit_command_batch_to_budget,
}

-- An entry of the response tells how the command of a result ended.
pub record Tells (item : Indexed) (index : ℕ) (success : Bool) (exit_code : ℤ) (timed_out : Bool)
    : Type 0 where
  pub index_ : index ≡ item.index
  pub success_ : success ≡ item.result.success
  pub exit_code_ : exit_code ≡ item.result.exit_code
  pub timed_out_ : timed_out ≡ item.result.timed_out_

abbrev pub TellsOf : Indexed → Entry → Type 0
TellsOf item (detailed shown) =
    Tells item shown.index shown.result.success shown.result.exit_code shown.result.timed_out_
TellsOf item (summary index success exit_code timed_out) =
    Tells item index success exit_code timed_out

-- One entry for each result, in their order.
unfoldable pub AllTell : List Indexed → List Entry → Type 0
AllTell [] [] = Unit {0}
AllTell (item ∷ items) (entry ∷ entries) = TellsOf item entry × AllTell items entries
AllTell _ _ = ⊥

-- An entry with both texts of the result, unchanged.
abbrev pub ShowsOf : Indexed → Entry → Type 0
ShowsOf item (detailed shown) =
    (shown.result.stdout ≡ item.result.stdout) × (shown.result.stderr ≡ item.result.stderr)
ShowsOf item (summary index success exit_code timed_out) = ⊥

unfoldable pub AllShow : List Indexed → List Entry → Type 0
AllShow [] [] = Unit {0}
AllShow (item ∷ items) (entry ∷ entries) = ShowsOf item entry × AllShow items entries
AllShow _ _ = ⊥

AllTell-compact :
    (items : List Indexed) (entries : List Entry)
    → AllTell items entries
    → AllTell items (map compact_entry entries)
unfolding AllTell compact_entry
AllTell-compact [] [] h = tt
AllTell-compact [] (e ∷ es) h = absurd h
AllTell-compact (i ∷ is) [] h = absurd h
AllTell-compact (i ∷ is) (detailed shown ∷ es) (t, h) = (t, AllTell-compact is es h)
AllTell-compact (i ∷ is) (summary n s c o ∷ es) (t, h) = (t, AllTell-compact is es h)

AllTell-summary :
    (items : List Indexed) (entries : List Entry)
    → AllTell items entries
    → AllTell items (map summary_entry entries)
unfolding AllTell summary_entry
AllTell-summary [] [] h = tt
AllTell-summary [] (e ∷ es) h = absurd h
AllTell-summary (i ∷ is) [] h = absurd h
AllTell-summary (i ∷ is) (detailed shown ∷ es) (t, h) = (t, AllTell-summary is es h)
AllTell-summary (i ∷ is) (summary n s c o ∷ es) (t, h) = (t, AllTell-summary is es h)

-- A result within its shares tells how its command ended, and is whole where nothing was cut.
record Fitted (item : Indexed) (r : Indexed × Bool) : Type 0 where
  pub told : TellsOf item (detailed r.0)
  pub whole : r.1 ≡ false → ShowsOf item (detailed r.0)

record FittedAll (items : List Indexed) (r : List Indexed × Bool) : Type 0 where
  pub told : AllTell items (entries_of r.0)
  pub whole : r.1 ≡ false → AllShow items (entries_of r.0)

neither : (a b : Bool) → (a || b) ≡ false → (a ≡ false) × (b ≡ false)
neither true b h = cc
neither false true h = cc
neither false false h = (refl, refl)

module _ (counting : Counting) where
  need-Ends : (text : Text) → Ends counting (λ n. Unit {0}) (need counting text)
  unfolding need
  need-Ends [] = tt
  need-Ends (c ∷ text) =
      Ends-widen counting (λ n. counting.encoded_length (c ∷ text) ≡ some n) (λ n. Unit {0})
        (count_tokens counting (c ∷ text)) (count_tokens-Ends counting (c ∷ text)) (λ n e. tt)

  content_needs-Ends :
      (items : List Indexed) (needs : Dict ℕ)
      → Ends counting (λ d. Unit {0}) (content_needs counting items needs)
  unfolding content_needs
  content_needs-Ends [] needs = tt
  content_needs-Ends (item ∷ items) needs =
      >>=-Ends counting (λ n. Unit {0}) (λ d. Unit {0}) (need counting item.result.stdout) _
        (need-Ends item.result.stdout)
        (λ out u.
          >>=-Ends counting (λ n. Unit {0}) (λ d. Unit {0}) (need counting item.result.stderr) _
            (need-Ends item.result.stderr) (λ error v. content_needs-Ends items _))

  fit_result-Fitted :
      (allocations needs : Dict ℕ) (item : Indexed)
      → counting.encoded_length [] ≡ some 0
      → Ends counting (Fitted item) (fit_result counting allocations needs item)
  unfolding fit_result shortened
  fit_result-Fitted allocations needs item empty =
      let out_share = need_of allocations (key_of item.index stdout) in
      let error_share = need_of allocations (key_of item.index stderr) in
      >>=-Ends counting (Truncated counting item.result.stdout out_share) (Fitted item)
        (truncate_text_to_tokens counting item.result.stdout out_share) _
        (truncate_text_to_tokens-Truncated counting item.result.stdout out_share empty)
        (λ out (p : Truncated counting item.result.stdout out_share out).
          >>=-Ends counting (Truncated counting item.result.stderr error_share) (Fitted item)
            (truncate_text_to_tokens counting item.result.stderr error_share) _
            (truncate_text_to_tokens-Truncated counting item.result.stderr error_share empty)
            (λ error (q : Truncated counting item.result.stderr error_share error). record {
              told = record {
                index_ = refl;
                success_ = refl;
                exit_code_ = refl;
                timed_out_ = refl;
              };
              whole = λ h. let (a, b) = neither (out.1) (error.1) h in (p.whole a, q.whole b);
            }))

  fit_results-FittedAll :
      (allocations needs : Dict ℕ) (items : List Indexed)
      → counting.encoded_length [] ≡ some 0
      → Ends counting (FittedAll items) (fit_results counting allocations needs items)
  unfolding fit_results AllTell AllShow
  fit_results-FittedAll allocations needs [] empty = record { told = tt; whole = λ h. tt }
  fit_results-FittedAll allocations needs (item ∷ items) empty =
      >>=-Ends counting (Fitted item) (FittedAll (item ∷ items))
        (fit_result counting allocations needs item) _
        (fit_result-Fitted allocations needs item empty)
        (λ fitted (f : Fitted item fitted).
          >>=-Ends counting (FittedAll items) (FittedAll (item ∷ items))
            (fit_results counting allocations needs items) _
            (fit_results-FittedAll allocations needs items empty)
            (λ rest (g : FittedAll items rest). record {
              told = (f.told, g.told);
              whole = λ h. let (a, b) = neither (fitted.1) (rest.1) h in (f.whole a, g.whole b);
            }))

module _ (rendering : Rendering (BatchPayload Entry)) (payload : BatchPayload Indexed)
    (max_tokens : ℕ) where
  open rendering use {counting}

  -- The response tells how every command ended, has the counts of the batch, shows all texts where
  -- it is called complete, and is honest about the budget.
  pub record KeepsOutcomes (response : Response (BatchPayload Entry)) : Type 0 where
    pub told : AllTell payload.results response.payload.results
    pub counts : with_results rendering [] response.payload ≡ payload_of rendering payload []
    pub whole : response.complete ≡ true → AllShow payload.results response.payload.results
    pub honest :
        (truncated : Bool) × (stop_reason : Text) × (measurement : BudgetMeasurement) × Says
          rendering response.payload
          (tokens_only max_tokens)
          truncated
          stop_reason
          (response, measurement)

  abbrev Carries : Response (BatchPayload Entry) × BudgetMeasurement → Type 0
  Carries r = KeepsOutcomes r.0

  -- What is known of the results before they are put in a response.
  record Carried (contents : BatchPayload Entry) (truncated : Bool) : Type 0 where
    pub told : AllTell payload.results contents.results
    pub counts : with_results rendering [] contents ≡ payload_of rendering payload []
    pub whole : truncated ≡ false → AllShow payload.results contents.results

  not-true : (b : Bool) → not b ≡ true → b ≡ false
  not-true true h = cc
  not-true false h = refl

  Says-Carries :
      (contents : BatchPayload Entry) (truncated : Bool) (stop_reason : Text)
      (r : Response (BatchPayload Entry) × BudgetMeasurement)
      → Carried contents truncated
      → Says rendering contents (tokens_only max_tokens) truncated stop_reason r
      → Carries r
  Says-Carries contents truncated stop_reason r c (fitting p w f) =
      let e : contents ≡ r.0.payload = sym p.payload_ in
      let says : Says rendering contents (tokens_only max_tokens) truncated stop_reason r =
        fitting p w f in
      record {
        told = rw e at c.told;
        counts = rw e at c.counts;
        whole = λ h. rw e at (c.whole (not-true truncated (sym p.complete ∙ h)));
        honest = (truncated, stop_reason, r.1, rw e at says);
      }
  Says-Carries contents truncated stop_reason r c (refusing limits claim p x q) =
      let e : contents ≡ r.0.payload = sym q.payload_ in
      let says : Says rendering contents (tokens_only max_tokens) truncated stop_reason r =
        refusing limits claim p x q in
      record {
        told = rw e at c.told;
        counts = rw e at c.counts;
        whole = λ h. cc (q.incomplete, h);
        honest = (truncated, stop_reason, r.1, rw e at says);
      }

  with_budget_metadata-Carries :
      (contents : BatchPayload Entry) (truncated : Bool) (stop_reason : Text)
      → Carried contents truncated
      → Ends counting Carries
          (with_budget_metadata rendering contents (tokens_only max_tokens) truncated stop_reason)
  with_budget_metadata-Carries contents truncated stop_reason c =
      Ends-widen counting (Says rendering contents (tokens_only max_tokens) truncated stop_reason)
        Carries _
        (with_budget_metadata-honest rendering contents (tokens_only max_tokens) truncated
          stop_reason)
        (λ r says. Says-Carries contents truncated stop_reason r c says)

  summarize-KeepsOutcomes :
      (compact_results : List Entry) (r : Response (BatchPayload Entry) × BudgetMeasurement)
      → AllTell payload.results compact_results
      → Carries r
      → Ends counting KeepsOutcomes (summarize rendering (tokens_only max_tokens) compact_results r)
  unfolding summarize
  summarize-KeepsOutcomes compact_results (rendered, measurement) told c =
      if-Ends counting KeepsOutcomes (fits measurement) _ _ (λ h. c)
        (λ h.
          >>=-Ends counting Carries KeepsOutcomes
            (with_budget_metadata rendering
              (with_results rendering (map summary_entry compact_results) rendered.payload)
              (tokens_only max_tokens) true (codes "token_budget"))
            _
            (with_budget_metadata-Carries _ true (codes "token_budget") (record {
              told = AllTell-summary payload.results compact_results told;
              counts = c.counts;
              whole = λ e. cc;
            }))
            (λ r k. k))

  compact_or_summarize-KeepsOutcomes :
      (r : Response (BatchPayload Entry) × BudgetMeasurement)
      → Carries r
      → Ends counting KeepsOutcomes (compact_or_summarize rendering (tokens_only max_tokens) r)
  unfolding compact_or_summarize
  compact_or_summarize-KeepsOutcomes (rendered, measurement) c =
      let compact_results = map compact_entry rendered.payload.results in
      let told = AllTell-compact payload.results rendered.payload.results c.told in
      if-Ends counting KeepsOutcomes (fits measurement) _ _ (λ h. c)
        (λ h.
          >>=-Ends counting Carries KeepsOutcomes
            (with_budget_metadata rendering
              (with_results rendering compact_results rendered.payload) (tokens_only max_tokens)
              true (codes "token_budget"))
            (summarize rendering (tokens_only max_tokens) compact_results)
            (with_budget_metadata-Carries _ true (codes "token_budget")
              (record { told = told; counts = c.counts; whole = λ e. cc }))
            (λ r k. summarize-KeepsOutcomes compact_results r told k))

  respond-KeepsOutcomes :
      (r : List Indexed × Bool)
      → FittedAll payload.results r
      → Ends counting KeepsOutcomes (respond rendering payload (tokens_only max_tokens) r)
  unfolding respond
  respond-KeepsOutcomes (items, any_truncated) f =
      let reason = if any_truncated then codes "token_budget" else codes "end_of_results" in
      >>=-Ends counting Carries KeepsOutcomes
        (with_budget_metadata rendering (payload_of rendering payload items)
          (tokens_only max_tokens) any_truncated reason)
        (compact_or_summarize rendering (tokens_only max_tokens))
        (with_budget_metadata-Carries (payload_of rendering payload items) any_truncated reason
          (record { told = f.told; counts = refl; whole = f.whole }))
        compact_or_summarize-KeepsOutcomes

  shared :
      (needs : Dict ℕ) (limit : ℕ)
      → Ends counting (λ d. Unit {0}) (shares_or (allocate_stream_token_budgets needs limit))
  shared needs limit =
      let b = allocate_stream_token_budgets-Bounded needs limit in rw (b.returned) tt

  -- Where the encoding counts no tokens for an empty text, a batch has a response, or the encoding
  -- refuses a text. The response has an entry for every result in its order, which tells its index,
  -- whether its command succeeded, its exit code and whether it timed out, however small the budget
  -- is; the counts of the batch are unchanged; where it is called complete, both texts of every
  -- result are shown unchanged. It is within the budget, or it says that it is cut and which limits
  -- the response that claims more exceeds.
  pub fit_command_batch_to_budget-KeepsOutcomes :
      counting.encoded_length [] ≡ some 0
      → Ends counting KeepsOutcomes (fit_command_batch_to_budget rendering payload max_tokens)
  unfolding fit_command_batch_to_budget
  fit_command_batch_to_budget-KeepsOutcomes empty =
      >>=-Ends counting (λ d. Unit {0}) KeepsOutcomes (content_needs counting payload.results []) _
        (content_needs-Ends counting payload.results [])
        (λ needs u.
          >>=-Ends counting (λ d. Unit {0}) KeepsOutcomes
            (shares_or (allocate_stream_token_budgets needs (max_tokens / 2))) _
            (shared needs (max_tokens / 2))
            (λ allocations v.
              >>=-Ends counting (FittedAll payload.results) KeepsOutcomes
                (fit_results counting allocations needs payload.results)
                (respond rendering payload (tokens_only max_tokens))
                (fit_results-FittedAll counting allocations needs payload.results empty)
                respond-KeepsOutcomes))
