-- ===== src/Output/Render/Presents.antt =====
-- What is shown of both streams, and what is told of it.
use chatgpt_web_oauth_mcp.Prelude.{
  ℕ, ◌≤◌, ◌<◌, ◌≡◌, ◌⊎◌, refl, sym, ap, ◌∙◌, inl, inr, Option, none, some, [], arith, Text, leb,
  Option-cases, ok, ◌>>=◌,
}
use chatgpt_web_oauth_mcp.FileSystem.{Codec}
use chatgpt_web_oauth_mcp.Budget.{Counting, BudgetMeasurement, measure, fits}
use chatgpt_web_oauth_mcp.Budget.Ends.{
  Ends, >>=-Ends, IsMeasured, measure-Ends, TokensOver, within_or_over,
}
use chatgpt_web_oauth_mcp.Output.Capture.{Capture, dropped_bytes, total_lines}
use chatgpt_web_oauth_mcp.Output.Truncate.{tokens_only}
use chatgpt_web_oauth_mcp.Output.Truncate.Fits.{Judged-if, fits-Judged}
use chatgpt_web_oauth_mcp.Output.Render.{
  with_metadata, Stream, stdout, stderr, Both, at, together, Shown, measured, share_and_tighten,
  Rendered, single_line_stream, untouched, choose, initial_texts, render_captured_output,
}
use chatgpt_web_oauth_mcp.Output.Render.Fits.{Fits, measured-Ends, share_and_tighten-Ends}

-- A stream whose one line was kept whole.
pub record WholeLine (capture : Capture) : Type 0 where
  pub one_line : total_lines capture ≡ 1
  pub all_kept : dropped_bytes capture ≡ 0

single_line_stream-WholeLine :
    (captures : Both Capture) (stream : Stream)
    → single_line_stream captures ≡ some stream
    → WholeLine (at stream captures)
unfolding single_line_stream
single_line_stream-WholeLine captures stdout h = record {
  one_line = ground arith;
  all_kept = ground arith;
}
single_line_stream-WholeLine captures stderr h = record {
  one_line = ground arith;
  all_kept = ground arith;
}

module _ (counting : Counting) (max_tokens : ℕ) where
  -- What is shown, by the choice that was made.
  pub record Chosen (captures : Both Capture) (initial : Both Text) (r : Shown × Option Stream)
      : Type 0 where
    pub kept : Fits counting max_tokens initial → r.0.rendered ≡ initial
    pub size :
        (Fits counting max_tokens r.0.rendered × (r.1 ≡ none))
        ⊎ ((stream : Stream) × (r.1 ≡ some stream)
            × WholeLine (at stream captures)
            × (r.0.rendered ≡ initial)
            × TokensOver counting max_tokens (together initial))

  choose-Chosen :
      (captures : Both Capture) (initial : Both Text)
      → counting.encoded_length [] ≡ some 0
      → Ends counting (Chosen captures initial) (choose counting max_tokens captures initial)
  unfolding choose
  choose-Chosen captures initial empty =
      let P = Chosen captures initial in
      >>=-Ends counting (IsMeasured counting (tokens_only max_tokens) (together initial)) P
        (measured counting max_tokens initial) _ (measured-Ends counting max_tokens initial)
        (λ combined own.
          Judged-if counting P max_tokens (together initial) _ _
            (λ h. record { kept = λ k. refl; size = inl (h, refl) }) (λ over. by_line over)
            (fits combined) (fits-Judged counting max_tokens (together initial) combined own))
    where
      by_line :
          TokensOver counting max_tokens (together initial)
          → Ends counting (Chosen captures initial) (elim (single_line_stream captures) [
            | some stream ↦ ok (untouched counting max_tokens initial, some stream)
            | none ↦ share_and_tighten counting max_tokens initial >>= (λ s. ok (s, none))
          ])
      by_line over = elim (Option-cases (single_line_stream captures)) [
        | inr (stream, one) ↦ rw one (record {
          kept = λ k. refl;
          size = inr (stream, refl, single_line_stream-WholeLine captures stream one, refl, over);
        })
        | inl several ↦ rw several (
            >>=-Ends counting (λ t. Fits counting max_tokens t.rendered) (Chosen captures initial)
              (share_and_tighten counting max_tokens initial) _
              (share_and_tighten-Ends counting max_tokens initial empty)
              (λ t fit. record {
                kept = λ k. absurd (within_or_over counting max_tokens (together initial) k over);
                size = inl (fit, refl);
              }))
      ]

  -- What the caller receives.
  pub record Presented (captures : Both Capture) (initial : Both Text) (response : Rendered)
      : Type 0 where
    pub kept : Fits counting max_tokens initial → response.texts ≡ initial
    pub counted_out :
        counting.encoded_length response.texts.out ≡ some response.metadata.out.token_count
    pub counted_error :
        counting.encoded_length response.texts.error ≡ some response.metadata.error.token_count
    pub counted :
        counting.encoded_length (together response.texts) ≡ some response.aggregate.token_count
    pub told : response.aggregate.fits_token_budget ≡ leb response.aggregate.token_count max_tokens
    pub size :
        ((response.aggregate.token_count ≤ max_tokens)
          × (response.aggregate.oversized_stream ≡ none))
        ⊎ ((stream : Stream) × (response.aggregate.oversized_stream ≡ some stream)
            × WholeLine (at stream captures)
            × (response.texts ≡ initial)
            × (max_tokens < response.aggregate.token_count))

  abbrev MeasuredAs : Text → BudgetMeasurement → Type 0
  MeasuredAs = IsMeasured counting (tokens_only max_tokens)

  counted_as :
      (text : Text) (m : BudgetMeasurement)
      → MeasuredAs text m
      → counting.encoded_length text ≡ some m.estimated_tokens
  counted_as text m (n, counted, same) =
      counted ∙ ap some (sym (ap (λ (k : BudgetMeasurement). k.estimated_tokens) same))

  told_as :
      (text : Text) (m : BudgetMeasurement)
      → MeasuredAs text m
      → fits m ≡ leb m.estimated_tokens max_tokens
  unfolding fits
  told_as text m (n, counted, same) = rw same (ground arith)

  with_metadata-Presented :
      (encoding_name : Text) (capture_max_bytes : ℕ) (captures : Both Capture) (initial : Both Text)
      (chosen : Shown × Option Stream)
      → Chosen captures initial chosen
      → Ends counting
          (Presented captures initial)
          (with_metadata counting max_tokens encoding_name capture_max_bytes captures chosen)
  unfolding with_metadata
  with_metadata-Presented encoding_name capture_max_bytes captures initial (s, oversized) c =
      let P = Presented captures initial in
      >>=-Ends counting (MeasuredAs s.rendered.out) P
        (measure counting (tokens_only max_tokens) s.rendered.out) _
        (measure-Ends counting (tokens_only max_tokens) s.rendered.out)
        (λ out own_out.
          >>=-Ends counting (MeasuredAs s.rendered.error) P
            (measure counting (tokens_only max_tokens) s.rendered.error) _
            (measure-Ends counting (tokens_only max_tokens) s.rendered.error)
            (λ error own_error.
              >>=-Ends counting (MeasuredAs (together s.rendered)) P
                (measured counting max_tokens s.rendered) _
                (measured-Ends counting max_tokens s.rendered)
                (λ combined own.
                  let count = counted_as (together s.rendered) combined own in
                  record {
                    kept = c.kept;
                    counted_out = counted_as s.rendered.out out own_out;
                    counted_error = counted_as s.rendered.error error own_error;
                    counted = count;
                    told = told_as (together s.rendered) combined own;
                    size = elim c.size [
                      | inl ((n, p, le), alone) ↦
                          let same : n ≡ combined.estimated_tokens = cc in
                          inl (rw (← same) le, alone)
                      | inr (stream, which, line, whole, (n, p, less)) ↦
                          let at_text : counting.encoded_length (together s.rendered) ≡ some n =
                            rw whole p in
                          let same : n ≡ combined.estimated_tokens = cc in
                          inr (stream, which, line, whole, rw (← same) less)
                    ];
                  })))

-- Where the encoding counts no tokens for an empty text, the rendering of the two streams of a
-- command ends, and fails only where the encoding refuses a text. Else the token counts that it tells
-- are those of each text and of both together, and so is what it tells of the budget; both texts are
-- shown unchanged where they fit, and what is shown fits. The one exception is told: a stream of a
-- single line, kept whole, which is shown with the other stream unchanged.
pub render_captured_output-Presented :
    (counting : Counting) (max_tokens : ℕ) (codec : Codec) (encoding_name : Text)
    (captures : Both Capture) (capture_max_bytes : ℕ)
    → counting.encoded_length [] ≡ some 0
    → Ends counting
        (Presented counting max_tokens captures (initial_texts counting max_tokens codec captures))
        (render_captured_output counting max_tokens codec encoding_name captures capture_max_bytes)
unfolding render_captured_output
render_captured_output-Presented counting max_tokens codec encoding_name captures capture_max_bytes
      empty =
    let initial = initial_texts counting max_tokens codec captures in
    >>=-Ends counting (Chosen counting max_tokens captures initial)
      (Presented counting max_tokens captures initial) (choose counting max_tokens captures initial)
      (with_metadata counting max_tokens encoding_name capture_max_bytes captures)
      (choose-Chosen counting max_tokens captures initial empty)
      (with_metadata-Presented counting max_tokens encoding_name capture_max_bytes captures initial)
