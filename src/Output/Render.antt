-- ===== src/Output/Render.antt =====
-- `_render_captured_output`: the two streams of a command in one budget.
pub mod Fits
pub mod Presents
use chatgpt_web_oauth_mcp.Prelude.{
  if◌then◌else◌, ok, err, ◌>>=◌, ℕ, zero, suc, ◌+◌, ◌-◌, max, Bool, true, false, ◌&&◌, ◌||◌, not,
  Option, none, some, List, [], ◌∷◌, ◌++◌, Text, codes, ltb, leb, ◌==◌,
}
use chatgpt_web_oauth_mcp.Prelude.Dict.{Dict, get}
use chatgpt_web_oauth_mcp.FileSystem.{Codec}
use chatgpt_web_oauth_mcp.Budget.{
  Counting, Measuring, out_of_rounds, BudgetMeasurement, fits, measure, count_tokens,
}
use chatgpt_web_oauth_mcp.Output.Capture.{
  Capture, dropped_bytes, retained_bytes, total_lines, retained_lines, count_lines,
}
use chatgpt_web_oauth_mcp.Output.Shares.{need_of, allocate_stream_token_budgets}
use chatgpt_web_oauth_mcp.Output.Truncate.{tokens_only, capture_text, truncate_text_to_tokens}

pub data Stream : Type 0 where
  stdout stderr : Stream

abbrev pub name_of : Stream → Text
name_of stdout = codes "stdout"
name_of stderr = codes "stderr"

-- A dictionary on the two streams.
pub record Both {ℓ} (A : Type ℓ) : Type ℓ where
  pub out : A
  pub error : A

module _ {ℓ} {A : Type ℓ} where
  abbrev pub at : Stream → Both A → A
  at stdout both = both.out
  at stderr both = both.error

  abbrev pub set_at : Stream → A → Both A → Both A
  set_at stdout value both = record both { out = value }
  set_at stderr value both = record both { error = value }

  abbrev pub both_of : (Stream → A) → Both A
  both_of f = record { out = f stdout; error = f stderr }

-- `rendered`, `allocations` and `budget_truncated` of the two streams.
pub record Shown : Type 0 where
  pub rendered : Both Text
  pub allocations : Both ℕ
  pub budget_truncated : Both Bool

-- `rendered["stdout"] + rendered["stderr"]`
abbrev pub together : Both Text → Text
together texts = texts.out ++ texts.error

-- The shares of the streams; the rounds of the model always suffice.
abbrev pub shares_or : Option (Dict ℕ) → Measuring (Dict ℕ)
shares_or none = err out_of_rounds
shares_or (some shares) = ok shares

abbrev pub is_nil : Text → Bool
is_nil [] = true
is_nil (c ∷ text) = false

module _ (counting : Counting) (max_tokens : ℕ) where
  unfoldable pub measured : Both Text → Measuring BudgetMeasurement
  unfolding measure
  measured texts = measure counting (tokens_only max_tokens) (together texts)

  -- `max(captures, key=...)`: the first of the streams with the most tokens.
  unfoldable pub larger : Both Text → Measuring Stream
  unfolding count_tokens
  larger texts = do
    out ← count_tokens counting texts.out
    error ← count_tokens counting texts.error
    ok (if ltb out error then stderr else stdout)

  abbrev pub place : Stream → ℕ → Text → Bool → Shown → Shown
  place stream allocation text truncated s = record {
    rendered = set_at stream text s.rendered;
    allocations = set_at stream allocation s.allocations;
    budget_truncated = set_at stream truncated s.budget_truncated;
  }

  -- The share of a stream after a round.
  abbrev pub tighter : BudgetMeasurement → Shown → Stream → ℕ
  tighter combined_measurement s stream =
      let excess = combined_measurement.estimated_tokens - max_tokens in
      at stream s.allocations - max 1 excess

  -- The loop that measures both streams again, with its `else`.
  unfoldable pub tighten : ℕ → Both Text → Shown → Measuring Shown
  unfolding measured larger truncate_text_to_tokens fits
  tighten zero initial s = do
    stream ← larger s.rendered
    ok (place stream 0 [] (not (is_nil (at stream initial))) s)
  tighten (suc rounds) initial s = measured s.rendered >>= (λ combined_measurement.
      let more = larger s.rendered >>= (λ stream.
        let allocation = tighter combined_measurement s stream in
        truncate_text_to_tokens counting (at stream initial) allocation >>= (λ (r : Text × Bool).
          tighten rounds initial (place stream allocation (r.0) (r.1) s))) in
      if fits combined_measurement then ok s else more)

  -- Both streams by their shares, and the loop of eight rounds.
  unfoldable pub share_and_tighten : Both Text → Measuring Shown
  unfolding allocate_stream_token_budgets tighten truncate_text_to_tokens need_of count_tokens
  share_and_tighten initial = do
    out_need ← count_tokens counting initial.out
    error_need ← count_tokens counting initial.error
    shares ← shares_or (
        allocate_stream_token_budgets
          ((name_of stdout, out_need) ∷ (name_of stderr, error_need) ∷ []) max_tokens)
    out ← truncate_text_to_tokens counting initial.out (need_of shares (name_of stdout))
    error ← truncate_text_to_tokens counting initial.error (need_of shares (name_of stderr))
    tighten 8 initial (record {
      rendered = record { out = out.0; error = error.0 };
      allocations = both_of (λ stream. need_of shares (name_of stream));
      budget_truncated = record { out = out.1; error = error.1 };
    })

-- The metadata of a stream.
pub record StreamMetadata : Type 0 where
  pub total_bytes : ℕ
  pub total_lines_ : ℕ
  pub retained_bytes_ : ℕ
  pub retained_lines_ : ℕ
  pub displayed_bytes : ℕ
  pub displayed_lines : ℕ
  pub capture_dropped_bytes : ℕ
  pub dropped : Bool
  pub truncated : Bool
  pub capture_truncated : Bool
  pub token_truncated : Bool
  pub token_count : ℕ
  pub effective_token_budget : ℕ
  pub fits_token_budget : Bool
  pub omission_marker : Bool
  pub oversized_line : Bool
  pub long_line_truncated : Bool

pub record Aggregate : Type 0 where
  pub total_bytes : ℕ
  pub total_lines_ : ℕ
  pub retained_bytes_ : ℕ
  pub retained_lines_ : ℕ
  pub displayed_bytes : ℕ
  pub displayed_lines : ℕ
  pub capture_dropped_bytes : ℕ
  pub dropped : Bool
  pub truncated : Bool
  pub capture_truncated : Bool
  pub token_truncated : Bool
  pub token_count : ℕ
  pub effective_token_budget : ℕ
  pub fits_token_budget : Bool
  pub displayed_payload_fits : Bool
  pub token_encoding : Text
  pub capture_memory_limit_bytes : ℕ
  pub oversized_line : Bool
  pub oversized_stream : Option Stream

-- The texts of the two streams, and what is told of them.
pub record Rendered : Type 0 where
  pub texts : Both Text
  pub metadata : Both StreamMetadata
  pub aggregate : Aggregate

abbrev is_some : Option Stream → Bool
is_some none = false
is_some (some stream) = true

abbrev pub is_stream : Stream → Option Stream → Bool
is_stream stdout (some stdout) = true
is_stream stderr (some stderr) = true
is_stream _ _ = false

-- The only stream with bytes, if its one line was kept whole.
unfoldable pub single_line_stream : Both Capture → Option Stream
unfolding dropped_bytes total_lines
single_line_stream captures =
    let whole_line = λ (stream : Stream).
      (if (dropped_bytes (at stream captures) == 0) && (total_lines (at stream captures) == 1)
        then some stream
        else none) in
    let out_active = ltb 0 captures.out.total_bytes in
    let error_active = ltb 0 captures.error.total_bytes in
    if out_active && not error_active
    then whole_line stdout
    else if error_active && not out_active
    then whole_line stderr
    else none

module _ (counting : Counting) (max_tokens : ℕ) where
  abbrev pub stream_metadata_of :
      Option Stream → Both Capture → Shown → Both BudgetMeasurement → Stream → StreamMetadata
  stream_metadata_of oversized_stream captures s measurements stream =
      let capture = at stream captures in
      let text = at stream s.rendered in
      let cut = at stream s.budget_truncated in
      let dropped = ltb 0 (dropped_bytes capture) in
      let measurement = at stream measurements in
      record {
        total_bytes = capture.total_bytes;
        total_lines_ = total_lines capture;
        retained_bytes_ = retained_bytes capture;
        retained_lines_ = retained_lines capture;
        displayed_bytes = measurement.rendered_bytes;
        displayed_lines = count_lines text;
        capture_dropped_bytes = dropped_bytes capture;
        dropped = dropped || cut;
        truncated = dropped || cut;
        capture_truncated = dropped;
        token_truncated = cut;
        token_count = measurement.estimated_tokens;
        effective_token_budget = at stream s.allocations;
        fits_token_budget = leb measurement.estimated_tokens (at stream s.allocations);
        omission_marker = dropped || cut;
        oversized_line = is_stream stream oversized_stream;
        long_line_truncated = total_lines capture == 1 && (dropped || cut);
      }

  abbrev pub aggregate_of :
      Text → ℕ → Option Stream → Shown → BudgetMeasurement → Both StreamMetadata → Aggregate
  aggregate_of encoding_name capture_max_bytes oversized_stream s combined streams =
      let cut = streams.out.truncated || streams.error.truncated in
      record {
        total_bytes = streams.out.total_bytes + streams.error.total_bytes;
        total_lines_ = streams.out.total_lines_ + streams.error.total_lines_;
        retained_bytes_ = streams.out.retained_bytes_ + streams.error.retained_bytes_;
        retained_lines_ = streams.out.retained_lines_ + streams.error.retained_lines_;
        displayed_bytes = combined.rendered_bytes;
        displayed_lines = streams.out.displayed_lines + streams.error.displayed_lines;
        capture_dropped_bytes =
            streams.out.capture_dropped_bytes + streams.error.capture_dropped_bytes;
        dropped = cut;
        truncated = cut;
        capture_truncated = streams.out.capture_truncated || streams.error.capture_truncated;
        token_truncated = s.budget_truncated.out || s.budget_truncated.error;
        token_count = combined.estimated_tokens;
        effective_token_budget = max_tokens;
        fits_token_budget = fits combined;
        displayed_payload_fits = fits combined;
        token_encoding = encoding_name;
        capture_memory_limit_bytes = capture_max_bytes;
        oversized_line = is_some oversized_stream;
        oversized_stream = oversized_stream;
      }

  abbrev pub untouched : Both Text → Shown
  untouched initial = record {
    rendered = initial;
    allocations = both_of (λ stream. max_tokens);
    budget_truncated = both_of (λ stream. false);
  }

  -- What is shown, and the stream whose single line is too long.
  unfoldable pub choose : Both Capture → Both Text → Measuring (Shown × Option Stream)
  unfolding share_and_tighten single_line_stream measured fits
  choose captures initial = do
    combined_measurement ← measured counting max_tokens initial
    if fits combined_measurement
        then ok (untouched initial, none)
        else elim (single_line_stream captures) [
          | some stream ↦ ok (untouched initial, some stream)
          | none ↦ share_and_tighten counting max_tokens initial >>= (λ s. ok (s, none))
        ]

  abbrev pub rendered_of :
      Text
      → ℕ
      → Both Capture
      → Shown
      → Option Stream
      → Both BudgetMeasurement
      → BudgetMeasurement
      → Rendered
  rendered_of encoding_name capture_max_bytes captures s oversized measurements combined =
      let streams = both_of (stream_metadata_of oversized captures s measurements) in
      record {
        texts = s.rendered;
        metadata = streams;
        aggregate = aggregate_of encoding_name capture_max_bytes oversized s combined streams;
      }

  -- What is shown is measured again for the metadata.
  unfoldable pub with_metadata :
      Text → ℕ → Both Capture → Shown × Option Stream → Measuring Rendered
  unfolding measured measure dropped_bytes total_lines retained_bytes retained_lines count_lines
      fits
  with_metadata encoding_name capture_max_bytes captures (s, oversized) = do
    out ← measure counting (tokens_only max_tokens) s.rendered.out
    error ← measure counting (tokens_only max_tokens) s.rendered.error
    combined ← measured counting max_tokens s.rendered
    ok (
        rendered_of encoding_name capture_max_bytes captures s oversized
          (record { out = out; error = error }) combined)

  -- The initial text of both streams.
  abbrev pub initial_texts : Codec → Both Capture → Both Text
  initial_texts codec captures =
      both_of (λ stream. capture_text codec (at stream captures) (name_of stream))

  unfoldable pub render_captured_output : Codec → Text → Both Capture → ℕ → Measuring Rendered
  unfolding choose capture_text with_metadata
  render_captured_output codec encoding_name captures capture_max_bytes =
      choose captures (initial_texts codec captures)
      >>= with_metadata encoding_name capture_max_bytes captures
