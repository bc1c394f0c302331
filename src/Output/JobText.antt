-- ===== src/Output/JobText.antt =====
-- `_render_job_output` and `_job_output_stop_reason`.
pub mod Progress
use chatgpt_web_oauth_mcp.Prelude.{
  ℕ, zero, suc, ◌+◌, ◌-◌, Bool, true, false, ◌&&◌, ◌||◌, not, Option, none, some, List, [], ◌∷◌,
  ◌++◌, Text, codes, length, drop, ltb, leb, ◌==◌, if◌then◌else◌, ok, ◌>>=◌,
}
use chatgpt_web_oauth_mcp.FileSystem.{Bytes, Codec}
use chatgpt_web_oauth_mcp.Budget.{
  Measuring, Counting, ResponseBudget, BudgetMeasurement, fits, measure,
}
use chatgpt_web_oauth_mcp.Output.Units.{DecodedUnit, decode_utf8_units, utf8_expected_length}

-- `rendered` is the list of texts, `"".join` its text.
pub record RenderState : Type 0 where
  pub rendered : List Text
  pub bytes_returned : ℕ
  pub replacement_count : ℕ
  pub measurement : BudgetMeasurement
  pub oversized_unit : Bool
  pub token_truncated : Bool

abbrev pub concat : List Text → Text
concat [] = []
concat (t ∷ ts) = t ++ concat ts

abbrev pub is_nil : List Text → Bool
is_nil [] = true
is_nil (t ∷ ts) = false

pub record RenderedOutput : Type 0 where
  pub content : Text
  pub bytes_returned : ℕ
  pub estimated_tokens : ℕ
  pub replacement_count : ℕ
  pub incomplete_trailing_bytes : ℕ
  pub next_unit_bytes_required : Option ℕ
  pub oversized_unit : Bool
  pub token_truncated : Bool

abbrev unit_bytes : List DecodedUnit → ℕ
unit_bytes [] = 0
unit_bytes (unit ∷ units) = length unit.raw + unit_bytes units

-- One unit more in the response.
unfoldable pub accept : DecodedUnit → BudgetMeasurement → RenderState → RenderState
accept unit candidate_measurement s = record s {
  rendered = s.rendered ++ unit.text ∷ [];
  bytes_returned = s.bytes_returned + length unit.raw;
  replacement_count = s.replacement_count + (if unit.replacement then 1 else 0);
  measurement = candidate_measurement;
}

module _ (counting : Counting) (response_budget : ResponseBudget) where
  -- The loop over the units, with its `break`.
  pub render_units : List DecodedUnit → RenderState → Measuring RenderState
  unfolding accept
  render_units [] s = ok s
  render_units (unit ∷ units) s = do
    candidate_measurement ← measure counting response_budget (concat (s.rendered ++ unit.text ∷ []))
    let more = render_units units (accept unit candidate_measurement s) in
        if fits candidate_measurement
        then more
        else if is_nil s.rendered
        then ok (record (accept unit candidate_measurement s) {
          oversized_unit = true;
          token_truncated = true;
        })
        else ok (record s { token_truncated = true })

  -- `measure("")` before the first unit.
  unfoldable pub no_progress : BudgetMeasurement → RenderState
  no_progress measurement = record {
    rendered = [];
    bytes_returned = 0;
    replacement_count = 0;
    measurement = measurement;
    oversized_unit = false;
    token_truncated = false;
  }

module _ (codec : Codec) (counting : Counting) (response_budget : ResponseBudget) where
  -- `_utf8_expected_length(raw[len(raw) - incomplete_trailing_bytes])`
  abbrev bytes_required : Bytes → Option ℕ
  bytes_required [] = none
  bytes_required (first ∷ rest) = utf8_expected_length first

  abbrev pub output_of : Bytes → List DecodedUnit → ℕ → RenderState → RenderedOutput
  output_of raw units incomplete s = record {
    content = concat s.rendered;
    bytes_returned = s.bytes_returned;
    estimated_tokens = s.measurement.estimated_tokens;
    replacement_count = s.replacement_count;
    incomplete_trailing_bytes = if s.bytes_returned == unit_bytes units then incomplete else 0;
    next_unit_bytes_required =
        if incomplete == 0 then none else bytes_required (drop (length raw - incomplete) raw);
    oversized_unit = s.oversized_unit;
    token_truncated = s.token_truncated;
  }

  unfoldable pub render_job_output : Bool → Bytes → Measuring RenderedOutput
  unfolding render_units no_progress
  render_job_output final raw =
      let (units, incomplete) = decode_utf8_units codec final raw in
      do
        measurement ← measure counting response_budget []
        s ←
            render_units counting response_budget units
              (no_progress counting response_budget measurement)
        ok (output_of raw units incomplete s)

pub data StopReason : Type 0 where
  oversized_unit token_budget byte_budget_before_utf8_unit incomplete_utf8 byte_budget : StopReason
  end_of_stream wait_timeout caught_up_nonterminal : StopReason

unfoldable pub job_output_stop_reason :
    RenderedOutput
    → (raw_bytes requested_max_bytes : ℕ) → (has_more caught_up terminal : Bool)
    → (wait_ms waited_ms : ℕ) → StopReason
job_output_stop_reason rendered raw_bytes requested_max_bytes has_more caught_up terminal wait_ms
      waited_ms =
    if rendered.oversized_unit
    then oversized_unit
    else if rendered.token_truncated
    then token_budget
    else if not (rendered.incomplete_trailing_bytes == 0)
    then (if leb requested_max_bytes raw_bytes
        then byte_budget_before_utf8_unit
        else incomplete_utf8)
    else if has_more
    then byte_budget
    else if terminal && caught_up
    then end_of_stream
    else if ltb 0 wait_ms && leb wait_ms waited_ms
    then wait_timeout
    else caught_up_nonterminal
