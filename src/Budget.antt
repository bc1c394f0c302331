-- ===== src/Budget.antt =====
-- response_budget.py: the limits on a response in bytes and tokens, and the members of a response
-- that tell how it stands to them.
pub mod Ends
pub mod Honest
mod Tests
use chatgpt_web_oauth_mcp.Prelude.{
  ℕ, zero, suc, Bool, true, false, ◌&&◌, not, Option, none, some, List, [], ◌∷◌, Text, codes, ltb,
  ◌==◌, if◌then◌else◌, Result, ok, err, ◌>>=◌,
}

-- Integers over the native numbers: `negsuc n` is -1 - n.
pub data ℤ : Type 0 where
  pos negsuc : ℕ → ℤ

-- The `ValueError` of a budget, with its name.
pub data BudgetError : Type 0 where
  not_positive : (name : Text) → BudgetError

abbrev Checked : Type 0 → Type 0
Checked = Result BudgetError

positive : Text → Option ℤ → Checked ℕ
positive name (some (pos (suc n))) = ok (suc n)
positive name _ = err (not_positive name)

pub record ResponseBudget : Type 0 where
  pub max_tokens : ℕ
  pub max_bytes : Option ℕ

module _ {Value : Type 0} (int : Value → Option ℤ) where
  -- `int(value)` is none where it raises.
  unfoldable pub validate_token_budget : Value → Text → Checked ℕ
  unfolding positive
  validate_token_budget value name = positive name (int value)

  own_or : ℕ → Option Value → Text → Checked ℕ
  unfolding validate_token_budget
  own_or inherited none name = ok inherited
  own_or inherited (some tool_budget) name = validate_token_budget tool_budget name

  unfoldable pub resolve_token_budget : Value → Option Value → Text → Text → Checked ℕ
  unfolding validate_token_budget own_or
  resolve_token_budget global_budget tool_budget global_name tool_name = do
    validated ← validate_token_budget global_budget global_name
    own_or validated tool_budget tool_name

  byte_limit : Option Value → Checked (Option ℕ)
  unfolding validate_token_budget
  byte_limit none = ok none
  byte_limit (some value) = do n ← validate_token_budget value (codes "max_bytes"); ok (some n)

  -- `ResponseBudget(max_tokens, max_bytes)` with its `__post_init__`.
  unfoldable pub response_budget : Value → Option Value → Checked ResponseBudget
  unfolding byte_limit validate_token_budget
  response_budget tokens bytes = do
    n ← validate_token_budget tokens (codes "max_tokens")
    limit ← byte_limit bytes
    ok (record { max_tokens = n; max_bytes = limit })

pub record BudgetMeasurement : Type 0 where
  pub rendered_bytes : ℕ
  pub estimated_tokens : ℕ
  pub exceeds_byte_budget : Bool
  pub exceeds_token_budget : Bool

unfoldable pub fits : BudgetMeasurement → Bool
fits m = not m.exceeds_byte_budget && not m.exceeds_token_budget

-- The property `stop_reason` of a measurement.
unfoldable pub limit_reason : BudgetMeasurement → Option Text
limit_reason m =
    if m.exceeds_byte_budget && m.exceeds_token_budget
    then some (codes "byte_and_token_budget")
    else if m.exceeds_byte_budget
    then some (codes "byte_budget")
    else if m.exceeds_token_budget
    then some (codes "token_budget")
    else none

abbrev pub exceeds_limit : Option ℕ → ℕ → Bool
exceeds_limit none n = false
exceeds_limit (some limit) n = ltb limit n

-- The members that `with_budget_metadata` writes over the payload, and the rest of the payload.
pub record Response (Payload : Type 0) : Type 0 where
  pub payload : Payload
  pub complete : Bool
  pub partial : Bool
  pub truncated : Bool
  pub stop_reason : Text
  pub estimated_tokens : ℕ
  pub effective_budget : ResponseBudget
  pub budget_exceeded : Option (Bool × Bool)

-- The length of the UTF-8 form of a text, and the token encoding, whose `encode` is of another
-- package: none where it raises a `ValueError`, as it does on a text that has a special token.
pub record Counting : Type 0 where
  pub byte_count : Text → ℕ
  pub encoded_length : Text → Option ℕ

-- What stops a measurement: the `ValueError` of a text, or rounds of a loop of the model that do not
-- suffice.
pub data MeasureError : Type 0 where
  not_encodable : Text → MeasureError
  out_of_rounds : MeasureError

abbrev pub Measuring : Type 0 → Type 0
Measuring = Result MeasureError

abbrev length_or : Text → Option ℕ → Measuring ℕ
length_or text none = err (not_encodable text)
length_or text (some n) = ok n

unfoldable pub count_tokens : Counting → Text → Measuring ℕ
count_tokens counting text = length_or text (counting.encoded_length text)

abbrev pub measurement_of : Counting → ResponseBudget → Text → ℕ → BudgetMeasurement
measurement_of counting budget text estimated_tokens = record {
  rendered_bytes = counting.byte_count text;
  estimated_tokens = estimated_tokens;
  exceeds_byte_budget = exceeds_limit budget.max_bytes (counting.byte_count text);
  exceeds_token_budget = ltb budget.max_tokens estimated_tokens;
}

unfoldable pub measure : Counting → ResponseBudget → Text → Measuring BudgetMeasurement
unfolding count_tokens
measure counting budget text = do
  estimated_tokens ← count_tokens counting text
  ok (measurement_of counting budget text estimated_tokens)

-- `json.dumps` with the counts.
pub record Rendering (Payload : Type 0) : Type 0 where
  pub render_json_payload : Response Payload → Text
  pub counting : Counting

module _ {Payload : Type 0} (rendering : Rendering Payload) where
  open rendering use {render_json_payload, counting}

  -- A response with its measurement.
  abbrev pub Measured : Type 0
  Measured = Response Payload × BudgetMeasurement

  unfoldable pub measure_json_payload :
      Response Payload → ResponseBudget → Measuring BudgetMeasurement
  unfolding measure
  measure_json_payload result budget = measure counting budget (render_json_payload result)

  abbrev pub estimating : ℕ → Response Payload → Response Payload
  estimating n result = record result { estimated_tokens = n }

  -- The first loop: `measurement` is that of `result` at the head of each round.
  unfoldable pub settle :
      ℕ → ResponseBudget → Response Payload → BudgetMeasurement → Measuring Measured
  unfolding measure_json_payload
  settle zero budget result measurement = ok (result, measurement)
  settle (suc rounds) budget result measurement =
      let next = estimating measurement.estimated_tokens result in
      let rest = measure_json_payload next budget >>= settle rounds budget next in
      if result.estimated_tokens == measurement.estimated_tokens
      then ok (result, measurement)
      else rest

  -- The second loop measures first; `measurement` is that of the round before.
  unfoldable pub resettle :
      ℕ → ResponseBudget → Response Payload → BudgetMeasurement → Measuring Measured
  unfolding measure_json_payload
  resettle zero budget result measurement = ok (result, measurement)
  resettle (suc rounds) budget result measurement = do
    again ← measure_json_payload result budget
    let rest = resettle rounds budget (estimating again.estimated_tokens result) again in
        if result.estimated_tokens == again.estimated_tokens then ok (result, again) else rest

  unfoldable pub first_response : Payload → ResponseBudget → Bool → Text → Response Payload
  first_response payload budget truncated stop_reason = record {
    payload = payload;
    complete = not truncated;
    partial = truncated;
    truncated = truncated;
    stop_reason = stop_reason;
    estimated_tokens = 0;
    effective_budget = budget;
    budget_exceeded = none;
  }

  -- The response that says that no response fits.
  unfoldable pub refused_response : Bool → Response Payload → BudgetMeasurement → Response Payload
  refused_response truncated result measurement = record result {
    complete = false;
    partial = true;
    truncated = true;
    stop_reason =
        if truncated then result.stop_reason else codes "response_metadata_exceeds_budget";
    budget_exceeded = some (measurement.exceeds_token_budget, measurement.exceeds_byte_budget);
  }

  unfoldable pub finish : Bool → ResponseBudget → Measured → Measuring Measured
  unfolding resettle refused_response fits
  finish truncated budget (result, measurement) =
      if not (fits measurement)
      then resettle 5 budget (refused_response truncated result measurement) measurement
      else ok (result, measurement)

  unfoldable pub with_budget_metadata : Payload → ResponseBudget → Bool → Text → Measuring Measured
  unfolding settle finish first_response
  with_budget_metadata payload budget truncated stop_reason =
      let result = first_response payload budget truncated stop_reason in
      measure_json_payload result budget >>= settle 5 budget result >>= finish truncated budget
