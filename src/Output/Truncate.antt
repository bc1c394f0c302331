-- ===== src/Output/Truncate.antt =====
-- `_capture_text`, `_token_omission_marker` and `_truncate_text_to_tokens`.
pub mod Fits
use chatgpt_web_oauth_mcp.Prelude.{
  ℕ, zero, suc, ◌+◌, ◌-◌, ◌/◌, ◌%◌, max, Bool, true, false, Option, none, some, List, [], ◌∷◌, ◌++◌,
  Text, codes, length, take, ltb, leb, ◌==◌, if◌then◌else◌, ok, err, ◌>>=◌,
}
use chatgpt_web_oauth_mcp.Prelude.Slices.{last_n}
use chatgpt_web_oauth_mcp.FileSystem.{Codec}
use chatgpt_web_oauth_mcp.Budget.{
  Counting, Measuring, out_of_rounds, ResponseBudget, fits, measure, count_tokens,
}
use chatgpt_web_oauth_mcp.Output.Capture.{Capture, dropped_bytes}

-- `ResponseBudget(max_tokens=max_tokens)`
abbrev pub tokens_only : ℕ → ResponseBudget
tokens_only max_tokens = record { max_tokens = max_tokens; max_bytes = none }

-- The decimal digits of a number in front of a text; a round for each digit.
unfoldable digits : ℕ → ℕ → Text → Text
digits zero n s = s
digits (suc rounds) n s =
    let more = digits rounds (n / 10) ((48 + n % 10) ∷ s) in if ltb n 10 then (48 + n) ∷ s else more

-- `str(n)`
unfoldable pub str : ℕ → Text
unfolding digits
str n = digits (n + 1) n []

module _ (codec : Codec) where
  open codec use {decode}

  unfoldable pub capture_text : Capture → Text → Text
  unfolding dropped_bytes str
  capture_text capture stream =
      let marker =
        codes "\n... ["
        ++ (stream
            ++ (codes ": "
                ++ (str (dropped_bytes capture)
                    ++ codes " bytes omitted by capture limit] ...\n"))) in
      if dropped_bytes capture == 0
      then decode (capture.head ++ capture.tail)
      else decode capture.head ++ (marker ++ decode capture.tail)

-- `text[:(kept + 1) // 2] + marker + text[-(kept // 2):]`
unfoldable pub candidate : Text → Text → ℕ → Text
candidate text marker kept_characters =
    let tail_characters = kept_characters / 2 in
    take ((kept_characters + 1) / 2) text
    ++ (marker ++ (if tail_characters == 0 then [] else last_n tail_characters text))

module _ (counting : Counting) where
  first_within : ℕ → List Text → Measuring Text
  first_within max_tokens [] = ok []
  first_within max_tokens (marker ∷ markers) = do
    n ← count_tokens counting marker
    let rest = first_within max_tokens markers in if leb n max_tokens then ok marker else rest

  unfoldable pub token_omission_marker : ℕ → Measuring Text
  unfolding first_within
  token_omission_marker max_tokens = first_within max_tokens (
      codes "\n... [output omitted to fit run token budget] ...\n"
      ∷ codes "\n...\n"
      ∷ codes "…"
      ∷ [])

  -- `budget.measure(text).fits`
  unfoldable pub is_within : ℕ → Text → Measuring Bool
  unfolding fits measure
  is_within max_tokens text = do
    measurement ← measure counting (tokens_only max_tokens) text
    ok (fits measurement)

  -- The binary search.
  unfoldable pub search_kept : ℕ → ℕ → Text → Text → ℕ → ℕ → Measuring ℕ
  unfolding is_within candidate
  search_kept zero max_tokens text marker low high = err out_of_rounds
  search_kept (suc rounds) max_tokens text marker low high =
      let midpoint = (low + high + 1) / 2 in
      let above = search_kept rounds max_tokens text marker midpoint high in
      let below = search_kept rounds max_tokens text marker low (midpoint - 1) in
      if ltb low high
      then is_within max_tokens (candidate text marker midpoint)
        >>= (λ within. if within then above else below)
      else ok low

  -- The text of the characters kept, or the marker alone, or nothing.
  unfoldable pub rendered_or_marker : ℕ → Text → Text → ℕ → Measuring Text
  unfolding is_within candidate
  rendered_or_marker max_tokens text marker low = do
    within ← is_within max_tokens (candidate text marker low)
    if within
        then ok (candidate text marker low)
        else is_within max_tokens marker
          >>= (λ marker_fits. ok (if marker_fits then marker else []))

  -- A text over the budget.
  unfoldable pub cut : ℕ → Text → Measuring (Text × Bool)
  unfolding token_omission_marker search_kept rendered_or_marker
  cut max_tokens text = do
    marker ← token_omission_marker max_tokens
    low ← search_kept (length text) max_tokens text marker 0 (length text - 1)
    rendered ← rendered_or_marker max_tokens text marker low
    ok (rendered, true)

  unfoldable pub truncate_text_to_tokens : Text → ℕ → Measuring (Text × Bool)
  unfolding is_within cut
  truncate_text_to_tokens [] max_tokens = ok ([], false)
  truncate_text_to_tokens (c ∷ text) max_tokens =
      if leb max_tokens 0
      then ok ([], true)
      else is_within max_tokens (c ∷ text)
        >>= (λ whole. if whole then ok (c ∷ text, false) else cut max_tokens (c ∷ text))
