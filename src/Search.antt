-- ===== src/Search.antt =====
-- search.py: the pages of results.
pub mod Pages
mod Tests
use chatgpt_web_oauth_mcp.Prelude.{
  ℕ, suc, ◌+◌, Bool, true, false, ◌&&◌, not, Option, none, some, List, [], ◌∷◌, ◌++◌, Text, codes,
  length, take, drop, ltb, leb, ◌==◌, if◌then◌else◌, ok, ◌>>=◌,
}
use chatgpt_web_oauth_mcp.FileSystem.{Bytes}
use chatgpt_web_oauth_mcp.Budget.{
  Measuring, ResponseBudget, BudgetMeasurement, fits, limit_reason, Response, Rendering,
  with_budget_metadata,
}

-- `_paginate`, for an offset and a limit that are not negative.
abbrev pub next_from : Bool → ℕ → Option ℕ
next_from true n = some n
next_from false n = none

unfoldable pub paginate {ℓ} : {A : Type ℓ} → List A → ℕ → ℕ → List A × Bool × Option ℕ
paginate items start limit =
    let selected = if limit == 0 then drop start items else take limit (drop start items) in
    let truncated = ltb (start + length selected) (length items) in
    (selected, truncated, next_from truncated (start + length selected))

-- The payload of a page: what is common to all pages, the items, and where the next one starts.
pub record PagePayload (Base Item : Type 0) : Type 0 where
  pub base : Base
  pub items : List Item
  pub next_offset : Option ℕ

-- `_PageCollector`
pub record PageCollector (Item : Type 0) : Type 0 where
  pub offset : ℕ
  pub limit : ℕ
  pub seen : ℕ
  pub items : List Item
  pub truncated : Bool
  pub stop_reason : Text
  pub should_stop : Bool

unfoldable pub new_collector : {Item : Type 0} → ℕ → ℕ → PageCollector Item
new_collector offset limit = record {
  offset = offset;
  limit = limit;
  seen = 0;
  items = [];
  truncated = false;
  stop_reason = codes "end_of_results";
  should_stop = false;
}

abbrev pub reason_or : Option Text → Text
reason_or none = codes "token_budget"
reason_or (some reason) = reason

-- `force_stop`, which `add` does as well where the page is full.
abbrev pub force_stop : {Item : Type 0} → Text → PageCollector Item → PageCollector Item
force_stop reason s = record s { truncated = true; stop_reason = reason; should_stop = true }

module _ {Base Item : Type 0} (rendering : Rendering (PagePayload Base Item)) (base : Base)
    (budget : ResponseBudget) where
  -- The measurement of the page with an item more.
  unfoldable pub candidate_measurement : Item → PageCollector Item → Measuring BudgetMeasurement
  unfolding with_budget_metadata
  candidate_measurement item s =
      let candidate_items = s.items ++ item ∷ [] in
      do
        candidate ←
            with_budget_metadata rendering
              (record {
                base = base;
                items = candidate_items;
                next_offset = some (s.offset + length candidate_items);
              })
              budget true (codes "token_budget")
        ok (candidate.1)

  -- The end of `add`, where the page has room for one more item.
  unfoldable pub add_measured : Item → PageCollector Item → BudgetMeasurement → PageCollector Item
  unfolding fits limit_reason
  add_measured item s measurement =
      let counted = record s { seen = s.seen + 1 } in
      if not (fits measurement)
      then force_stop (reason_or (limit_reason measurement)) counted
      else record counted { items = s.items ++ item ∷ [] }

  -- `add`, where the collector goes on.
  unfoldable pub add_open : Item → PageCollector Item → Measuring (PageCollector Item)
  unfolding candidate_measurement add_measured
  add_open item s =
      let counted = record s { seen = s.seen + 1 } in
      if ltb s.seen s.offset
      then ok counted
      else if ltb 0 s.limit && leb s.limit (length s.items)
      then ok (force_stop (codes "limit") counted)
      else candidate_measurement item s >>= (λ measurement. ok (add_measured item s measurement))

  unfoldable pub add_item : Item → PageCollector Item → Measuring (PageCollector Item)
  unfolding add_open
  add_item item s = if s.should_stop then ok s else add_open item s

  -- The results in their order.
  unfoldable pub add_items : List Item → PageCollector Item → Measuring (PageCollector Item)
  unfolding add_item
  add_items [] s = ok s
  add_items (item ∷ items) s = add_item item s >>= (λ t. add_items items t)

  unfoldable pub page_payload : PageCollector Item → Measuring (Response (PagePayload Base Item))
  unfolding with_budget_metadata
  page_payload s = do
    page ←
        with_budget_metadata rendering
          (record {
            base = base;
            items = s.items;
            next_offset = next_from s.truncated (s.offset + length s.items);
          })
          budget s.truncated s.stop_reason
    ok (page.0)
