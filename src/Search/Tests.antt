-- ===== src/Search/Tests.antt =====
-- A page from the middle of four results.
use chatgpt_web_oauth_mcp.Prelude.{
  false, ℕ, ◌≡◌, refl, none, List, [], ◌∷◌, length, some, ok, err, ◌>>=◌,
}
use chatgpt_web_oauth_mcp.Budget.{Rendering, ResponseBudget, Measuring}
use chatgpt_web_oauth_mcp.Budget.Ends.{Ends}
use chatgpt_web_oauth_mcp.Search.{
  PagePayload, paginate, PageCollector, new_collector, add_items, page_payload,
}
use chatgpt_web_oauth_mcp.Search.Pages.{PageOf, page_payload-IsPage}

abbrev plain_rendering : Rendering (PagePayload ℕ ℕ)
plain_rendering = record {
  render_json_payload = λ r. r.payload.items;
  counting = record { byte_count = λ t. length t; encoded_length = λ t. some (length t) };
}

abbrev ten_tokens : ResponseBudget
ten_tokens = record { max_tokens = 10; max_bytes = none }

abbrev four_results : List ℕ
four_results = 3 ∷ 5 ∷ 7 ∷ 9 ∷ []

page_payload-IsPage_example :
    Ends plain_rendering.counting (PageOf plain_rendering 0 ten_tokens 1 2 four_results) (
      add_items plain_rendering 0 ten_tokens four_results (new_collector 1 2)
      >>= page_payload plain_rendering 0 ten_tokens)
page_payload-IsPage_example = page_payload-IsPage plain_rendering 0 ten_tokens 1 2 four_results

items_of : Measuring (PageCollector ℕ) → List ℕ
items_of (ok page) = page.items
items_of (err e) = []

middle_page :
    items_of (add_items plain_rendering 0 ten_tokens four_results (new_collector 1 2)) ≡ 5 ∷ 7 ∷ []
unfolding add_items new_collector items_of
middle_page = refl

last_page : paginate four_results 2 3 ≡ (7 ∷ 9 ∷ [], false, none)
unfolding paginate
last_page = refl
