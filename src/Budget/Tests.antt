-- ===== src/Budget/Tests.antt =====
-- Runs of response_budget.py on a response that fits and on one that does not.
use chatgpt_web_oauth_mcp.Prelude.{ℕ, ◌<◌, ◌≡◌, refl, false, none, some, [], ◌∷◌, codes, ok, err}
use chatgpt_web_oauth_mcp.Budget.{
  ℤ, pos, not_encodable, validate_token_budget, resolve_token_budget, ResponseBudget, Rendering,
  with_budget_metadata,
}
use chatgpt_web_oauth_mcp.Budget.Ends.{Ends}
use chatgpt_web_oauth_mcp.Budget.Honest.{
  Says, with_budget_metadata-honest, resolve_token_budget_positive,
}

-- A payload counts its own tokens; the rest of the response takes two.
abbrev plain_rendering : Rendering ℕ
plain_rendering = record {
  render_json_payload = λ r. r.payload ∷ [];
  counting = record { byte_count = λ t. 9; encoded_length = λ t. some 2 };
}

abbrev small : ResponseBudget
small = record { max_tokens = 1; max_bytes = none }

with_budget_metadata-honest_example :
    Ends plain_rendering.counting
      (Says plain_rendering 7 small false (codes "done"))
      (with_budget_metadata plain_rendering 7 small false (codes "done"))
with_budget_metadata-honest_example =
    with_budget_metadata-honest plain_rendering 7 small false (codes "done")

resolve_token_budget_positive_example :
    (0 < 5) × (g : ℕ) × (validate_token_budget (λ (z : ℤ). some z) (pos 9) (codes "g") ≡ ok g)
unfolding resolve_token_budget
resolve_token_budget_positive_example =
    resolve_token_budget_positive (λ z. some z) (pos 9) (some (pos 5)) (codes "g") (codes "t") refl

-- An encoding that refuses every text: the exception passes on.
refused_text_raises :
    with_budget_metadata
      (record plain_rendering {
        counting = record { byte_count = λ t. 9; encoded_length = λ t. none };
      })
      7
      small
      false
      (codes "done")
    ≡ err (not_encodable (7 ∷ []))
unfolding with_budget_metadata
refused_text_raises = refl
