-- ===== src/Budget/Ends.antt =====
-- How a computation that measures texts ends.
use chatgpt_web_oauth_mcp.Prelude.{
  ltb, not, ◌&&◌, ap, ◌≤◌, ◌<◌, arith, ℕ, ◌≡◌, refl, sym, ◌∙◌, inl, inr, Bool, true, false, none,
  some, Text, ok, err, ◌>>=◌, Option-cases, if◌then◌else◌,
}
use chatgpt_web_oauth_mcp.Budget.{
  Counting, ResponseBudget, BudgetMeasurement, MeasureError, not_encodable, out_of_rounds, fits,
  exceeds_limit, Measuring, count_tokens, measurement_of, measure,
}

-- The only error is that the encoding refuses a text.
abbrev pub Excused : Counting → MeasureError → Type 0
Excused counting (not_encodable text) = counting.encoded_length text ≡ none
Excused counting out_of_rounds = ⊥

-- A value of which P holds, or the error of a text that the encoding refuses.
abbrev pub Ends : {A : Type 0} → Counting → (A → Type 0) → Measuring A → Type 0
Ends counting P (ok a) = P a
Ends counting P (err e) = Excused counting e

module _ {A : Type 0} (counting : Counting) where
  pub >>=-Ends :
      {B : Type 0} (P : A → Type 0) (Q : B → Type 0) (m : Measuring A) (next : A → Measuring B)
      → Ends counting P m
      → ((a : A) → P a → Ends counting Q (next a))
      → Ends counting Q (m >>= next)
  >>=-Ends P Q (ok a) next h f = f a h
  >>=-Ends P Q (err e) next h f = h

  pub Ends-widen :
      (P Q : A → Type 0) (m : Measuring A)
      → Ends counting P m
      → ((a : A) → P a → Q a)
      → Ends counting Q m
  Ends-widen P Q (ok a) h f = f a h
  Ends-widen P Q (err e) h f = h

  -- The value is known to be the one that is returned.
  pub Ends-returned :
      (P : A → Type 0) (m : Measuring A)
      → Ends counting P m
      → Ends counting (λ a. (m ≡ ok a) × P a) m
  Ends-returned P (ok a) h = (refl, h)
  Ends-returned P (err e) h = h

  pub if-Ends :
      (P : A → Type 0) (b : Bool) (m n : Measuring A)
      → (b ≡ true → Ends counting P m)
      → (b ≡ false → Ends counting P n)
      → Ends counting P (if b then m else n)
  if-Ends P true m n h k = h refl
  if-Ends P false m n h k = k refl

-- A text of n tokens.
pub count_tokens-Ends :
    (counting : Counting) (text : Text)
    → Ends counting (λ n. counting.encoded_length text ≡ some n) (count_tokens counting text)
unfolding count_tokens
count_tokens-Ends counting text = elim (Option-cases (counting.encoded_length text)) [
  | inl e ↦ rw (count_tokens, e) e
  | inr (n, e) ↦ rw (count_tokens, e) refl
]

-- The measurement of a text by its tokens and bytes.
abbrev pub IsMeasured : Counting → ResponseBudget → Text → BudgetMeasurement → Type 0
IsMeasured counting budget text m =
    (n : ℕ) × (counting.encoded_length text ≡ some n) × (m ≡ measurement_of counting budget text n)

pub measure-Ends :
    (counting : Counting) (budget : ResponseBudget) (text : Text)
    → Ends counting (IsMeasured counting budget text) (measure counting budget text)
unfolding measure
measure-Ends counting budget text =
    >>=-Ends counting (λ n. counting.encoded_length text ≡ some n) (IsMeasured counting budget text)
      (count_tokens counting text) _ (count_tokens-Ends counting text) (λ n e. (n, e, refl))

-- A text within both limits.
pub record WithinLimits (counting : Counting) (budget : ResponseBudget) (text : Text) : Type 0 where
  pub tokens : ℕ
  pub counted : counting.encoded_length text ≡ some tokens
  pub in_tokens : tokens ≤ budget.max_tokens
  pub in_bytes : exceeds_limit budget.max_bytes (counting.byte_count text) ≡ false

pub fits-WithinLimits :
    (counting : Counting) (budget : ResponseBudget) (text : Text) (m : BudgetMeasurement)
    → IsMeasured counting budget text m
    → fits m ≡ true
    → WithinLimits counting budget text
unfolding fits
fits-WithinLimits counting budget text m (n, counted, same) h =
    let (in_bytes, in_tokens) = split_fit m.exceeds_byte_budget m.exceeds_token_budget h in
    let below : ltb budget.max_tokens n ≡ false =
      sym (ap (λ (k : BudgetMeasurement). k.exceeds_token_budget) same) ∙ in_tokens in
    record {
      tokens = n;
      counted = counted;
      in_tokens = ground (arith, below);
      in_bytes = sym (ap (λ (k : BudgetMeasurement). k.exceeds_byte_budget) same) ∙ in_bytes;
    }
  where
    split_fit : (b t : Bool) → (not b && not t) ≡ true → (b ≡ false) × (t ≡ false)
    split_fit true t h = cc
    split_fit false true h = cc
    split_fit false false h = (refl, refl)

-- A text of at most so many tokens, and one of more.
abbrev pub TokensAtMost : Counting → ℕ → Text → Type 0
TokensAtMost counting max_tokens text =
    (n : ℕ) × (counting.encoded_length text ≡ some n) × (n ≤ max_tokens)

abbrev pub TokensOver : Counting → ℕ → Text → Type 0
TokensOver counting max_tokens text =
    (n : ℕ) × (counting.encoded_length text ≡ some n) × (max_tokens < n)

pub within_or_over :
    (counting : Counting) (max_tokens : ℕ) (text : Text)
    → TokensAtMost counting max_tokens text
    → TokensOver counting max_tokens text
    → ⊥
within_or_over counting max_tokens text (n, p, le) (m, q, less) =
    let same : n ≡ m = cc in omega (arith, le, less, same)
