-- ===== src/Output/Truncate/Fits.antt =====
-- A truncated text is within its budget, and as much is kept as the search can find.
use chatgpt_web_oauth_mcp.Prelude.{
  ℕ, zero, suc, ◌+◌, ◌-◌, ◌/◌, ◌≤◌, ◌<◌, ◌≡◌, ◌⊎◌, refl, sym, inl, inr, Bool, true, false, some,
  List, [], ◌∷◌, arith, Text, length, ltb, leb, not, append-nil, if◌then◌else◌, ok,
}
use chatgpt_web_oauth_mcp.Budget.{
  Counting, Measuring, BudgetMeasurement, measure, fits, count_tokens,
}
use chatgpt_web_oauth_mcp.Budget.Ends.{
  Ends, >>=-Ends, Ends-returned, if-Ends, IsMeasured, measure-Ends, count_tokens-Ends, TokensAtMost,
  TokensOver, within_or_over,
}
use chatgpt_web_oauth_mcp.Output.Truncate.{
  tokens_only, candidate, first_within, token_omission_marker, is_within, search_kept,
  rendered_or_marker, cut, truncate_text_to_tokens,
}

module _ (counting : Counting) where
  open counting use {encoded_length}

  -- What a test of a text tells.
  pub data Judged (max_tokens : ℕ) (text : Text) : Bool → Type 0 where
    below : TokensAtMost counting max_tokens text → Judged max_tokens text true
    above : TokensOver counting max_tokens text → Judged max_tokens text false

  pub Judged-if :
      {A : Type 0} (P : A → Type 0) (max_tokens : ℕ) (text : Text) (under other : Measuring A)
      → (TokensAtMost counting max_tokens text → Ends counting P under)
      → (TokensOver counting max_tokens text → Ends counting P other)
      → (b : Bool) → Judged max_tokens text b
      → Ends counting P (if b then under else other)
  Judged-if P max_tokens text under other f g _ (below h) = f h
  Judged-if P max_tokens text under other f g _ (above h) = g h

  pub fits-Judged :
      (max_tokens : ℕ) (text : Text) (m : BudgetMeasurement)
      → IsMeasured counting (tokens_only max_tokens) text m
      → Judged max_tokens text (fits m)
  unfolding fits
  fits-Judged max_tokens text m (n, counted, same) = rw (same) (by_test (ltb max_tokens n) refl)
    where
      by_test : (b : Bool) → ltb max_tokens n ≡ b → Judged max_tokens text (not b)
      by_test true e = above (n, counted, ground (arith, e))
      by_test false e = below (n, counted, ground (arith, e))

  is_within-Ends :
      (max_tokens : ℕ) (text : Text)
      → Ends counting (Judged max_tokens text) (is_within counting max_tokens text)
  unfolding is_within
  is_within-Ends max_tokens text =
      >>=-Ends counting (IsMeasured counting (tokens_only max_tokens) text) (Judged max_tokens text)
        (measure counting (tokens_only max_tokens) text) _
        (measure-Ends counting (tokens_only max_tokens) text) (fits-Judged max_tokens text)

  -- The marker is within the budget.
  first_within-Ends :
      (max_tokens : ℕ) (markers : List Text)
      → encoded_length [] ≡ some 0
      → Ends counting (TokensAtMost counting max_tokens) (first_within counting max_tokens markers)
  unfolding first_within
  first_within-Ends max_tokens [] empty = (0, empty, omega arith)
  first_within-Ends max_tokens (marker ∷ markers) empty =
      >>=-Ends counting (λ n. encoded_length marker ≡ some n) (TokensAtMost counting max_tokens)
        (count_tokens counting marker) _ (count_tokens-Ends counting marker)
        (λ n counted.
          if-Ends counting (TokensAtMost counting max_tokens) (leb n max_tokens) _ _
            (λ e. (n, counted, ground (arith, e)))
            (λ e. first_within-Ends max_tokens markers empty))

  token_omission_marker-Ends :
      (max_tokens : ℕ)
      → encoded_length [] ≡ some 0
      → Ends counting (TokensAtMost counting max_tokens) (token_omission_marker counting max_tokens)
  unfolding token_omission_marker
  token_omission_marker-Ends max_tokens empty = first_within-Ends max_tokens (_ ∷ _ ∷ _ ∷ []) empty

  -- Where a search ended: what is kept fits, and a character more does not fit.
  pub record Ended (max_tokens : ℕ) (text marker : Text) (most kept : ℕ) : Type 0 where
    pub bounded : kept ≤ most
    pub fit : TokensAtMost counting max_tokens (candidate text marker kept)
    pub last : (kept ≡ most) ⊎ TokensOver counting max_tokens (candidate text marker (suc kept))

  search_kept-Ended :
      (rounds max_tokens : ℕ) (text marker : Text) (low high most : ℕ)
      → high - low < rounds
      → low ≤ high
      → high ≤ most
      → TokensAtMost counting max_tokens (candidate text marker low)
      → (high ≡ most) ⊎ TokensOver counting max_tokens (candidate text marker (suc high))
      → Ends counting
          (Ended max_tokens text marker most)
          (search_kept counting rounds max_tokens text marker low high)
  unfolding search_kept
  search_kept-Ended zero max_tokens text marker low high most enough order le fit last =
      absurd (omega arith)
  search_kept-Ended (suc rounds) max_tokens text marker low high most enough order le fit last =
      let midpoint = (low + high + 1) / 2 in
      let middle = candidate text marker midpoint in
      let P = Ended max_tokens text marker most in
      if-Ends counting P (ltb low high) _ _
        (λ apart.
          let less : low < high = ground (arith, apart) in
          let back : suc (midpoint - 1) ≡ midpoint = omega arith in
          >>=-Ends counting (Judged max_tokens middle) P (is_within counting max_tokens middle) _
            (is_within-Ends max_tokens middle)
            (Judged-if P max_tokens middle _ _
              (λ below_.
                search_kept-Ended rounds max_tokens text marker midpoint high most (omega arith)
                  (omega arith) le below_ last)
              (λ above_.
                search_kept-Ended rounds max_tokens text marker low (midpoint - 1) most
                  (omega arith) (omega arith) (omega arith) fit (inr (rw back above_)))))
        (λ over.
          let met : high ≡ low = ground (arith, over) in
          record { bounded = omega arith; fit = fit; last = rw met at last })

  -- A text cut in the middle: what is kept leaves out characters, and with one more it does not fit.
  pub record Middle (text : Text) (max_tokens : ℕ) (rendered : Text) : Type 0 where
    pub marker : Text
    pub marked : token_omission_marker counting max_tokens ≡ ok marker
    pub kept : ℕ
    pub fewer : kept < length text
    pub content : rendered ≡ candidate text marker kept
    pub largest :
        (suc kept ≡ length text) ⊎ TokensOver counting max_tokens (candidate text marker (suc kept))

  -- What a truncated text is: all of it, or nothing for a budget of nothing, or cut in the middle.
  pub record Truncated (text : Text) (max_tokens : ℕ) (r : Text × Bool) : Type 0 where
    pub within : TokensAtMost counting max_tokens r.0
    pub whole : r.1 ≡ false → r.0 ≡ text
    pub over : r.1 ≡ true → (max_tokens ≡ 0) ⊎ TokensOver counting max_tokens text
    pub shape : (r.0 ≡ text) ⊎ ((max_tokens ≡ 0) × (r.0 ≡ [])) ⊎ Middle text max_tokens r.0

  rendered_or_marker-Ends :
      (max_tokens : ℕ) (text marker : Text) (low : ℕ)
      → TokensAtMost counting max_tokens (candidate text marker low)
      → Ends counting
          (λ r. r ≡ candidate text marker low)
          (rendered_or_marker counting max_tokens text marker low)
  unfolding rendered_or_marker
  rendered_or_marker-Ends max_tokens text marker low fit =
      >>=-Ends counting (Judged max_tokens shown) (λ r. r ≡ shown)
        (is_within counting max_tokens shown) _ (is_within-Ends max_tokens shown)
        (Judged-if (λ r. r ≡ shown) max_tokens shown _ _ (λ h. refl)
          (λ h. absurd (within_or_over counting max_tokens shown fit h)))
    where
      shown : Text
      shown = candidate text marker low

  cut-Truncated :
      (text : Text) (max_tokens : ℕ)
      → encoded_length [] ≡ some 0
      → 0 < length text
      → TokensOver counting max_tokens text
      → Ends counting (Truncated text max_tokens) (cut counting max_tokens text)
  unfolding cut candidate
  cut-Truncated text max_tokens empty some_text large =
      let most = length text - 1 in
      let marking = token_omission_marker counting max_tokens in
      >>=-Ends counting (λ marker. (marking ≡ ok marker) × TokensAtMost counting max_tokens marker)
        (Truncated text max_tokens) marking _
        (Ends-returned counting (TokensAtMost counting max_tokens) marking
          (token_omission_marker-Ends max_tokens empty))
        (λ marker (marked, small).
          let alone : marker ≡ candidate text marker 0 = sym (append-nil marker) in
          >>=-Ends counting (Ended max_tokens text marker most) (Truncated text max_tokens)
            (search_kept counting (length text) max_tokens text marker 0 most) _
            (search_kept-Ended (length text) max_tokens text marker 0 most most (omega arith)
              (omega arith) (omega arith) (rw (← alone) small) (inl refl))
            (λ low (ended : Ended max_tokens text marker most low).
              >>=-Ends counting (λ r. r ≡ candidate text marker low) (Truncated text max_tokens)
                (rendered_or_marker counting max_tokens text marker low) _
                (rendered_or_marker-Ends max_tokens text marker low ended.fit)
                (λ rendered is. record {
                  within = rw is ended.fit;
                  whole = λ h. cc;
                  over = λ h. inr large;
                  shape = inr (
                      inr (record {
                        marker = marker;
                        marked = marked;
                        kept = low;
                        fewer = omega (arith, ended.bounded);
                        content = is;
                        largest = elim ended.last [ inl k ↦ inl (omega arith) | inr k ↦ inr k ];
                      }));
                })))

pub truncate_text_to_tokens-Truncated :
    (counting : Counting) (text : Text) (max_tokens : ℕ)
    → counting.encoded_length [] ≡ some 0
    → Ends counting
        (Truncated counting text max_tokens)
        (truncate_text_to_tokens counting text max_tokens)
unfolding truncate_text_to_tokens
truncate_text_to_tokens-Truncated counting [] max_tokens empty = record {
  within = (0, empty, omega arith);
  whole = λ h. refl;
  over = λ h. cc;
  shape = inl refl;
}
truncate_text_to_tokens-Truncated counting (c ∷ text) max_tokens empty =
    if-Ends counting (Truncated counting (c ∷ text) max_tokens) (leb max_tokens 0) _ _
      (λ z.
        let nothing : max_tokens ≡ 0 = ground (arith, z) in
        record {
          within = (0, empty, omega arith);
          whole = λ h. cc;
          over = λ h. inl nothing;
          shape = inr (inl (nothing, refl));
        })
      (λ z.
        >>=-Ends counting (Judged counting max_tokens (c ∷ text))
          (Truncated counting (c ∷ text) max_tokens) (is_within counting max_tokens (c ∷ text)) _
          (is_within-Ends counting max_tokens (c ∷ text))
          (Judged-if counting (Truncated counting (c ∷ text) max_tokens) max_tokens (c ∷ text) _ _
            (λ h. record { within = h; whole = λ e. refl; over = λ e. cc; shape = inl refl })
            (cut-Truncated counting (c ∷ text) max_tokens empty (omega arith))))
