-- ===== src/Output/Render/Fits.antt =====
-- Two streams that share a budget are together within it.
use chatgpt_web_oauth_mcp.Prelude.{
  ℕ, zero, suc, ◌≤◌, ◌≡◌, Bool, not, some, [], ◌∷◌, ◌++◌, append-nil, arith, Text, ◌>>=◌,
}
use chatgpt_web_oauth_mcp.Prelude.Dict.{Dict, get}
use chatgpt_web_oauth_mcp.Budget.{Counting, fits, count_tokens}
use chatgpt_web_oauth_mcp.Budget.Ends.{
  Ends, >>=-Ends, IsMeasured, measure-Ends, count_tokens-Ends, TokensAtMost,
}
use chatgpt_web_oauth_mcp.Output.Shares.{need_of, allocate_stream_token_budgets}
use chatgpt_web_oauth_mcp.Output.Shares.Bounds.{sum_shares, allocate_stream_token_budgets-Bounded}
use chatgpt_web_oauth_mcp.Output.Truncate.{tokens_only, truncate_text_to_tokens}
use chatgpt_web_oauth_mcp.Output.Truncate.Fits.{
  Judged-if, fits-Judged, Truncated, truncate_text_to_tokens-Truncated,
}
use chatgpt_web_oauth_mcp.Output.Render.{
  is_nil, Stream, stdout, stderr, name_of, Both, at, set_at, both_of, together, shares_or, Shown,
  measured, larger, place, tighter, tighten, share_and_tighten,
}

-- A share is at most all of them.
get-sum_shares : (k : Text) (d : Dict ℕ) → need_of d k ≤ sum_shares d
unfolding need_of get
get-sum_shares k [] = omega arith
get-sum_shares k ((j, n) ∷ d) = ground (arith, get-sum_shares k d)

by_stream : (P : Stream → Type 0) → P stdout → P stderr → (stream : Stream) → P stream
by_stream P p q stdout = p
by_stream P p q stderr = q

module _ (counting : Counting) (max_tokens : ℕ) where
  abbrev Small : ℕ → Text → Type 0
  Small = TokensAtMost counting

  larger_limit : {n m : ℕ} (text : Text) → Small n text → n ≤ m → Small m text
  larger_limit text (k, counted, below_) le = (k, counted, omega (arith, below_, le))

  abbrev ShownAt : Shown → Stream → Type 0
  ShownAt s stream = Small (at stream s.allocations) (at stream s.rendered)

  abbrev ShareAt : Shown → Stream → Type 0
  ShareAt s stream = at stream s.allocations ≤ max_tokens

  -- Each stream is within its share, and the share within the budget.
  pub record Within (s : Shown) : Type 0 where
    pub shown : (stream : Stream) → ShownAt s stream
    pub shares : (stream : Stream) → ShareAt s stream

  place-Within :
      (stream : Stream) (allocation : ℕ) (text : Text) (truncated : Bool) (s : Shown)
      → Within s
      → Small allocation text
      → allocation ≤ max_tokens
      → Within (place counting max_tokens stream allocation text truncated s)
  place-Within stdout allocation text truncated s w h le =
      let t = place counting max_tokens stdout allocation text truncated s in
      record {
        shown = by_stream (ShownAt t) h (w.shown stderr);
        shares = by_stream (ShareAt t) le (w.shares stderr);
      }
  place-Within stderr allocation text truncated s w h le =
      let t = place counting max_tokens stderr allocation text truncated s in
      record {
        shown = by_stream (ShownAt t) (w.shown stdout) h;
        shares = by_stream (ShareAt t) (w.shares stdout) le;
      }

  abbrev pub Fits : Both Text → Type 0
  Fits texts = TokensAtMost counting max_tokens (together texts)

  -- One stream alone is within the budget.
  emptied-Fits : (stream : Stream) (s : Shown) → Within s → Fits (set_at stream [] s.rendered)
  emptied-Fits stdout s w = larger_limit s.rendered.error (w.shown stderr) (w.shares stderr)
  emptied-Fits stderr s w =
      let alone : s.rendered.out ++ [] ≡ s.rendered.out = append-nil s.rendered.out in
      rw alone (larger_limit s.rendered.out (w.shown stdout) (w.shares stdout))

  pub measured-Ends :
      (texts : Both Text)
      → Ends counting
          (IsMeasured counting (tokens_only max_tokens) (together texts))
          (measured counting max_tokens texts)
  unfolding measured
  measured-Ends texts = measure-Ends counting (tokens_only max_tokens) (together texts)

  larger-Ends :
      (texts : Both Text) → Ends counting (λ s. Unit {0}) (larger counting max_tokens texts)
  unfolding larger
  larger-Ends texts =
      >>=-Ends counting (λ n. counting.encoded_length texts.out ≡ some n) (λ s. Unit {0})
        (count_tokens counting texts.out) _ (count_tokens-Ends counting texts.out)
        (λ out e.
          >>=-Ends counting (λ n. counting.encoded_length texts.error ≡ some n) (λ s. Unit {0})
            (count_tokens counting texts.error) _ (count_tokens-Ends counting texts.error)
            (λ error k. tt))

  tighten-Ends :
      (rounds : ℕ) (initial : Both Text) (s : Shown)
      → counting.encoded_length [] ≡ some 0
      → Within s
      → Ends counting (λ t. Fits t.rendered) (tighten counting max_tokens rounds initial s)
  unfolding tighten
  tighten-Ends zero initial s empty w =
      >>=-Ends counting (λ s. Unit {0}) (λ t. Fits t.rendered)
        (larger counting max_tokens s.rendered) _ (larger-Ends s.rendered)
        (λ stream u. emptied_Fits stream)
    where
      emptied_Fits :
          (stream : Stream)
          → Fits
              (place counting max_tokens stream 0 [] (not (is_nil (at stream initial))) s).rendered
      emptied_Fits stream = emptied-Fits stream s w
  tighten-Ends (suc rounds) initial s empty w =
      let P : Shown → Type 0 = λ t. Fits t.rendered in
      >>=-Ends counting (IsMeasured counting (tokens_only max_tokens) (together s.rendered)) P
        (measured counting max_tokens s.rendered) _ (measured-Ends s.rendered)
        (λ combined own.
          Judged-if counting P max_tokens (together s.rendered) _ _ (λ h. h)
            (λ h.
              >>=-Ends counting (λ s. Unit {0}) P (larger counting max_tokens s.rendered) _
                (larger-Ends s.rendered)
                (λ stream u.
                  let allocation = tighter counting max_tokens combined s stream in
                  >>=-Ends counting (Truncated counting (at stream initial) allocation) P
                    (truncate_text_to_tokens counting (at stream initial) allocation) _
                    (truncate_text_to_tokens-Truncated counting (at stream initial) allocation
                      empty)
                    (λ r (t : Truncated counting (at stream initial) allocation r).
                      tighten-Ends rounds initial
                        (place counting max_tokens stream allocation (r.0) (r.1) s) empty
                        (place-Within stream allocation (r.0) (r.1) s w t.within
                          (omega (arith, w.shares stream))))))
            (fits combined) (fits-Judged counting max_tokens (together s.rendered) combined own))

  shared :
      (needs : Dict ℕ)
      → Ends counting
          (λ shares. (k : Text) → need_of shares k ≤ max_tokens)
          (shares_or (allocate_stream_token_budgets needs max_tokens))
  shared needs =
      let b = allocate_stream_token_budgets-Bounded needs max_tokens in
      rw (b.returned) (λ k. omega (arith, b.sum, get-sum_shares k b.shares))

  pub share_and_tighten-Ends :
      (initial : Both Text)
      → counting.encoded_length [] ≡ some 0
      → Ends counting (λ t. Fits t.rendered) (share_and_tighten counting max_tokens initial)
  unfolding share_and_tighten
  share_and_tighten-Ends initial empty =
      let P : Shown → Type 0 = λ t. Fits t.rendered in
      >>=-Ends counting (λ n. counting.encoded_length initial.out ≡ some n) P
        (count_tokens counting initial.out) _ (count_tokens-Ends counting initial.out)
        (λ out_need e.
          >>=-Ends counting (λ n. counting.encoded_length initial.error ≡ some n) P
            (count_tokens counting initial.error) _ (count_tokens-Ends counting initial.error)
            (λ error_need k.
              let needs = (name_of stdout, out_need) ∷ (name_of stderr, error_need) ∷ [] in
              >>=-Ends counting (λ shares. (k : Text) → need_of shares k ≤ max_tokens) P
                (shares_or (allocate_stream_token_budgets needs max_tokens)) _ (shared needs)
                (λ shares bound. truncated_both shares bound)))
    where
      truncated_both :
          (shares : Dict ℕ)
          → ((k : Text) → need_of shares k ≤ max_tokens)
          → Ends counting
              (λ t. Fits t.rendered)
              (truncate_text_to_tokens counting initial.out (need_of shares (name_of stdout))
                >>= (λ (out : Text × Bool).
                    truncate_text_to_tokens counting initial.error (need_of shares (name_of stderr))
                    >>= (λ (error : Text × Bool). tighten counting max_tokens 8 initial (record {
                      rendered = record { out = out.0; error = error.0 };
                      allocations = both_of (λ stream. need_of shares (name_of stream));
                      budget_truncated = record { out = out.1; error = error.1 };
                    }))))
      truncated_both shares bound =
          let P : Shown → Type 0 = λ t. Fits t.rendered in
          let out_share = need_of shares (name_of stdout) in
          let error_share = need_of shares (name_of stderr) in
          >>=-Ends counting (Truncated counting initial.out out_share) P
            (truncate_text_to_tokens counting initial.out out_share) _
            (truncate_text_to_tokens-Truncated counting initial.out out_share empty)
            (λ out (p : Truncated counting initial.out out_share out).
              >>=-Ends counting (Truncated counting initial.error error_share) P
                (truncate_text_to_tokens counting initial.error error_share) _
                (truncate_text_to_tokens-Truncated counting initial.error error_share empty)
                (λ error (q : Truncated counting initial.error error_share error).
                  let first : Shown = record {
                    rendered = record { out = out.0; error = error.0 };
                    allocations = both_of (λ stream. need_of shares (name_of stream));
                    budget_truncated = record { out = out.1; error = error.1 };
                  } in
                  tighten-Ends 8 initial first empty (record {
                    shown = by_stream (ShownAt first) p.within q.within;
                    shares =
                        by_stream (ShareAt first) (bound (name_of stdout)) (bound (name_of stderr));
                  })))
