-- ===== src/Output/Shares.antt =====
-- `_allocate_stream_token_budgets`: shares of a budget by need.
pub mod Bounds
use chatgpt_web_oauth_mcp.Prelude.{
  ℕ, zero, suc, ◌+◌, ◌-◌, ◌/◌, ◌%◌, Bool, true, false, ◌&&◌, not, Option, none, some, List, [], ◌∷◌,
  Text, text_eq, text_lt, length, ltb, leb, if◌then◌else◌,
}
use chatgpt_web_oauth_mcp.Prelude.Dict.{Dict, get, put}

-- `needs[stream]`, for a stream that is there.
unfoldable pub value_or_zero : Option ℕ → ℕ
value_or_zero none = 0
value_or_zero (some n) = n

unfoldable pub need_of : Dict ℕ → Text → ℕ
unfolding value_or_zero
need_of needs stream = value_or_zero (get stream needs)

-- `{stream: 0 for stream in needs}`
unfoldable pub no_shares : Dict ℕ → Dict ℕ
no_shares [] = []
no_shares ((stream, need) ∷ needs) = (stream, 0) ∷ no_shares needs

-- `{stream for stream, needed in needs.items() if needed > 0}`
unfoldable pub pending_streams : Dict ℕ → List Text
pending_streams [] = []
pending_streams ((stream, need) ∷ needs) =
    let rest = pending_streams needs in if ltb 0 need then stream ∷ rest else rest

unfoldable pub insert_sorted : Text → List Text → List Text
insert_sorted k [] = k ∷ []
insert_sorted k (x ∷ xs) = if text_lt x k then x ∷ insert_sorted k xs else k ∷ x ∷ xs

-- `sorted(pending)`
unfoldable pub sorted : List Text → List Text
unfolding insert_sorted
sorted [] = []
sorted (x ∷ xs) = insert_sorted x (sorted xs)

-- The streams of a test: `{stream for stream in pending if test(stream)}`.
unfoldable pub those : (Text → Bool) → List Text → List Text
those test [] = []
those test (x ∷ xs) = let rest = those test xs in if test x then x ∷ rest else rest

-- The loop over `enumerate(ordered)` from an index on.
unfoldable pub share_out : (share extra index : ℕ) → List Text → Dict ℕ → Dict ℕ
share_out share extra index [] shares = shares
share_out share extra index (stream ∷ ordered) shares =
    share_out share extra (index + 1) ordered
      (put stream (share + (if ltb index extra then 1 else 0)) shares)

-- The loop over the satisfied streams.
unfoldable pub satisfy : Dict ℕ → List Text → Dict ℕ → Dict ℕ
unfolding need_of
satisfy needs [] shares = shares
satisfy needs (stream ∷ streams) shares =
    satisfy needs streams (put stream (need_of needs stream) shares)

unfoldable pub total_need : Dict ℕ → List Text → ℕ
unfolding need_of
total_need needs [] = 0
total_need needs (stream ∷ streams) = need_of needs stream + total_need needs streams

-- The `while` loop; none where its rounds do not suffice.
unfoldable pub water_fill : ℕ → Dict ℕ → List Text → ℕ → Dict ℕ → Option (Dict ℕ)
unfolding sorted those share_out satisfy total_need need_of
water_fill zero needs pending remaining shares = none
water_fill (suc rounds) needs [] remaining shares = some shares
water_fill (suc rounds) needs (p ∷ pending) remaining shares =
    let share = remaining / length (p ∷ pending) in
    let fitting = λ (stream : Text). leb (need_of needs stream) share in
    let ordered = sorted (p ∷ pending) in
    elim (those fitting (p ∷ pending)) [
      | [] ↦ some (share_out share (remaining % length ordered) 0 ordered shares)
      | s ∷ ss ↦
          water_fill rounds needs (those (λ stream. not (fitting stream)) (p ∷ pending))
            (remaining - total_need needs (s ∷ ss)) (satisfy needs (s ∷ ss) shares)
    ]

unfoldable pub allocate_stream_token_budgets : Dict ℕ → ℕ → Option (Dict ℕ)
unfolding water_fill no_shares pending_streams
allocate_stream_token_budgets needs max_tokens =
    let pending = pending_streams needs in
    water_fill (length pending + 1) needs pending max_tokens (no_shares needs)
