-- ===== src/Output/Shares/Bounds.antt =====
-- The shares add up to the budget at most, and no stream gets more than it needs.
use chatgpt_web_oauth_mcp.Prelude.{
  ℕ, zero, suc, ◌+◌, ◌-◌, ◌*◌, ◌/◌, ◌%◌, ◌≤◌, ◌<◌, ◌≡◌, ◌⊎◌, refl, sym, ap, ◌∙◌, inl, inr, Bool,
  true, false, not, Option, some, List, [], ◌∷◌, All, arith, Text, text_eq, text_lt, length, ltb,
  leb, if◌then◌else◌, Bool-cases,
}
use native.Mathlib.Nat.{mul-le-mul_right}
use chatgpt_web_oauth_mcp.Prelude.Dict.{Dict, put}
use chatgpt_web_oauth_mcp.Output.Shares.{
  need_of, no_shares, pending_streams, insert_sorted, sorted, those, share_out, satisfy, total_need,
  water_fill, allocate_stream_token_budgets,
}

abbrev pub sum_shares : Dict ℕ → ℕ
sum_shares [] = 0
sum_shares ((stream, n) ∷ shares) = n + sum_shares shares

put-sum_shares : (k : Text) (n : ℕ) (d : Dict ℕ) → sum_shares (put k n d) ≤ sum_shares d + n
unfolding put
put-sum_shares k n [] = omega arith
put-sum_shares k n ((j, m) ∷ d) = elim (Bool-cases (text_eq j k)) [
  | inl y ↦ rw y (omega arith)
  | inr y ↦ rw y (omega (arith, put-sum_shares k n d))
]

module _ (P : Text → ℕ → Type 0) where
  -- Every entry with its key.
  abbrev pub Entries : Dict ℕ → Type 0
  Entries shares = All (λ e. P e.0 e.1) shares

  put-Entries : (k : Text) (n : ℕ) (d : Dict ℕ) → P k n → Entries d → Entries (put k n d)
  unfolding put
  put-Entries k n [] p h = (p, tt)
  put-Entries k n ((j, m) ∷ d) p h = elim (Bool-cases (text_eq j k)) [
    | inl y ↦ rw y (p, h.1)
    | inr y ↦ rw y (h.0, put-Entries k n d p h.1)
  ]

module _ (Good : Text → Type 0) where
  insert_sorted-All :
      (k : Text) (xs : List Text) → Good k → All Good xs → All Good (insert_sorted k xs)
  unfolding insert_sorted
  insert_sorted-All k [] g h = (g, tt)
  insert_sorted-All k (x ∷ xs) g h = elim (Bool-cases (text_lt x k)) [
    | inl y ↦ rw y (h.0, insert_sorted-All k xs g h.1)
    | inr y ↦ rw y (g, h)
  ]

  sorted-All : (xs : List Text) → All Good xs → All Good (sorted xs)
  unfolding sorted
  sorted-All [] h = tt
  sorted-All (x ∷ xs) h = insert_sorted-All x (sorted xs) h.0 (sorted-All xs h.1)

length-insert_sorted : (k : Text) (xs : List Text) → length (insert_sorted k xs) ≡ suc (length xs)
unfolding insert_sorted
length-insert_sorted k [] = refl
length-insert_sorted k (x ∷ xs) = elim (Bool-cases (text_lt x k)) [
  | inl y ↦ rw (y, length-insert_sorted k xs)
  | inr y ↦ rw y
]

length-sorted : (xs : List Text) → length (sorted xs) ≡ length xs
unfolding sorted
length-sorted [] = refl
length-sorted (x ∷ xs) = length-insert_sorted x (sorted xs) ∙ ap suc (length-sorted xs)

-- A test splits a list.
length-those :
    (test : Text → Bool) (xs : List Text)
    → length (those test xs) + length (those (λ x. not (test x)) xs) ≡ length xs
unfolding those
length-those test [] = omega arith
length-those test (x ∷ xs) = elim (Bool-cases (test x)) [
  | inl y ↦ rw y (omega (arith, length-those test xs))
  | inr y ↦ rw y (omega (arith, length-those test xs))
]

those-All : (test : Text → Bool) (xs : List Text) → All (λ x. test x ≡ true) (those test xs)
unfolding those
those-All test [] = tt
those-All test (x ∷ xs) = elim (Bool-cases (test x)) [
  | inl y ↦ rw y (y, those-All test xs)
  | inr y ↦ rw y (those-All test xs)
]

-- Where a test picks nothing it fails on all.
those-none :
    (test : Text → Bool) (xs : List Text) → those test xs ≡ [] → All (λ x. test x ≡ false) xs
unfolding those
those-none test [] h = tt
those-none test (x ∷ xs) h = elim (Bool-cases (test x)) [
  | inl y ↦ cc (rw y at h)
  | inr y ↦ (y, those-none test xs (rw y at h))
]

module _ (needs : Dict ℕ) where
  -- A share that is not more than the need.
  abbrev Needed : Text → ℕ → Type 0
  Needed stream n = n ≤ need_of needs stream

  total_need-bound :
      (share : ℕ) (xs : List Text)
      → All (λ x. leb (need_of needs x) share ≡ true) xs
      → total_need needs xs ≤ length xs * share
  unfolding total_need
  total_need-bound share [] h = omega arith
  total_need-bound share (x ∷ xs) h =
      let rest = total_need-bound share xs h.1 in
      let first : need_of needs x ≤ share = ground (arith, h.0) in omega arith

  satisfy-sum :
      (xs : List Text) (shares : Dict ℕ)
      → sum_shares (satisfy needs xs shares) ≤ sum_shares shares + total_need needs xs
  unfolding satisfy total_need
  satisfy-sum [] shares = omega arith
  satisfy-sum (x ∷ xs) shares = omega (
    arith,
    satisfy-sum xs (put x (need_of needs x) shares),
    put-sum_shares x (need_of needs x) shares,
  )

  satisfy-Entries :
      (xs : List Text) (shares : Dict ℕ)
      → Entries Needed shares
      → Entries Needed (satisfy needs xs shares)
  unfolding satisfy
  satisfy-Entries [] shares h = h
  satisfy-Entries (x ∷ xs) shares h =
      satisfy-Entries xs (put x (need_of needs x) shares)
        (put-Entries Needed x (need_of needs x) shares (omega arith) h)

  share_out-Entries :
      (share extra index : ℕ) (xs : List Text) (shares : Dict ℕ)
      → All (λ x. leb (need_of needs x) share ≡ false) xs
      → Entries Needed shares
      → Entries Needed (share_out share extra index xs shares)
  unfolding share_out
  share_out-Entries share extra index [] shares h e = e
  share_out-Entries share extra index (x ∷ xs) shares h e =
      let more : share < need_of needs x = ground (arith, h.0) in
      let n = share + (if ltb index extra then 1 else 0) in
      let fit : n ≤ need_of needs x = ground arith in
      share_out-Entries share extra (index + 1) xs (put x n shares) h.1
        (put-Entries Needed x n shares fit e)

share_out-sum :
    (share extra index : ℕ) (xs : List Text) (shares : Dict ℕ)
    → sum_shares (share_out share extra index xs shares)
      ≤ sum_shares shares + length xs * share + (extra - index)
unfolding share_out
share_out-sum share extra index [] shares = omega arith
share_out-sum share extra index (x ∷ xs) shares =
    let n = share + (if ltb index extra then 1 else 0) in
    let rest = share_out-sum share extra (index + 1) xs (put x n shares) in
    let here = put-sum_shares x n shares in
    let small : n + (extra - (index + 1)) ≤ share + (extra - index) = ground arith in omega arith

-- What an allocation keeps to, on top of what had been given out.
pub record Bounded (needs : Dict ℕ) (most : ℕ) (outcome : Option (Dict ℕ)) : Type 0 where
  pub shares : Dict ℕ
  pub returned : outcome ≡ some shares
  pub sum : sum_shares shares ≤ most
  pub needed : Entries (λ stream n. n ≤ need_of needs stream) shares

Bounded-le :
    (needs : Dict ℕ) {m n : ℕ} {outcome : Option (Dict ℕ)}
    → m ≤ n
    → Bounded needs m outcome
    → Bounded needs n outcome
Bounded-le needs {m} {n} h b = record {
  shares = b.shares;
  returned = b.returned;
  sum = omega (arith, h, b.sum);
  needed = b.needed;
}

List-cases : (xs : List Text) → (xs ≡ []) ⊎ ((y : Text) × (ys : List Text) × (xs ≡ y ∷ ys))
List-cases [] = inl refl
List-cases (y ∷ ys) = inr (y, ys, refl)

water_fill-Bounded :
    (rounds : ℕ) (needs : Dict ℕ) (pending : List Text) (remaining : ℕ) (shares : Dict ℕ)
    → length pending < rounds
    → Entries (λ stream n. n ≤ need_of needs stream) shares
    → Bounded needs
        (sum_shares shares + remaining)
        (water_fill rounds needs pending remaining shares)
unfolding water_fill
water_fill-Bounded zero needs pending remaining shares h e = absurd (omega arith)
water_fill-Bounded (suc rounds) needs [] remaining shares h e = record {
  shares = shares;
  returned = refl;
  sum = omega arith;
  needed = e;
}
water_fill-Bounded (suc rounds) needs (p ∷ pending) remaining shares h e =
    let n = length (p ∷ pending) in
    let share = remaining / n in
    let fitting = λ (stream : Text). leb (need_of needs stream) share in
    let ordered = sorted (p ∷ pending) in
    let same : length ordered ≡ n = length-sorted (p ∷ pending) in
    let parts : n * share + remaining % n ≡ remaining = omega arith in
    let chosen = those fitting (p ∷ pending) in
    let split = length-those fitting (p ∷ pending) in
    elim (List-cases chosen) [
      | inl none_fits ↦
          let extra = remaining % length ordered in
          let out = share_out share extra 0 ordered shares in
          let extra_is : extra ≡ remaining % n = ap (λ k. remaining % k) same in
          let bound = share_out-sum share extra 0 ordered shares in
          let product : length ordered * share ≡ n * share = ap (λ k. k * share) same in
          rw (water_fill, none_fits)
            (record {
              shares = out;
              returned = refl;
              sum = omega arith;
              needed =
                  share_out-Entries needs share extra 0 ordered shares
                    (sorted-All (λ x. fitting x ≡ false) (p ∷ pending)
                      (those-none fitting (p ∷ pending) none_fits))
                    e;
            })
      | inr (s, ss, some_fit) ↦
          let left = those (λ stream. not (fitting stream)) (p ∷ pending) in
          let given = satisfy needs (s ∷ ss) shares in
          let total = total_need needs (s ∷ ss) in
          let count : length (s ∷ ss) + length left ≡ n =
            ap (λ xs. length xs + length left) (sym some_fit) ∙ split in
          let bound : total ≤ length (s ∷ ss) * share =
            total_need-bound needs share (s ∷ ss)
              (rw some_fit at (those-All fitting (p ∷ pending))) in
          let product : length (s ∷ ss) * share ≤ n * share =
            mul-le-mul_right share (omega arith) in
          let sum = satisfy-sum needs (s ∷ ss) shares in
          rw (water_fill, some_fit)
            (Bounded-le needs (omega arith) (
              water_fill-Bounded rounds needs left (remaining - total) given (omega arith)
                (satisfy-Entries needs (s ∷ ss) shares e)))
    ]

no_shares-Entries :
    (needs all : Dict ℕ) → Entries (λ stream n. n ≤ need_of all stream) (no_shares needs)
unfolding no_shares
no_shares-Entries [] all = tt
no_shares-Entries ((stream, need) ∷ needs) all = (omega arith, no_shares-Entries needs all)

no_shares-sum : (needs : Dict ℕ) → sum_shares (no_shares needs) ≡ 0
unfolding no_shares
no_shares-sum [] = refl
no_shares-sum ((stream, need) ∷ needs) = omega (arith, no_shares-sum needs)

-- The allocation ends, whatever the needs and the budget: its shares add up to the budget at most,
-- and no stream has a share larger than its need.
pub allocate_stream_token_budgets-Bounded :
    (needs : Dict ℕ) (max_tokens : ℕ)
    → Bounded needs max_tokens (allocate_stream_token_budgets needs max_tokens)
unfolding allocate_stream_token_budgets
allocate_stream_token_budgets-Bounded needs max_tokens =
    let pending = pending_streams needs in
    Bounded-le needs (omega (arith, no_shares-sum needs)) (
      water_fill-Bounded (length pending + 1) needs pending max_tokens (no_shares needs)
        (omega arith) (no_shares-Entries needs needs))
