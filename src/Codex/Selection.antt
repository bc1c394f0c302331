-- ===== src/Codex/Selection.antt =====
-- Bindings that are picked out of others: by a test, from the front, or in another order.
use chatgpt_web_oauth_mcp.Prelude.{
  ℕ, zero, suc, ◌≡◌, ◌⊎◌, sym, inl, inr, Bool, true, false, List, [], ◌∷◌, All, In, arith, Text,
  text_eq_refl, take, Bool-cases,
}
use chatgpt_web_oauth_mcp.Prelude.Dict.{Dict}
use chatgpt_web_oauth_mcp.Codex.{Binding}
use chatgpt_web_oauth_mcp.Codex.Release.{requests_of, has_active}
use chatgpt_web_oauth_mcp.Codex.Capacity.{ids_of, bindings_where, older, insert_by_age, sort_by_age}
use chatgpt_web_oauth_mcp.Codex.Keys.{values_of, Distinct}

-- Some of the bindings, in their order.
pub data Some : List Binding → List Binding → Type 0 where
  stop : Some [] []
  keep : {b : Binding} {xs ys : List Binding} → Some xs ys → Some (b ∷ xs) (b ∷ ys)
  skip : {b : Binding} {xs ys : List Binding} → Some xs ys → Some xs (b ∷ ys)

pub Some-nil : (ys : List Binding) → Some [] ys
Some-nil [] = stop
Some-nil (y ∷ ys) = skip (Some-nil ys)

pub Some-all : (ys : List Binding) → Some ys ys
Some-all [] = stop
Some-all (y ∷ ys) = keep (Some-all ys)

pub Some-In : {xs ys : List Binding} → Some xs ys → (k : Text) → In k (ids_of xs) → In k (ids_of ys)
Some-In stop k h = h
Some-In (keep s) k (inl e) = inl e
Some-In (keep s) k (inr r) = inr (Some-In s k r)
Some-In (skip s) k h = inr (Some-In s k h)

pub Some-Distinct :
    {xs ys : List Binding} → Some xs ys → Distinct (ids_of ys) → Distinct (ids_of xs)
Some-Distinct stop h = h
Some-Distinct (keep {b} s) h = (λ r. h.0 (Some-In s b.runtime_id r), Some-Distinct s h.1)
Some-Distinct (skip s) h = Some-Distinct s h.1

pub Some-All :
    (Good : Binding → Type 0) {xs ys : List Binding} → Some xs ys → All Good ys → All Good xs
Some-All Good stop h = h
Some-All Good (keep s) h = (h.0, Some-All Good s h.1)
Some-All Good (skip s) h = Some-All Good s h.1

pub take-Some : (n : ℕ) (xs : List Binding) → Some (take n xs) xs
take-Some zero xs = Some-nil xs
take-Some (suc n) [] = stop
take-Some (suc n) (x ∷ xs) = keep (take-Some n xs)

pub bindings_where-Some :
    (test : Binding → Bool) (d : Dict Binding) → Some (bindings_where test d) (values_of d)
unfolding bindings_where
bindings_where-Some test [] = stop
bindings_where-Some test ((k, b) ∷ d) = elim (Bool-cases (test b)) [
  | inl y ↦ rw y (keep (bindings_where-Some test d))
  | inr n ↦ rw n (skip (bindings_where-Some test d))
]

pub bindings_where-All :
    (test : Binding → Bool) (d : Dict Binding) → All (λ b. test b ≡ true) (bindings_where test d)
unfolding bindings_where
bindings_where-All test [] = tt
bindings_where-All test ((k, b) ∷ d) = elim (Bool-cases (test b)) [
  | inl y ↦ rw y (y, bindings_where-All test d)
  | inr n ↦ rw n (bindings_where-All test d)
]

-- Sorting keeps what holds of all, the identifiers, and the number.
module _ (Good : Binding → Type 0) where
  insert_by_age-All :
      (b : Binding) (cs : List Binding) → Good b → All Good cs → All Good (insert_by_age b cs)
  unfolding insert_by_age
  insert_by_age-All b [] g h = (g, tt)
  insert_by_age-All b (c ∷ cs) g h = elim (Bool-cases (older c b)) [
    | inl y ↦ rw y (h.0, insert_by_age-All b cs g h.1)
    | inr n ↦ rw n (g, h)
  ]

  pub sort_by_age-All : (bs : List Binding) → All Good bs → All Good (sort_by_age bs)
  unfolding sort_by_age
  sort_by_age-All [] h = tt
  sort_by_age-All (b ∷ bs) h = insert_by_age-All b (sort_by_age bs) h.0 (sort_by_age-All bs h.1)

swapped :
    (k : Text) (b c : Binding) (cs more : List Binding)
    → (In k (ids_of more) → (k ≡ b.runtime_id) ⊎ In k (ids_of cs))
    → In k (c.runtime_id ∷ ids_of more)
    → (k ≡ b.runtime_id) ⊎ In k (ids_of (c ∷ cs))
swapped k b c cs more f (inl e) = inr (inl e)
swapped k b c cs more f (inr r) = elim (f r) [ inl e ↦ inl e | inr q ↦ inr (inr q) ]

insert_by_age-In :
    (k : Text) (b : Binding) (cs : List Binding)
    → In k (ids_of (insert_by_age b cs))
    → (k ≡ b.runtime_id) ⊎ In k (ids_of cs)
unfolding insert_by_age
insert_by_age-In k b [] h = h
insert_by_age-In k b (c ∷ cs) h = elim (Bool-cases (older c b)) [
  | inl y ↦ swapped k b c cs (insert_by_age b cs) (insert_by_age-In k b cs) (rw y at h)
  | inr n ↦ rw n at h
]

pub sort_by_age-In :
    (k : Text) (bs : List Binding) → In k (ids_of (sort_by_age bs)) → In k (ids_of bs)
unfolding sort_by_age
sort_by_age-In k [] h = h
sort_by_age-In k (b ∷ bs) h = elim (insert_by_age-In k b (sort_by_age bs) h) [
  | inl e ↦ inl e
  | inr r ↦ inr (sort_by_age-In k bs r)
]

insert_by_age-Distinct :
    (b : Binding) (cs : List Binding)
    → (In b.runtime_id (ids_of cs) → ⊥)
    → Distinct (ids_of cs)
    → Distinct (ids_of (insert_by_age b cs))
unfolding insert_by_age
insert_by_age-Distinct b [] f h = (f, tt)
insert_by_age-Distinct b (c ∷ cs) f h = elim (Bool-cases (older c b)) [
  | inl y ↦ rw y (
    λ r. elim (insert_by_age-In c.runtime_id b cs r) [ inl e ↦ f (inl (sym e)) | inr q ↦ h.0 q ],
    insert_by_age-Distinct b cs (λ r. f (inr r)) h.1,
  )
  | inr n ↦ rw n (f, h)
]

pub sort_by_age-Distinct :
    (bs : List Binding) → Distinct (ids_of bs) → Distinct (ids_of (sort_by_age bs))
unfolding sort_by_age
sort_by_age-Distinct [] h = tt
sort_by_age-Distinct (b ∷ bs) h =
    insert_by_age-Distinct b (sort_by_age bs) (λ r. h.0 (sort_by_age-In b.runtime_id bs r))
      (sort_by_age-Distinct bs h.1)

module _ (active : Dict ℕ) where
  first-idle :
      (k : Text) (b : Binding) (rest : Dict Binding)
      → has_active b.thread_id active ((k, b) ∷ rest) ≡ false
      → requests_of active b.runtime_id ≡ 0
  unfolding has_active
  first-idle k b rest h = ground (arith, text_eq_refl b.thread_id)

  others-idle :
      (k : Text) (b : Binding) (rest : Dict Binding) (thread : Text)
      → has_active thread active ((k, b) ∷ rest) ≡ false
      → has_active thread active rest ≡ false
  unfolding has_active
  others-idle k b rest thread h = ground arith

-- Of a thread without an unfinished request, no runtime has one.
pub has_active_idle :
    (active : Dict ℕ) (d : Dict Binding)
    → All
        (λ b. has_active b.thread_id active d ≡ false → requests_of active b.runtime_id ≡ 0)
        (values_of d)
has_active_idle active d = go d (λ thread h. h)
  where
    go :
        (rest : Dict Binding)
        → ((thread : Text)
            → has_active thread active d ≡ false
            → has_active thread active rest ≡ false)
        → All
            (λ b. has_active b.thread_id active d ≡ false → requests_of active b.runtime_id ≡ 0)
            (values_of rest)
    go [] inside = tt
    go ((k, b) ∷ rest) inside = (
      λ h. let here = inside b.thread_id h in first-idle active k b rest here,
      go rest (λ thread h. others-idle active k b rest thread (inside thread h)),
    )
