-- ===== src/Codex/Keys.antt =====
-- The keys of the bindings: one entry for each, under the identifier of its runtime.
use chatgpt_web_oauth_mcp.Prelude.{
  suc, ◌+◌, ◌≤◌, ◌≡◌, ◌≢◌, ◌⊎◌, refl, sym, ap, ◌∙◌, inl, inr, true, List, [], ◌∷◌, All, In, arith,
  Text, text_eq, text_eq_iff, length, Bool-cases,
}
use chatgpt_web_oauth_mcp.Prelude.Dict.{Dict, remove}
use chatgpt_web_oauth_mcp.Codex.{Binding}
use chatgpt_web_oauth_mcp.Codex.Release.{detach_thread}
use chatgpt_web_oauth_mcp.Codex.Capacity.{without_ids, ids_of, without_ids}

abbrev pub keys_of : Dict Binding → List Text
keys_of [] = []
keys_of ((key, binding) ∷ bindings) = key ∷ keys_of bindings

abbrev pub values_of : Dict Binding → List Binding
values_of [] = []
values_of ((key, binding) ∷ bindings) = binding ∷ values_of bindings

abbrev pub Distinct : List Text → Type 0
Distinct [] = Unit
Distinct (k ∷ ks) = (In k ks → ⊥) × Distinct ks

-- Every entry stands under the identifier of its binding, and no identifier twice.
pub record Keyed (bindings : Dict Binding) : Type 0 where
  pub own : ids_of (values_of bindings) ≡ keys_of bindings
  pub distinct : Distinct (keys_of bindings)

pub length-keys_of : (d : Dict Binding) → length (keys_of d) ≡ length d
length-keys_of [] = refl
length-keys_of (e ∷ d) = ap suc (length-keys_of d)

In-or :
    {A B : Type 0} {k j : Text} (ks : List Text)
    → (k ≡ j → A)
    → (In k ks → B)
    → In k (j ∷ ks)
    → A ⊎ B
In-or ks f g (inl e) = inl (f e)
In-or ks f g (inr r) = inr (g r)

remove-In : (k j : Text) (d : Dict Binding) → In j (keys_of (remove k d)) → In j (keys_of d)
unfolding remove
remove-In k j [] h = h
remove-In k j ((i, b) ∷ d) h = elim (Bool-cases (text_eq i k)) [
  | inl y ↦ inr (remove-In k j d (rw y at h))
  | inr n ↦ In-or (keys_of (remove k d)) (λ e. e) (remove-In k j d) (rw n at h)
]

In-remove : (k j : Text) (d : Dict Binding) → j ≢ k → In j (keys_of d) → In j (keys_of (remove k d))
unfolding remove
In-remove k j [] differ h = h
In-remove k j ((i, b) ∷ d) differ (inl here) = elim (Bool-cases (text_eq i k)) [
  | inl y ↦ absurd (differ (here ∙ (text_eq_iff i k).0 y))
  | inr n ↦ rw n (inl here)
]
In-remove k j ((i, b) ∷ d) differ (inr later) = elim (Bool-cases (text_eq i k)) [
  | inl y ↦ rw y (In-remove k j d differ later)
  | inr n ↦ rw n (inr (In-remove k j d differ later))
]

remove-Distinct :
    (k : Text) (d : Dict Binding) → Distinct (keys_of d) → Distinct (keys_of (remove k d))
unfolding remove
remove-Distinct k [] h = h
remove-Distinct k ((i, b) ∷ d) h = elim (Bool-cases (text_eq i k)) [
  | inl y ↦ rw y (remove-Distinct k d h.1)
  | inr n ↦ rw n (λ r. h.0 (remove-In k i d r), remove-Distinct k d h.1)
]

pub tail-eq : {x y : Text} {xs ys : List Text} → x ∷ xs ≡ y ∷ ys → (x ≡ y) × (xs ≡ ys)
tail-eq h = (cc, cc)

remove-own :
    (k : Text) (d : Dict Binding)
    → ids_of (values_of d) ≡ keys_of d
    → ids_of (values_of (remove k d)) ≡ keys_of (remove k d)
unfolding remove
remove-own k [] h = refl
remove-own k ((i, b) ∷ d) h =
    let (first, rest) = tail-eq h in
    elim (Bool-cases (text_eq i k)) [
      | inl y ↦ rw y (remove-own k d rest)
      | inr n ↦
          rw n
            (ap (λ x. x ∷ ids_of (values_of (remove k d))) first ∙ ap (◌∷◌ i) (remove-own k d rest))
    ]

remove_absent :
    (k : Text) (d : Dict Binding) → (In k (keys_of d) → ⊥) → length (remove k d) ≡ length d
unfolding remove
remove_absent k [] h = refl
remove_absent k ((i, b) ∷ d) h = elim (Bool-cases (text_eq i k)) [
  | inl y ↦ absurd (h (inl (sym ((text_eq_iff i k).0 y))))
  | inr n ↦ rw n (ap suc (remove_absent k d (λ r. h (inr r))))
]

length-remove :
    (k : Text) (d : Dict Binding)
    → Distinct (keys_of d)
    → In k (keys_of d)
    → suc (length (remove k d)) ≡ length d
unfolding remove
length-remove k [] h i = absurd i
length-remove k ((i, b) ∷ d) h (inl here) =
    let y : text_eq i k ≡ true = (text_eq_iff i k).1 (sym here) in
    rw y (ap suc (remove_absent k d (λ r. h.0 (rw here at r))))
length-remove k ((i, b) ∷ d) h (inr later) = elim (Bool-cases (text_eq i k)) [
  | inl y ↦ absurd (h.0 (rw (sym ((text_eq_iff i k).0 y)) at later))
  | inr n ↦ rw n (ap suc (length-remove k d h.1 later))
]

-- What taking out some keys leaves.
pub record TakenOut (ids : List Text) (d : Dict Binding) : Type 0 where
  pub keyed : Keyed (without_ids ids d)
  pub count :
      Distinct ids
      → All (λ k. In k (keys_of d)) ids
      → length (without_ids ids d) + length ids ≡ length d
  pub fewer : length (without_ids ids d) ≤ length d
  pub stays : (j : Text) → (In j ids → ⊥) → In j (keys_of d) → In j (keys_of (without_ids ids d))

length-remove_le : (k : Text) (d : Dict Binding) → length (remove k d) ≤ length d
unfolding remove
length-remove_le k [] = omega arith
length-remove_le k ((i, b) ∷ d) = elim (Bool-cases (text_eq i k)) [
  | inl y ↦ rw y (omega (arith, length-remove_le k d))
  | inr n ↦ rw n (omega (arith, length-remove_le k d))
]

All-remove :
    (k : Text) (ids : List Text) (d : Dict Binding)
    → (In k ids → ⊥)
    → All (λ j. In j (keys_of d)) ids
    → All (λ j. In j (keys_of (remove k d))) ids
All-remove k [] d differ h = tt
All-remove k (j ∷ ids) d differ (here, rest) = (
  In-remove k j d (λ e. differ (inl (sym e))) here,
  All-remove k ids d (λ r. differ (inr r)) rest,
)

pub without_ids-TakenOut : (ids : List Text) (d : Dict Binding) → Keyed d → TakenOut ids d
unfolding without_ids
without_ids-TakenOut [] d keyed = record {
  keyed = keyed;
  count = λ u all. omega arith;
  fewer = omega arith;
  stays = λ j absent h. h;
}
without_ids-TakenOut (k ∷ ids) d keyed =
    let rest =
      without_ids-TakenOut ids (remove k d) (record {
        own = remove-own k d keyed.own;
        distinct = remove-Distinct k d keyed.distinct;
      }) in
    record {
      keyed = rest.keyed;
      count = λ u all.
          let one = length-remove k d keyed.distinct all.0 in
          let others = rest.count u.1 (All-remove k ids d u.0 all.1) in omega arith;
      fewer = omega (arith, rest.fewer, length-remove_le k d);
      stays = λ j absent h.
          rest.stays j (λ r. absent (inr r)) (In-remove k j d (λ e. absent (inl e)) h);
    }

-- Detaching the runtimes of a thread changes no key and no identifier.
pub detach_thread-keys :
    (thread : Text) (d : Dict Binding) → keys_of (detach_thread thread d) ≡ keys_of d
unfolding detach_thread
detach_thread-keys thread [] = refl
detach_thread-keys thread ((k, b) ∷ d) = ap (◌∷◌ k) (detach_thread-keys thread d)

pub detach_thread-ids :
    (thread : Text) (d : Dict Binding)
    → ids_of (values_of (detach_thread thread d)) ≡ ids_of (values_of d)
unfolding detach_thread
detach_thread-ids thread [] = refl
detach_thread-ids thread ((k, b) ∷ d) = elim (Bool-cases (text_eq b.thread_id thread)) [
  | inl y ↦ rw y (ap (◌∷◌ b.runtime_id) (detach_thread-ids thread d))
  | inr n ↦ rw n (ap (◌∷◌ b.runtime_id) (detach_thread-ids thread d))
]
