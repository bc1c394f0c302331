-- ===== src/Codex/Updates.antt =====
-- Writing a binding under the identifier of its runtime, and counting its requests.
use chatgpt_web_oauth_mcp.Prelude.{
  ℕ, zero, suc, ◌-◌, ◌<◌, ◌≡◌, ◌⊎◌, refl, sym, ap, ◌∙◌, inl, inr, some, [], ◌∷◌, In, arith, Text,
  text_eq, text_eq_iff, length, Bool-cases,
}
use chatgpt_web_oauth_mcp.Prelude.Dict.{Dict, get, put, remove, get-put, get-remove}
use chatgpt_web_oauth_mcp.Output.Shares.{value_or_zero}
use chatgpt_web_oauth_mcp.Codex.{Binding}
use chatgpt_web_oauth_mcp.Codex.Release.{requests_of}
use chatgpt_web_oauth_mcp.Codex.Capacity.{ids_of}
use chatgpt_web_oauth_mcp.Codex.Keys.{keys_of, values_of, Distinct, Keyed, tail-eq}
use chatgpt_web_oauth_mcp.Codex.Runtimes.{put_remaining}

put-In_or :
    (k j : Text) (b : Binding) (d : Dict Binding)
    → In j (keys_of (put k b d))
    → (j ≡ k) ⊎ In j (keys_of d)
unfolding put
put-In_or k j b [] h = h
put-In_or k j b ((i, c) ∷ d) h = elim (Bool-cases (text_eq i k)) [
  | inl y ↦
      let at_head : In j (k ∷ keys_of d) = rw y at h in
      elim at_head [ inl e ↦ inl e | inr r ↦ inr (inr r) ]
  | inr n ↦
      let further : In j (i ∷ keys_of (put k b d)) = rw n at h in
      elim further [
        | inl e ↦ inr (inl e)
        | inr r ↦ elim (put-In_or k j b d r) [ inl e ↦ inl e | inr q ↦ inr (inr q) ]
      ]
]

pub In-put :
    (k j : Text) (b : Binding) (d : Dict Binding) → In j (keys_of d) → In j (keys_of (put k b d))
unfolding put
In-put k j b [] h = absurd h
In-put k j b ((i, c) ∷ d) (inl e) = elim (Bool-cases (text_eq i k)) [
  | inl y ↦ rw y (inl (e ∙ (text_eq_iff i k).0 y))
  | inr n ↦ rw n (inl e)
]
In-put k j b ((i, c) ∷ d) (inr r) = elim (Bool-cases (text_eq i k)) [
  | inl y ↦ rw y (inr r)
  | inr n ↦ rw n (inr (In-put k j b d r))
]

pub In-put_self : (k : Text) (b : Binding) (d : Dict Binding) → In k (keys_of (put k b d))
unfolding put
In-put_self k b [] = inl refl
In-put_self k b ((i, c) ∷ d) = elim (Bool-cases (text_eq i k)) [
  | inl y ↦ rw y (inl refl)
  | inr n ↦ rw n (inr (In-put_self k b d))
]

put-Distinct :
    (k : Text) (b : Binding) (d : Dict Binding)
    → Distinct (keys_of d)
    → Distinct (keys_of (put k b d))
unfolding put
put-Distinct k b [] h = ((λ r. r), tt)
put-Distinct k b ((i, c) ∷ d) h = elim (Bool-cases (text_eq i k)) [
  | inl y ↦ rw y ((λ r. h.0 (rw (sym ((text_eq_iff i k).0 y)) at r)), h.1)
  | inr n ↦ rw n (
    λ r. elim (put-In_or k i b d r) [ inl e ↦ cc (n, (text_eq_iff i k).1 e) | inr q ↦ h.0 q ],
    put-Distinct k b d h.1,
  )
]

put-own :
    (k : Text) (b : Binding) (d : Dict Binding)
    → b.runtime_id ≡ k
    → ids_of (values_of d) ≡ keys_of d
    → ids_of (values_of (put k b d)) ≡ keys_of (put k b d)
unfolding put
put-own k b [] e h = ap (λ x. x ∷ []) e
put-own k b ((i, c) ∷ d) e h =
    let (first, rest) = tail-eq h in
    elim (Bool-cases (text_eq i k)) [
      | inl y ↦ rw (y, e, rest)
      | inr n ↦ rw (n, first, put-own k b d e rest)
    ]

pub put-Keyed :
    (k : Text) (b : Binding) (d : Dict Binding) → b.runtime_id ≡ k → Keyed d → Keyed (put k b d)
put-Keyed k b d e h = record {
  own = put-own k b d e h.own;
  distinct = put-Distinct k b d h.distinct;
}

pub get-In : (k : Text) (d : Dict Binding) {b : Binding} → get k d ≡ some b → In k (keys_of d)
unfolding get
get-In k [] h = cc
get-In k ((i, c) ∷ d) {b} h = elim (Bool-cases (text_eq i k)) [
  | inl y ↦ inl (sym ((text_eq_iff i k).0 y))
  | inr n ↦ inr (get-In k d {b = b} (rw n at h))
]

pub get-own :
    (k : Text) (d : Dict Binding) {b : Binding}
    → ids_of (values_of d) ≡ keys_of d
    → get k d ≡ some b
    → b.runtime_id ≡ k
unfolding get
get-own k [] h e = cc
get-own k ((i, c) ∷ d) {b} h e =
    let (first, rest) = tail-eq h in
    elim (Bool-cases (text_eq i k)) [
      | inl y ↦
          let same : c ≡ b = cc (rw y at e) in
          ap (λ (x : Binding). x.runtime_id) (sym same) ∙ first ∙ (text_eq_iff i k).0 y
      | inr n ↦ get-own k d rest (rw n at e)
    ]

pub length-put :
    (k : Text) (b : Binding) (d : Dict Binding) → In k (keys_of d) → length (put k b d) ≡ length d
unfolding put
length-put k b [] h = absurd h
length-put k b ((i, c) ∷ d) h = elim (Bool-cases (text_eq i k)) [
  | inl y ↦ rw y
  | inr n ↦ elim h [
    | inl e ↦ cc (n, (text_eq_iff i k).1 (sym e))
    | inr r ↦ rw n (ap suc (length-put k b d r))
  ]
]

-- Requests of other runtimes are not touched; a runtime with requests left had requests.
pub requests_of-put :
    (k j : Text) (n : ℕ) (active : Dict ℕ)
    → 0 < requests_of (put k n active) j
    → (j ≡ k) ⊎ (0 < requests_of active j)
unfolding requests_of
requests_of-put k j n active h = elim (Bool-cases (text_eq k j)) [
  | inl y ↦ inl (sym ((text_eq_iff k j).0 y))
  | inr x ↦ inr (rw (get-put k j n active, x) at h)
]

requests_of-remove :
    (k j : Text) (active : Dict ℕ) → 0 < requests_of (remove k active) j → 0 < requests_of active j
unfolding requests_of value_or_zero
requests_of-remove k j active h = elim (Bool-cases (text_eq k j)) [
  | inl y ↦ let none_left : 0 < 0 = rw (get-remove k j active, y) at h in absurd (omega arith)
  | inr x ↦ rw (get-remove k j active, x) at h
]

pub requests_of-put_remaining :
    (k j : Text) (n : ℕ) (active : Dict ℕ)
    → requests_of active k - 1 ≡ n
    → 0 < requests_of (put_remaining k n active) j
    → 0 < requests_of active j
requests_of-put_remaining k j (suc n) active e h = elim (requests_of-put k j (suc n) active h) [
  | inl same ↦ rw same (omega arith)
  | inr other ↦ other
]
requests_of-put_remaining k j zero active e h = requests_of-remove k j active h
