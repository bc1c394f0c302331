-- ===== src/Prelude/Dict/Every.antt =====
-- A predicate on every value of a dictionary, and what keeps it.
use chatgpt_web_oauth_mcp.Prelude.Tests.{Bool-cases}
use mathlib.Core.Path.{◌≡◌}
use mathlib.Core.Logic.{inl, inr}
use mathlib.Core.List.{[], ◌∷◌}
use mathlib.Core.Option.{some}
use chatgpt_web_oauth_mcp.Prelude.Texts.{Text, text_eq}
use chatgpt_web_oauth_mcp.Prelude.Predicates.{All}
use chatgpt_web_oauth_mcp.Prelude.Dict.{Dict, get, put, remove}

module _ {V : Type 0} (P : V → Type 0) where
  -- Every value of a dictionary.
  abbrev pub Every : Dict V → Type 0
  Every d = All (λ e. P (e.1)) d

  pub get-Every : (k : Text) (d : Dict V) {v : V} → Every d → get k d ≡ some v → P v
  unfolding get
  get-Every k [] h e = cc
  get-Every k ((j, w) ∷ d) {v} h e = elim (Bool-cases (text_eq j k)) [
    | inl y ↦ let same : w ≡ v = cc (rw y at e) in rw (← same) h.0
    | inr n ↦ get-Every k d h.1 (rw n at e)
  ]

  pub put-Every : (k : Text) (v : V) (d : Dict V) → P v → Every d → Every (put k v d)
  unfolding put
  put-Every k v [] p h = (p, tt)
  put-Every k v ((j, w) ∷ d) p h = elim (Bool-cases (text_eq j k)) [
    | inl y ↦ rw y (p, h.1)
    | inr n ↦ rw n (h.0, put-Every k v d p h.1)
  ]

  pub remove-Every : (k : Text) (d : Dict V) → Every d → Every (remove k d)
  unfolding remove
  remove-Every k [] h = tt
  remove-Every k ((j, w) ∷ d) h = elim (Bool-cases (text_eq j k)) [
    | inl y ↦ rw y (remove-Every k d h.1)
    | inr n ↦ rw n (h.0, remove-Every k d h.1)
  ]
