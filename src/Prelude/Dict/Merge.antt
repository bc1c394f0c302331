-- ===== src/Prelude/Dict/Merge.antt =====
-- `d.update(other)`, and what is read afterwards.
use chatgpt_web_oauth_mcp.Prelude.Tests.{Bool-cases, if◌then◌else◌}
use mathlib.Core.Path.{◌≡◌, refl}
use mathlib.Core.Logic.{inl, inr}
use mathlib.Core.List.{[], ◌∷◌}
use mathlib.Core.Option.{Option, none, some}
use chatgpt_web_oauth_mcp.Prelude.Texts.{Text, text_eq}
use chatgpt_web_oauth_mcp.Prelude.Dict.{Dict, get, put, get-put}

abbrev pub or_else : {V : Type 0} → Option V → Option V → Option V
or_else none fallback = fallback
or_else (some v) fallback = some v

module _ {V : Type 0} where
  unfoldable pub merge : Dict V → Dict V → Dict V
  merge d [] = d
  merge d ((k, v) ∷ other) = merge (put k v d) other

  -- The last value of a key in a list of entries.
  unfoldable pub last_value : Text → Dict V → Option V
  last_value k [] = none
  last_value k ((j, v) ∷ other) =
      let later = last_value k other in or_else later (if text_eq j k then some v else none)

  or_else_assoc : (a b c : Option V) → or_else a (or_else b c) ≡ or_else (or_else a b) c
  or_else_assoc none b c = refl
  or_else_assoc (some v) b c = refl

  pub get-merge :
      (k : Text) (d other : Dict V) → get k (merge d other) ≡ or_else (last_value k other) (get k d)
  unfolding merge last_value
  get-merge k d [] = refl
  get-merge k d ((j, v) ∷ other) = elim (Bool-cases (text_eq j k)) [
    | inl e ↦
        rw
          (
            get-merge k (put j v d) other,
            get-put,
            e,
            ← or_else_assoc (last_value k other) (some v) (get k d),
          )
          refl
    | inr e ↦
        rw
          (
            get-merge k (put j v d) other,
            get-put,
            e,
            ← or_else_assoc (last_value k other) none (get k d),
          )
          refl
  ]
