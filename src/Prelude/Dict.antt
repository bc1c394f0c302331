-- ===== src/Prelude/Dict.antt =====
-- Python's `dict` as an association list: a key keeps its place, a new key goes last.
pub mod Every
pub mod Merge
use chatgpt_web_oauth_mcp.Prelude.Tests.{if◌then◌else◌, Bool-cases}
use mathlib.Core.Logic.{inl, inr}
use chatgpt_web_oauth_mcp.Prelude.Texts.{Text, text_eq, text_eq_iff}
use Prim.Native.Nat.{◌≤◌, ◌+◌}
use mathlib.Core.Path.{◌≡◌, refl}
use mathlib.Core.Bool.{Bool, true, false}
use mathlib.Core.List.{List, [], ◌∷◌}
use mathlib.Core.Option.{Option, none, some}
use native.Mathlib.Omega.{arith}
use chatgpt_web_oauth_mcp.Prelude.Lists.{length}

abbrev pub Dict {ℓ} : Type ℓ → Type ℓ
Dict V = List (Text × V)

module _ {ℓ} {V : Type ℓ} where
  -- `d.get(k)`
  unfoldable pub get : Text → Dict V → Option V
  get k [] = none
  get k ((j, v) ∷ d) = if text_eq j k then some v else get k d

  -- `d[k] = v`
  unfoldable pub put : Text → V → Dict V → Dict V
  put k v [] = (k, v) ∷ []
  put k v ((j, w) ∷ d) = if text_eq j k then (k, v) ∷ d else (j, w) ∷ put k v d

  -- `d.pop(k, None)`, every entry of the key
  unfoldable pub remove : Text → Dict V → Dict V
  remove k [] = []
  remove k ((j, v) ∷ d) = let rest = remove k d in if text_eq j k then rest else (j, v) ∷ rest

  -- The entries that pass a test: `for k, v in list(d.items()): if not p(v): d.pop(k, None)`.
  unfoldable pub keep : (V → Bool) → Dict V → Dict V
  unfolding remove
  keep p [] = []
  keep p ((j, v) ∷ d) = let rest = keep p d in if p v then (j, v) ∷ rest else remove j rest

  -- A value, if it passes a test.
  abbrev pub filter_option : (V → Bool) → Option V → Option V
  filter_option p none = none
  filter_option p (some v) = if p v then some v else none

  pub get-put :
      (k j : Text) (v : V) (d : Dict V)
      → get j (put k v d) ≡ (if text_eq k j then some v else get j d)
  unfolding get put
  get-put k j v [] = refl
  get-put k j v ((i, w) ∷ d) =
      ground (arith, text_eq_iff k j, text_eq_iff i k, text_eq_iff i j, get-put k j v d)

  pub get-remove :
      (k j : Text) (d : Dict V) → get j (remove k d) ≡ (if text_eq k j then none else get j d)
  unfolding get remove
  get-remove k j [] = ground arith
  get-remove k j ((i, w) ∷ d) =
      ground (arith, text_eq_iff k j, text_eq_iff i k, text_eq_iff i j, get-remove k j d)

  keep-drop :
      (p : V → Bool) (j : Text) (v : V) (d : Dict V)
      → p v ≡ false
      → keep p ((j, v) ∷ d) ≡ remove j (keep p d)
  unfolding keep
  keep-drop p j v d h = rw h

  get-keep_step :
      (p : V → Bool) (k j : Text) (v : V) (d : Dict V)
      → get k (keep p d) ≡ filter_option p (get k d)
      → get k (keep p ((j, v) ∷ d)) ≡ filter_option p (get k ((j, v) ∷ d))
  get-keep_step p k j v d ih = elim (Bool-cases (p v)) [
    | inl e ↦
        unfold get keep in
        rw (e) (elim (Bool-cases (text_eq j k)) [ inl g ↦ rw (g, e) | inr g ↦ rw g ih ])
    | inr e ↦
        rw (keep-drop p j v d e, get-remove)
          (elim (Bool-cases (text_eq j k)) [
            | inl g ↦ unfold get in rw (g, e)
            | inr g ↦ unfold get in rw g ih
          ])
  ]

  pub get-keep :
      (p : V → Bool) (k : Text) (d : Dict V) → get k (keep p d) ≡ filter_option p (get k d)
  get-keep p k [] = unfold get keep in refl
  get-keep p k ((j, v) ∷ d) = get-keep_step p k j v d (get-keep p k d)

  pub length-put-le : (k : Text) (v : V) (d : Dict V) → length (put k v d) ≤ length d + 1
  unfolding put
  length-put-le k v [] = omega arith
  length-put-le k v ((i, w) ∷ d) = ground (arith, length-put-le k v d)
