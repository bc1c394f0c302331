-- ===== src/Prelude/Split/Words.antt =====
-- Laws of `split` and `" ".join`.
use Prim.Native.Nat.{ℕ}
use mathlib.Core.Path.{◌≡◌, refl, ap}
use mathlib.Core.Logic.{inl, inr}
use mathlib.Core.Bool.{false}
use mathlib.Core.List.{List, [], ◌∷◌, ◌++◌}
use native.Mathlib.Omega.{arith}
use chatgpt_web_oauth_mcp.Prelude.Tests.{Bool-cases}
use chatgpt_web_oauth_mcp.Prelude.Texts.{Text}
use chatgpt_web_oauth_mcp.Prelude.Predicates.{All}
use chatgpt_web_oauth_mcp.Prelude.Split.{is_space, cons_head, starts_word, words, join}

-- A text that `split` yields: not empty, and with no whitespace in it.
abbrev pub IsWord : Text → Type 0
IsWord [] = ⊥
IsWord (c ∷ s) = All (λ d. is_space d ≡ false) (c ∷ s)

words-nil : words [] ≡ []
unfolding words
words-nil = refl

words-space : (s : Text) → words (32 ∷ s) ≡ words s
unfolding words
words-space s = refl

-- One word in front of a text that does not go on with a word.
words-word : (w s : Text) → IsWord w → starts_word s ≡ false → words (w ++ s) ≡ w ∷ words s
unfolding words
words-word [] s h e = absurd h
words-word (c ∷ []) s h e = ground arith
words-word (c ∷ d ∷ w) s h e = ground (arith, words-word (d ∷ w) s (h.1) e)

-- A word alone.
words-one : (w : Text) → IsWord w → words w ≡ w ∷ []
unfolding words
words-one [] h = absurd h
words-one (c ∷ []) h = ground arith
words-one (c ∷ d ∷ w) h = ground (arith, words-one (d ∷ w) (h.1))

-- `split` undoes `" ".join` on words.
pub words-join : (ws : List Text) → All IsWord ws → words (join (32 ∷ []) ws) ≡ ws
unfolding join
words-join [] h = words-nil
words-join (w ∷ []) h = words-one w h.0
words-join (w ∷ v ∷ ws) h =
    rw (words-word w (32 ∷ join (32 ∷ []) (v ∷ ws)) h.0 refl, words-space)
      (ap (◌∷◌ w) (words-join (v ∷ ws) h.1))

cons_head-IsWord :
    (c : ℕ) (r : List Text) → is_space c ≡ false → All IsWord r → All IsWord (cons_head c r)
cons_head-IsWord c [] e h = ((e, tt), tt)
cons_head-IsWord c ([] ∷ r) e h = absurd h.0
cons_head-IsWord c ((d ∷ w) ∷ r) e h = ((e, h.0), h.1)

-- What `split` yields are words.
pub words-IsWord : (s : Text) → All IsWord (words s)
unfolding words
words-IsWord [] = tt
words-IsWord (c ∷ s) = elim (Bool-cases (is_space c)) [
  | inl e ↦ rw e (words-IsWord s)
  | inr e ↦ elim (Bool-cases (starts_word s)) [
    | inl g ↦ rw (e, g) (cons_head-IsWord c (words s) e (words-IsWord s))
    | inr g ↦ rw (e, g) ((e, tt), words-IsWord s)
  ]
]
