-- ===== src/Prelude/Split/Lines.antt =====
-- Laws of `splitlines`.
use Prim.Native.Nat.{ℕ}
use mathlib.Core.Path.{◌≡◌, refl, ap}
use mathlib.Core.Logic.{inl, inr}
use mathlib.Core.Bool.{false}
use mathlib.Core.List.{List, [], ◌∷◌, ◌++◌}
use native.Mathlib.Omega.{arith}
use chatgpt_web_oauth_mcp.Prelude.Tests.{◌==◌, Bool-cases}
use chatgpt_web_oauth_mcp.Prelude.Texts.{Text}
use chatgpt_web_oauth_mcp.Prelude.Predicates.{All}
use chatgpt_web_oauth_mcp.Prelude.Split.{is_break, cons_head, lines_from, splitlines}

-- The text's only line boundaries are line feeds.
abbrev pub OnlyLf : Text → Type 0
OnlyLf = All (λ c. is_break c ≡ (c == 10))

-- The text is a single line, with no boundary.
abbrev pub IsLine : Text → Type 0
IsLine = All (λ c. is_break c ≡ false)

cons_head-cons : (c : ℕ) (r : List Text) → (l : Text) × (ls : List Text) × (cons_head c r ≡ l ∷ ls)
cons_head-cons c [] = (c ∷ [], [], refl)
cons_head-cons c (l ∷ ls) = (c ∷ l, ls, refl)

-- A text with a character in it has a line.
pub lines_from-cons :
    (c : ℕ) (s : Text) → (l : Text) × (ls : List Text) × (lines_from false (c ∷ s) ≡ l ∷ ls)
unfolding lines_from
lines_from-cons c s = elim (Bool-cases (is_break c)) [
  | inl e ↦ ([], lines_from (c == 13) s, rw e)
  | inr e ↦ rw e (cons_head-cons c (lines_from (c == 13) s))
]

pub lines_from-lf : (s : Text) → lines_from false (10 ∷ s) ≡ [] ∷ lines_from false s
unfolding lines_from
lines_from-lf s = refl

pub lines_from-plain :
    (c : ℕ) (s : Text)
    → is_break c ≡ false
    → lines_from false (c ∷ s) ≡ cons_head c (lines_from false s)
unfolding lines_from
lines_from-plain c s h = ground arith

-- A line and a line feed in front of a text are one more line.
pub splitlines-line : (l s : Text) → IsLine l → splitlines (l ++ 10 ∷ s) ≡ l ∷ splitlines s
unfolding splitlines
splitlines-line [] s h = lines_from-lf s
splitlines-line (c ∷ l) s h =
    rw (lines_from-plain c (l ++ 10 ∷ s) h.0) (ap (cons_head c) (splitlines-line l s h.1))
