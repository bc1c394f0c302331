-- ===== src/Prelude/Split.antt =====
-- Python's `str.split()`, `str.splitlines()`, `str.join` and `str.endswith("\n")`.
pub mod Lines
pub mod Words
use Prim.Native.Nat.{ℕ}
use mathlib.Core.Path.{◌≡◌, refl}
use mathlib.Core.Bool.{Bool, false, ◌&&◌, ◌||◌, not}
use mathlib.Core.List.{List, [], ◌∷◌, ◌++◌}
use chatgpt_web_oauth_mcp.Prelude.Tests.{◌==◌, leb, if◌then◌else◌}
use chatgpt_web_oauth_mcp.Prelude.Texts.{Text, codes}

-- The line boundaries of `str.splitlines`.
abbrev pub is_break : ℕ → Bool
is_break c =
    (leb 10 c && leb c 13) || (leb 28 c && leb c 30) || (c == 133) || (leb 8232 c && leb c 8233)

-- The whitespace of `str.split`.
abbrev pub is_space : ℕ → Bool
is_space c =
    (leb 9 c && leb c 13)
    || (leb 28 c && leb c 32)
    || (c == 133)
    || (c == 160)
    || (c == 5760)
    || (leb 8192 c && leb c 8202)
    || (leb 8232 c && leb c 8233)
    || (c == 8239)
    || (c == 8287)
    || (c == 12288)

-- A character in front of the first line.
abbrev pub cons_head : ℕ → List Text → List Text
cons_head c [] = (c ∷ []) ∷ []
cons_head c (l ∷ ls) = (c ∷ l) ∷ ls

-- `cr` says that the last character was a carriage return, so that a line feed ends no line more.
unfoldable pub lines_from : Bool → Text → List Text
lines_from cr [] = []
lines_from cr (c ∷ s) =
    let rest = lines_from (c == 13) s in
    if cr && (c == 10) then rest else if is_break c then [] ∷ rest else cons_head c rest

-- `s.splitlines()`
unfoldable pub splitlines : Text → List Text
unfolding lines_from
splitlines s = lines_from false s

abbrev pub starts_word : Text → Bool
starts_word [] = false
starts_word (c ∷ s) = not (is_space c)

-- `s.split()`
unfoldable pub words : Text → List Text
words [] = []
words (c ∷ s) =
    let rest = words s in
    if is_space c then rest else if starts_word s then cons_head c rest else (c ∷ []) ∷ rest

-- `sep.join(ls)`
unfoldable pub join : Text → List Text → Text
join sep [] = []
join sep (l ∷ []) = l
join sep (l ∷ m ∷ ls) = l ++ (sep ++ join sep (m ∷ ls))

-- `s.endswith("\n")`
unfoldable pub ends_lf : Text → Bool
ends_lf [] = false
ends_lf (c ∷ []) = c == 10
ends_lf (c ∷ d ∷ s) = ends_lf (d ∷ s)

splitlines_example :
    splitlines (codes "a\r\n\nbc\nd") ≡ codes "a" ∷ [] ∷ codes "bc" ∷ codes "d" ∷ []
unfolding splitlines
splitlines_example = refl

words_example : words (codes "  ab  c ") ≡ codes "ab" ∷ codes "c" ∷ []
unfolding words
words_example = refl
