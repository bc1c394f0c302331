-- ===== src/Patch/Match/Occurs.antt =====
-- The matches of a hunk are its occurrences in the file.
use native.Mathlib.Nat.{suc-add, zero-add}
use mathlib.Core.Path.{ap₂}
use chatgpt_web_oauth_mcp.Prelude.{
  inl, ℕ, zero, suc, ◌+◌, ◌-◌, ◌≤◌, ◌<◌, ◌≡◌, ◌≢◌, ◌↔◌, refl, sym, ap, ◌∙◌, true, List, [], ◌∷◌,
  ◌++◌, arith, Text, text_eq_iff, text_eq_refl, length, take, drop, take-append-drop, length-take,
  length-drop, In,
}
use chatgpt_web_oauth_mcp.Patch.Match.{lines_eq, scan, find_sequence_matches}

lines_eq_refl : (ls : List Text) → lines_eq ls ls ≡ true
unfolding lines_eq
lines_eq_refl [] = refl
lines_eq_refl (l ∷ ls) = ground (arith, text_eq_refl l, lines_eq_refl ls)

pub lines_eq_sound : (ls ms : List Text) → lines_eq ls ms ≡ true → ls ≡ ms
unfolding lines_eq
lines_eq_sound [] [] h = refl
lines_eq_sound (l ∷ ls) (m ∷ ms) h = ground (arith, text_eq_iff l m, lines_eq_sound ls ms)
lines_eq_sound [] (m ∷ ms) h = cc
lines_eq_sound (l ∷ ls) [] h = cc

-- The needle stands in the lines at the index.
abbrev pub OccursAt : List Text → ℕ → List Text → Type 0
OccursAt lines i needle = take (length needle) (drop i lines) ≡ needle

In-scan_sound :
    (rounds index i : ℕ) (lines needle : List Text)
    → In i (scan rounds index lines needle)
    → OccursAt lines i needle
unfolding scan
In-scan_sound zero index i lines needle h = absurd h
In-scan_sound (suc rounds) index i lines needle h = ground (
  arith,
  lines_eq_sound (take (length needle) (drop index lines)) needle,
  In-scan_sound rounds (index + 1) i lines needle,
)

In-scan_complete :
    (rounds index i : ℕ) (lines needle : List Text)
    → index ≤ i
    → i < index + rounds
    → OccursAt lines i needle
    → In i (scan rounds index lines needle)
unfolding scan
In-scan_complete zero index i lines needle le lt h = absurd (omega arith)
In-scan_complete (suc rounds) index i lines needle le lt h =
    ground (arith, lines_eq_refl needle, In-scan_complete rounds (index + 1) i lines needle)

In-scan_ge :
    (rounds index i : ℕ) (lines needle : List Text)
    → In i (scan rounds index lines needle)
    → index ≤ i
unfolding scan
In-scan_ge zero index i lines needle h = absurd h
In-scan_ge (suc rounds) index i lines needle h =
    ground (arith, In-scan_ge rounds (index + 1) i lines needle)

scan-two :
    (rounds index i j : ℕ) (lines needle : List Text) {more : List ℕ}
    → scan rounds index lines needle ≡ i ∷ j ∷ more
    → i < j
unfolding scan
scan-two zero index i j lines needle h = cc
scan-two (suc rounds) index i j lines needle {more} h = ground (
  arith,
  scan-two rounds (index + 1) i j lines needle {more = more},
  In-scan_ge rounds (index + 1) j lines needle,
  in_head j more (scan rounds (index + 1) lines needle),
)
  where
    in_head : (a : ℕ) (rest bs : List ℕ) → bs ≡ a ∷ rest → In a bs
    in_head a rest [] e = cc
    in_head a rest (b ∷ bs) e = inl cc

-- The matches come in order, so no index comes twice.
pub matches-two :
    (lines needle : List Text) (i j : ℕ) {more : List ℕ}
    → find_sequence_matches lines needle ≡ i ∷ j ∷ more
    → i < j
unfolding find_sequence_matches
matches-two lines [] i j h = cc
matches-two lines (n ∷ needle) i j {more} h = ground (
  arith,
  scan-two (length lines + 1 - suc (length needle) + 1) 0 i j lines (n ∷ needle) {more = more},
)

-- An occurrence of a needle that is not empty lies inside the lines.
pub OccursAt-bound :
    (lines needle : List Text) (i : ℕ)
    → needle ≢ []
    → OccursAt lines i needle
    → i + length needle ≤ length lines
OccursAt-bound lines [] i ne h = absurd (ne refl)
OccursAt-bound lines (n ∷ needle) i ne h =
    omega
      (arith, ap length h, length-take (length (n ∷ needle)) (drop i lines), length-drop i lines)

-- The indices that `_find_sequence_matches` returns for a needle that is not empty are the places
-- where it occurs.
pub In-matches_iff :
    (lines needle : List Text) (i : ℕ)
    → needle ≢ []
    → In i (find_sequence_matches lines needle) ↔ OccursAt lines i needle
unfolding find_sequence_matches
In-matches_iff lines [] i ne = absurd (ne refl)
In-matches_iff lines (n ∷ needle) i ne = (
  λ h.
      ground
        (arith, In-scan_sound (length lines + 1 - suc (length needle) + 1) 0 i lines (n ∷ needle)),
  λ h. ground (
    arith,
    OccursAt-bound lines (n ∷ needle) i ne h,
    In-scan_complete (length lines + 1 - suc (length needle) + 1) 0 i lines (n ∷ needle),
  ),
)

drop-drop : (n i : ℕ) (xs : List Text) → drop n (drop i xs) ≡ drop (i + n) xs
drop-drop n zero xs = rw zero-add
drop-drop zero (suc i) [] = rw suc-add
drop-drop (suc n) (suc i) [] = rw suc-add
drop-drop n (suc i) (x ∷ xs) = rw suc-add (drop-drop n i xs)

-- The lines around an occurrence.
pub OccursAt-split :
    (lines needle : List Text) (i : ℕ)
    → OccursAt lines i needle
    → lines ≡ take i lines ++ (needle ++ drop (i + length needle) lines)
OccursAt-split lines needle i h =
    sym (take-append-drop i lines)
    ∙ ap (◌++◌ (take i lines)) (
        sym (take-append-drop (length needle) (drop i lines))
        ∙ ap₂ ◌++◌ h (drop-drop (length needle) i lines))

pub take-length_append : (xs ys : List Text) → take (length xs) (xs ++ ys) ≡ xs
take-length_append [] ys = refl
take-length_append (x ∷ xs) ys = ap (◌∷◌ x) (take-length_append xs ys)

pub drop-length_append : (xs ys : List Text) → drop (length xs) (xs ++ ys) ≡ ys
drop-length_append [] ys = refl
drop-length_append (x ∷ xs) ys = drop-length_append xs ys

-- Lines with the needle between two parts have it at the length of the first.
pub OccursAt-append :
    (before needle after : List Text)
    → OccursAt (before ++ (needle ++ after)) (length before) needle
OccursAt-append before needle after =
    rw (drop-length_append before (needle ++ after)) (take-length_append needle after)
