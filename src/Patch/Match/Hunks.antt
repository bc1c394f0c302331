-- ===== src/Patch/Match/Hunks.antt =====
-- What `_apply_hunk` does to the lines of a file.
use chatgpt_web_oauth_mcp.Prelude.{
  sym, ◌∙◌, ℕ, ◌+◌, ◌-◌, ◌<◌, map, ◌≡◌, ◌≢◌, refl, inl, inr, List, [], ◌∷◌, ◌++◌, arith, Text,
  length, take, drop, In, ok, err,
}
use chatgpt_web_oauth_mcp.FileSystem.{FilePath}
use chatgpt_web_oauth_mcp.Patch.Ops.{UpdateHunk, patch_context_not_found, ambiguous_context_match}
use chatgpt_web_oauth_mcp.Patch.Match.{
  find_sequence_matches, old_lines, new_lines, apply_match, apply_hunk,
}
use chatgpt_web_oauth_mcp.Patch.Match.Occurs.{OccursAt, In-matches_iff, matches-two}

module _ (path : FilePath) (k : ℕ) (hunk : UpdateHunk) (lines : List Text) (cursor : ℕ) where
  abbrev old : List Text
  old = old_lines hunk.lines

  abbrev new : List Text
  new = new_lines hunk.lines

  only-match :
      (j : ℕ) (matches : List ℕ) {result : List Text × ℕ}
      → apply_match path k hunk lines cursor old new matches ≡ ok result
      → In j matches
      → result ≡ (take j lines ++ (new ++ drop (j + length old) lines), j + length new)
  unfolding apply_match
  only-match j [] h m = absurd m
  only-match j (i ∷ []) h (inl e) = cc
  only-match j (i ∷ []) h (inr m) = absurd m
  only-match j (i ∷ i' ∷ more) h m = cc

  -- An applied hunk that has old lines replaced them by its new lines at any place where they occur,
  -- so they occurred at one place only.
  pub apply_hunk-ok :
      (j : ℕ) {result : List Text × ℕ}
      → apply_hunk path k hunk lines cursor ≡ ok result
      → old ≢ []
      → OccursAt lines j old
      → result ≡ (take j lines ++ (new ++ drop (j + length old) lines), j + length new)
  unfolding apply_hunk
  apply_hunk-ok j h ne o =
      only-match j (find_sequence_matches lines old) h ((In-matches_iff lines old j ne).1 o)

  the_match :
      (i : ℕ) (matches : List ℕ)
      → ((j : ℕ) → In j matches → j ≡ i)
      → ((a b : ℕ) (more : List ℕ) → matches ≡ a ∷ b ∷ more → a < b)
      → In i matches
      → apply_match path k hunk lines cursor old new matches
        ≡ ok (take i lines ++ (new ++ drop (i + length old) lines), i + length new)
  unfolding apply_match
  the_match i [] same ordered m = absurd m
  the_match i (a ∷ []) same ordered m = rw (same a (inl refl))
  the_match i (a ∷ b ∷ more) same ordered m =
      absurd (omega (arith, ordered a b more refl, same a (inl refl), same b (inr (inl refl))))

  -- A hunk that has old lines, and whose old lines occur at one place only, is applied there.
  pub apply_hunk-at :
      (i : ℕ)
      → old ≢ []
      → OccursAt lines i old
      → ((j : ℕ) → OccursAt lines j old → j ≡ i)
      → apply_hunk path k hunk lines cursor
        ≡ ok (take i lines ++ (new ++ drop (i + length old) lines), i + length new)
  unfolding apply_hunk
  apply_hunk-at i ne o same =
      the_match i (find_sequence_matches lines old)
        (λ j m. same j ((In-matches_iff lines old j ne).0 m))
        (λ a b more e. matches-two lines old a b e) ((In-matches_iff lines old i ne).1 o)

  no-match :
      (matches : List ℕ)
      → ((j : ℕ) → ¬ In j matches)
      → apply_match path k hunk lines cursor old new matches
        ≡ err (patch_context_not_found path k hunk.patch_line old (cursor - length old + 1))
  unfolding apply_match
  no-match [] none = refl
  no-match (i ∷ more) none = absurd (none i (inl refl))

  -- A hunk that has old lines, which occur nowhere, is refused.
  pub apply_hunk-absent :
      old ≢ []
      → ((j : ℕ) → ¬ OccursAt lines j old)
      → apply_hunk path k hunk lines cursor
        ≡ err (patch_context_not_found path k hunk.patch_line old (cursor - length old + 1))
  unfolding apply_hunk
  apply_hunk-absent ne absent =
      no-match (find_sequence_matches lines old)
        λ j m. absent j ((In-matches_iff lines old j ne).0 m)

  two-matches :
      (i j : ℕ) (matches : List ℕ)
      → i ≢ j
      → In i matches
      → In j matches
      → apply_match path k hunk lines cursor old new matches
        ≡ err (
            ambiguous_context_match path k hunk.patch_line old
              (length matches)
              (map (λ m. m + 1) matches))
  unfolding apply_match
  two-matches i j [] ne a b = absurd a
  two-matches i j (m ∷ []) ne (inl a) (inl b) = absurd (ne (a ∙ sym b))
  two-matches i j (m ∷ []) ne (inr a) b = absurd a
  two-matches i j (m ∷ []) ne (inl a) (inr b) = absurd b
  two-matches i j (m ∷ m' ∷ more) ne a b = refl

  -- A hunk that has old lines, which occur at two places, is refused, with the number and the lines
  -- of all the matches.
  pub apply_hunk-ambiguous :
      (i j : ℕ)
      → old ≢ []
      → i ≢ j
      → OccursAt lines i old
      → OccursAt lines j old
      → apply_hunk path k hunk lines cursor
        ≡ err (
            ambiguous_context_match path k hunk.patch_line old
              (length (find_sequence_matches lines old))
              (map (λ m. m + 1) (find_sequence_matches lines old)))
  unfolding apply_hunk
  apply_hunk-ambiguous i j ne differ a b =
      two-matches i j (find_sequence_matches lines old) differ ((In-matches_iff lines old i ne).1 a)
        ((In-matches_iff lines old j ne).1 b)
