-- ===== src/Patch/Plan/Updates.antt =====
-- What the plan of an update says of the file.
use chatgpt_web_oauth_mcp.Prelude.{
  ◌≢◌, ◌∙◌, ◌>>=◌, ◌>>◌, if◌then◌else◌, take, ℕ, ◌≡◌, refl, ap, inl, inr, Bool, true, false, Option,
  none, some, List, [], ◌∷◌, ◌++◌, append_assoc, arith, Text, length, Bool-cases, ok, err, ◌==◌,
  >>=-eq-ok,
}
use chatgpt_web_oauth_mcp.Prelude.Split.{is_break, lines_from, splitlines, join, ends_lf}
use chatgpt_web_oauth_mcp.Prelude.Split.Lines.{
  OnlyLf, lines_from-cons, lines_from-lf, lines_from-plain,
}
use chatgpt_web_oauth_mcp.FileSystem.{
  FilePath, Bytes, Node, file, directory, Files, Codec, is_file_at,
}
use chatgpt_web_oauth_mcp.Patch.Ops.{delete, not_text_file, UpdateHunk, PlannedChange, Patched}
use chatgpt_web_oauth_mcp.Patch.Match.{apply_hunks}
use chatgpt_web_oauth_mcp.Patch.Plan.{
  has_nul, move_or_update, join_lines, read_text, plan_update, check_target, moves_to,
}

-- `_join_lines` puts a line in front of others with a line feed.
join_lines-cons :
    (l m : Text) (ls : List Text) (b : Bool)
    → join_lines (l ∷ m ∷ ls) b ≡ l ++ 10 ∷ join_lines (m ∷ ls) b
unfolding join_lines join
join_lines-cons l m ls b = rw (append_assoc, append_assoc)

join_lines-head :
    (c : ℕ) (l : Text) (ls : List Text) (b : Bool)
    → join_lines ((c ∷ l) ∷ ls) b ≡ c ∷ join_lines (l ∷ ls) b
unfolding join_lines join
join_lines-head c l [] b = refl
join_lines-head c l (m ∷ ls) b = refl

ends_lf-cons : (c d : ℕ) (s : Text) → ends_lf (c ∷ d ∷ s) ≡ ends_lf (d ∷ s)
unfolding ends_lf
ends_lf-cons c d s = refl

rejoin_one :
    (c : ℕ) → OnlyLf (c ∷ []) → join_lines (lines_from false (c ∷ [])) (ends_lf (c ∷ [])) ≡ c ∷ []
unfolding lines_from join_lines join ends_lf
rejoin_one c h = ground arith

break_is_lf : (c : ℕ) → is_break c ≡ (c == 10) → is_break c ≡ true → c ≡ 10
break_is_lf c h b = ground arith

rejoin : (t : Text) → OnlyLf t → join_lines (lines_from false t) (ends_lf t) ≡ t
rejoin [] h = unfold lines_from join_lines in refl
rejoin (c ∷ []) h = rejoin_one c h
rejoin (c ∷ d ∷ s) h =
    let (l, ls, e) = lines_from-cons d s in
    let ih : join_lines (l ∷ ls) (ends_lf (d ∷ s)) ≡ d ∷ s = rw (← e) (rejoin (d ∷ s) h.1) in
    elim (Bool-cases (is_break c)) [
      | inl b ↦
          rw (break_is_lf c h.0 b, ends_lf-cons, lines_from-lf, e, join_lines-cons) (ap (◌∷◌ 10) ih)
      | inr b ↦ rw (ends_lf-cons, lines_from-plain c (d ∷ s) b, e, join_lines-head) (ap (◌∷◌ c) ih)
    ]

-- For a text whose line boundaries are line feeds, splitting and joining give it back.
pub join_lines-splitlines : (t : Text) → OnlyLf t → join_lines (splitlines t) (ends_lf t) ≡ t
unfolding splitlines
join_lines-splitlines t h = rejoin t h

-- The path that an update writes.
abbrev pub or_path : Option FilePath → FilePath → FilePath
or_path none path = path
or_path (some target) path = target

file_at : (o : Option Node) → is_file_at o ≡ true → (raw : Bytes) × (o ≡ some (file raw))
file_at (some (file raw)) h = (raw, refl)
file_at (some directory) h = cc
file_at none h = cc

-- The end of `_plan_update`, behind the reading of the file.
finish-ok :
    (path : FilePath) (m : Option FilePath) (c : Patched (Unit {0})) (a : Patched (List Text))
    (t : Text) (n : ℕ) {change : PlannedChange}
    → (do lines ← a; c; ok (move_or_update path m t (join_lines lines (ends_lf t)) n)) ≡ ok change
    → (lines : List Text) × (a ≡ ok lines)
      × (change.old_text ≡ t)
      × (change.new_text ≡ join_lines lines (ends_lf t))
      × (change.path ≡ or_path m path)
      × (change.kind ≢ delete)
finish-ok path none (ok _) (ok lines) t n h =
    (lines, refl, ground arith, ground arith, ground arith, λ q. cc)
finish-ok path (some q) (ok _) (ok lines) t n h =
    (lines, refl, ground arith, ground arith, ground arith, λ q. cc)
finish-ok path m (err e) (ok lines) t n h = cc
finish-ok path m c (err e) t n h = cc

not_binary :
    (b : Bool) (path : FilePath) {t u : Text}
    → ◌≡◌ {A = Patched Text} (if b then err (not_text_file path) else ok u) (ok t)
    → t ≡ u
not_binary true path h = cc
not_binary false path h = cc

module _ (codec : Codec) where
  open codec use {decode}

  read_text-ok :
      (fs : Files) (path : FilePath) (raw : Bytes) {t : Text}
      → fs path ≡ some (file raw)
      → read_text codec fs path ≡ ok t
      → t ≡ decode raw
  unfolding read_text
  read_text-ok fs path raw e h = not_binary (has_nul (take 1024 raw)) path (rw e at h)

  -- A planned update read a file, has as its new text the joined lines that its hunks make of the
  -- lines of that file, goes to the target of its move, or else to the path itself, and is no
  -- deletion.
  pub plan_update-ok :
      (fs : Files) (path : FilePath) (move_to : Option FilePath) (hunks : List UpdateHunk)
      {change : PlannedChange}
      → plan_update codec fs path move_to hunks ≡ ok change
      → (raw : Bytes) × (lines : List Text) × (fs path ≡ some (file raw))
        × (apply_hunks path 0 hunks (splitlines (decode raw)) 0 ≡ ok lines)
        × (change.old_text ≡ decode raw)
        × (change.new_text ≡ join_lines lines (ends_lf (decode raw)))
        × (change.path ≡ or_path (moves_to path move_to) path)
        × (change.kind ≢ delete)
  unfolding plan_update
  plan_update-ok fs path move_to hunks {change} h = at_node (fs path) refl
    where
      at_file :
          (raw : Bytes) (t : Text)
          → fs path ≡ some (file raw)
          → t ≡ decode raw
          → (do
            lines ← apply_hunks path 0 hunks (splitlines t) 0
            check_target fs (moves_to path move_to)
            ok (
                move_or_update path
                  (moves_to path move_to)
                  t
                  (join_lines lines (ends_lf t))
                  (length hunks)))
            ≡ ok change
          → (raw : Bytes) × (lines : List Text) × (fs path ≡ some (file raw))
            × (apply_hunks path 0 hunks (splitlines (decode raw)) 0 ≡ ok lines)
            × (change.old_text ≡ decode raw)
            × (change.new_text ≡ join_lines lines (ends_lf (decode raw)))
            × (change.path ≡ or_path (moves_to path move_to) path)
            × (change.kind ≢ delete)
      at_file raw t e d k =
          let (lines, a, old, new, p, kept) =
            finish-ok path (moves_to path move_to) (check_target fs (moves_to path move_to))
              (apply_hunks path 0 hunks (splitlines t) 0) t (length hunks) k in
          (raw, lines, e, rw (← d) a, old ∙ d, rw (← d) new, p, kept)

      at_node :
          (n : Option Node)
          → fs path ≡ n
          → (raw : Bytes) × (lines : List Text) × (fs path ≡ some (file raw))
            × (apply_hunks path 0 hunks (splitlines (decode raw)) 0 ≡ ok lines)
            × (change.old_text ≡ decode raw)
            × (change.new_text ≡ join_lines lines (ends_lf (decode raw)))
            × (change.path ≡ or_path (moves_to path move_to) path)
            × (change.kind ≢ delete)
      at_node none e = cc (rw e at h)
      at_node (some directory) e = cc (rw e at h)
      at_node (some (file raw)) e =
          let (t, r, k) = >>=-eq-ok (read_text codec fs path) _ (rw e at h) in
          at_file raw t e (read_text-ok fs path raw e r) k
