-- ===== src/Patch/Apply/Frame.antt =====
-- Which paths `_apply_change` writes, and what it leaves there.
use chatgpt_web_oauth_mcp.Prelude.{
  ◌∙◌, ◌≡◌, refl, inl, inr, false, Option, none, some, List, [], ◌∷◌, All, Bool-cases,
}
use chatgpt_web_oauth_mcp.FileSystem.{
  FilePath, Files, Codec, continue, path_eq, ancestors, make_dirs, write_bytes,
}
use chatgpt_web_oauth_mcp.FileSystem.Steps.{continue-at, make_dirs-at, write_bytes-at, unlink-at}
use chatgpt_web_oauth_mcp.Patch.Ops.{PlannedChange, ChangeKind, add, delete, update, move}
use chatgpt_web_oauth_mcp.Patch.Apply.{
  drop_previous, write_change, dispatch, apply_change, apply_changes,
}

-- The change does not name the path as the source of a move.
abbrev pub LeavesPrevious : FilePath → Option FilePath → Type 0
LeavesPrevious q none = Unit
LeavesPrevious q (some previous) = path_eq previous q ≡ false

-- The change names neither the path nor a path below it.
abbrev pub Avoids : FilePath → PlannedChange → Type 0
Avoids q change =
    (path_eq change.path q ≡ false)
    × All (λ p. path_eq p q ≡ false) (ancestors change.path)
    × LeavesPrevious q change.previous_path

drop_previous-at :
    (change : PlannedChange) (k : ChangeKind) (previous : Option FilePath) (q : FilePath)
    (fs : Files)
    → LeavesPrevious q previous
    → (drop_previous change k previous fs).0 q ≡ fs q
unfolding drop_previous
drop_previous-at change move none q fs h = refl
drop_previous-at change move (some p) q fs h = elim (Bool-cases (path_eq p change.path)) [
  | inl e ↦ rw (e, drop_previous)
  | inr e ↦ rw (e, drop_previous) (unlink-at p q fs h)
]
drop_previous-at change add previous q fs h = refl
drop_previous-at change delete previous q fs h = refl
drop_previous-at change update previous q fs h = refl

module _ (codec : Codec) where
  open codec use {encode}

  write_change-at :
      (change : PlannedChange) (q : FilePath) (fs : Files)
      → Avoids q change
      → (write_change codec change fs).0 q ≡ fs q
  unfolding write_change
  write_change-at change q fs h =
      continue-at
        (continue (make_dirs (ancestors change.path) fs)
          (write_bytes change.path (encode change.new_text)))
        _ q
        (continue-at (make_dirs (ancestors change.path) fs)
          (write_bytes change.path (encode change.new_text)) q
          (make_dirs-at (ancestors change.path) q fs h.1)
          λ fs' e. write_bytes-at change.path q (encode change.new_text) fs' h.0 ∙ e)
        λ fs' e. drop_previous-at change change.kind change.previous_path q fs' h.2 ∙ e

  dispatch-at :
      (k : ChangeKind) (change : PlannedChange) (q : FilePath) (fs : Files)
      → Avoids q change
      → (dispatch codec k change fs).0 q ≡ fs q
  unfolding dispatch
  dispatch-at delete change q fs h = unlink-at change.path q fs h.0
  dispatch-at add change q fs h = write_change-at change q fs h
  dispatch-at update change q fs h = write_change-at change q fs h
  dispatch-at move change q fs h = write_change-at change q fs h

  -- Applying changes, to the end or up to an error, leaves alone each path that is neither the path
  -- of a change nor the source of its move, and that is no directory on the way to the path of a
  -- change.
  pub apply_changes-frame :
      (changes : List PlannedChange) (q : FilePath) (fs : Files)
      → All (Avoids q) changes
      → (apply_changes codec changes fs).0 q ≡ fs q
  unfolding apply_changes apply_change
  apply_changes-frame [] q fs h = refl
  apply_changes-frame (change ∷ changes) q fs h =
      continue-at (apply_change codec change fs) (apply_changes codec changes) q
        (dispatch-at change.kind change q fs h.0) λ fs' e. apply_changes-frame changes q fs' h.1 ∙ e
