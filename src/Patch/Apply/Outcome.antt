-- ===== src/Patch/Apply/Outcome.antt =====
-- What a call of `apply_patch` leaves in the files, by how it ends.
use chatgpt_web_oauth_mcp.Prelude.{
  ◌≡◌, ◌≢◌, refl, sym, ap, ◌∙◌, inl, inr, Bool, true, false, ◌||◌, Option, none, some, List,
  Bool-cases, Text, Result-cases,
}
use chatgpt_web_oauth_mcp.FileSystem.{
  FilePath, file, Files, Codec, OsError, continue, path_eq, ancestors, make_dirs, write_bytes,
}
use chatgpt_web_oauth_mcp.FileSystem.Steps.{unlink-at, write_bytes_self, continue-none}
use chatgpt_web_oauth_mcp.FileSystem.Pathing.{PathLib}
use chatgpt_web_oauth_mcp.Patch.Ops.{
  PlannedChange, PatchError, ChangeKind, add, delete, update, move,
}
use chatgpt_web_oauth_mcp.Patch.Apply.{
  Report, failure, drop_previous, write_change, dispatch, apply_change, apply_changes, ending,
  commit, plan_patch, apply_patch,
}

drop_previous-path :
    (change : PlannedChange) (k : ChangeKind) (previous : Option FilePath) (fs : Files)
    → (drop_previous change k previous fs).0 change.path ≡ fs change.path
unfolding drop_previous
drop_previous-path change move none fs = refl
drop_previous-path change move (some p) fs = elim (Bool-cases (path_eq p change.path)) [
  | inl e ↦ rw (e, drop_previous)
  | inr e ↦ rw (e, drop_previous) (unlink-at p change.path fs e)
]
drop_previous-path change add previous fs = refl
drop_previous-path change delete previous fs = refl
drop_previous-path change update previous fs = refl

module _ (codec : Codec) where
  open codec use {encode}

  write_change-path :
      (change : PlannedChange) (fs : Files) {fs' : Files}
      → write_change codec change fs ≡ (fs', none)
      → fs' change.path ≡ some (file (encode change.new_text))
  unfolding write_change
  write_change-path change fs h =
      let (fs₂, e₂, h₂) =
        continue-none
          (continue (make_dirs (ancestors change.path) fs)
            (write_bytes change.path (encode change.new_text)))
          _ h in
      let (fs₁, e₁, h₁) = continue-none (make_dirs (ancestors change.path) fs) _ e₂ in
      ap (λ r. r.0 change.path) (sym h₂)
      ∙ drop_previous-path change change.kind change.previous_path fs₂
      ∙ write_bytes_self change.path (encode change.new_text) fs₁ h₁

  written_by :
      (k : ChangeKind) (change : PlannedChange) (fs : Files) {fs' : Files}
      → k ≢ delete
      → dispatch codec k change fs ≡ (fs', none)
      → fs' change.path ≡ some (file (encode change.new_text))
  unfolding dispatch
  written_by add change fs ne h = write_change-path change fs h
  written_by update change fs ne h = write_change-path change fs h
  written_by move change fs ne h = write_change-path change fs h
  written_by delete change fs ne h = absurd (ne refl)

  -- A change other than a deletion that raised nothing has left the planned text, encoded, at its
  -- path.
  pub apply_change-written :
      (change : PlannedChange) (fs : Files) {fs' : Files}
      → change.kind ≢ delete
      → apply_change codec change fs ≡ (fs', none)
      → fs' change.path ≡ some (file (encode change.new_text))
  unfolding apply_change
  apply_change-written change fs ne h = written_by change.kind change fs ne h

  commit-preview :
      (dry_run validate_only : Bool) (changes : List PlannedChange) (fs : Files)
      → (dry_run || validate_only) ≡ true
      → (commit codec dry_run validate_only changes fs).0 ≡ fs
  unfolding commit
  commit-preview true validate_only changes fs h = refl
  commit-preview false true changes fs h = refl
  commit-preview false false changes fs h = cc

  ending_is_no_failure :
      (report : Report) (o : Option OsError) {e : PatchError} → ending codec report o ≢ failure e
  unfolding ending
  ending_is_no_failure report none = λ q. cc
  ending_is_no_failure report (some x) = λ q. cc

  commit_is_no_failure :
      (dry_run validate_only : Bool) (changes : List PlannedChange) (fs : Files) {e : PatchError}
      → (commit codec dry_run validate_only changes fs).1 ≢ failure e
  unfolding commit
  commit_is_no_failure true validate_only changes fs = λ q. cc
  commit_is_no_failure false true changes fs = λ q. cc
  commit_is_no_failure false false changes fs =
      ending_is_no_failure _ (apply_changes codec changes fs).1

  module _ (lib : PathLib) (patch : Text) (root : FilePath) (dry_run validate_only : Bool)
      (fs : Files) where
    -- A call that ends with a `PatchError` has changed no file: every operation is planned before
    -- the first one is applied.
    pub apply_patch-failure :
        (e : PatchError)
        → (apply_patch codec lib patch root dry_run validate_only fs).1 ≡ failure e
        → (apply_patch codec lib patch root dry_run validate_only fs).0 ≡ fs
    unfolding apply_patch
    apply_patch-failure e h = elim (Result-cases (plan_patch codec lib patch root fs)) [
      | inl (changes, g) ↦
          absurd (commit_is_no_failure dry_run validate_only changes fs (rw (g, apply_patch) at h))
      | inr (x, g) ↦ rw (g, apply_patch)
    ]

    -- A dry run, and a call that validates only, change no file.
    pub apply_patch-preview :
        (dry_run || validate_only) ≡ true
        → (apply_patch codec lib patch root dry_run validate_only fs).0 ≡ fs
    unfolding apply_patch
    apply_patch-preview h = elim (Result-cases (plan_patch codec lib patch root fs)) [
      | inl (changes, g) ↦ rw (g, apply_patch) (commit-preview dry_run validate_only changes fs h)
      | inr (x, g) ↦ rw (g, apply_patch)
    ]
