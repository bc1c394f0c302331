-- ===== src/Patch/Apply/Success.antt =====
-- A call of `apply_patch` that reports an applied patch.
use chatgpt_web_oauth_mcp.Prelude.{
  ◌≡◌, inl, inr, Bool, true, false, Option, none, some, List, [], ◌∷◌, ok, Text, Result-cases, ap,
}
use chatgpt_web_oauth_mcp.FileSystem.{FilePath, Files, Codec, OsError}
use chatgpt_web_oauth_mcp.FileSystem.Steps.{continue-none}
use chatgpt_web_oauth_mcp.FileSystem.Pathing.{PathLib}
use chatgpt_web_oauth_mcp.Patch.Ops.{PatchOperation, PlannedChange}
use chatgpt_web_oauth_mcp.Patch.Parse.{parse_patch}
use chatgpt_web_oauth_mcp.Patch.Plan.{plan_operation, plan_operations}
use chatgpt_web_oauth_mcp.Patch.Apply.{
  Report, Ending, success, apply_change, apply_changes, ending, commit, plan_patch, apply_patch,
}

-- Change after change turns the first files into the last ones, and none raises.
unfoldable pub Applied : Codec → List PlannedChange → Files → Files → Type 0
Applied codec [] fs fs' = fs ≡ fs'
Applied codec (change ∷ changes) fs fs' =
    (between : Files) × (apply_change codec change fs ≡ (between, none))
    × Applied codec changes between fs'

-- One change for each operation, in their order, each planned on the same files.
unfoldable pub Planned :
    Codec → PathLib → Files → FilePath → List PatchOperation → List PlannedChange → Type 0
Planned codec lib fs root [] [] = Unit {0}
Planned codec lib fs root (operation ∷ operations) (change ∷ changes) =
    (plan_operation codec lib fs root operation ≡ ok change)
    × Planned codec lib fs root operations changes
Planned codec lib fs root _ _ = ⊥

module _ (codec : Codec) where
  commit-success :
      (dry_run validate_only : Bool) (changes : List PlannedChange) (fs : Files) {fs' : Files}
      {report : Report}
      → commit codec dry_run validate_only changes fs ≡ (fs', success report)
      → report.applied ≡ true
      → (report.changes ≡ changes) × (apply_changes codec changes fs ≡ (fs', none))
  unfolding commit
  commit-success true validate_only changes fs h a = cc
  commit-success false true changes fs h a = cc
  commit-success false false changes fs {fs'} {report} h a = go (apply_changes codec changes fs) h
    where
      go :
          (r : Files × Option OsError)
          → ◌≡◌ {A = Files × Ending}
              (
                r.0,
                ending codec (record { changes = changes; applied = true; validated = false }) r.1,
              )
              (fs', success report)
          → (report.changes ≡ changes) × (r ≡ (fs', none))
      go (fs₁, none) e = unfold ending in (cc, cc)
      go (fs₁, some x) e = unfold ending in cc

  apply_changes-Applied :
      (changes : List PlannedChange) (fs : Files) {fs' : Files}
      → apply_changes codec changes fs ≡ (fs', none)
      → Applied codec changes fs fs'
  unfolding apply_changes Applied
  apply_changes-Applied [] fs h = ap (λ r. r.0) h
  apply_changes-Applied (change ∷ changes) fs {fs'} h =
      let (between, g, rest) = continue-none (apply_change codec change fs) _ h in
      (between, g, apply_changes-Applied changes between rest)

  module _ (lib : PathLib) (root : FilePath) (fs : Files) where
    plan_operations-Planned :
        (operations : List PatchOperation) (changes : List PlannedChange)
        → plan_operations codec lib fs root operations ≡ ok changes
        → Planned codec lib fs root operations changes
    unfolding plan_operations Planned
    plan_operations-Planned [] [] h = tt
    plan_operations-Planned [] (c ∷ cs) h = cc
    plan_operations-Planned (operation ∷ operations) changes h =
        elim (Result-cases (plan_operation codec lib fs root operation)) [
          | inr (e, g) ↦ cc (rw (plan_operations, g) at h)
          | inl (c, g) ↦ elim (Result-cases (plan_operations codec lib fs root operations)) [
            | inr (e, k) ↦ cc (rw (plan_operations, g, k) at h)
            | inl (cs, k) ↦
                let same : c ∷ cs ≡ changes = cc (rw (plan_operations, g, k) at h) in
                rw (← same) (g, plan_operations-Planned operations cs k)
          ]
        ]

    module _ (patch : Text) (dry_run validate_only : Bool) where
      -- A call that reports an applied patch has parsed the patch, has planned its changes one for
      -- each operation and each on the files as they were before the call, and has applied every
      -- change to the files that the one before it left, without an error.
      pub apply_patch-success :
          {fs' : Files} {report : Report}
          → apply_patch codec lib patch root dry_run validate_only fs ≡ (fs', success report)
          → report.applied ≡ true
          → (operations : List PatchOperation) × (parse_patch patch ≡ ok operations)
            × Planned codec lib fs root operations report.changes
            × Applied codec report.changes fs fs'
      unfolding apply_patch plan_patch
      apply_patch-success {fs'} {report} h a = elim (Result-cases (parse_patch patch)) [
        | inr (x, p) ↦ cc (rw (plan_patch, p, apply_patch) at h)
        | inl (operations, p) ↦ elim (Result-cases (plan_operations codec lib fs root operations)) [
          | inr (x, g) ↦ cc (rw (plan_patch, p, g, apply_patch) at h)
          | inl (changes, g) ↦
              let (same, done) =
                commit-success dry_run validate_only changes fs
                  (rw (plan_patch, p, g, apply_patch) at h) a in
              (
                operations,
                p,
                plan_operations-Planned operations report.changes (rw same g),
                apply_changes-Applied report.changes fs (rw same done),
              )
        ]
      ]
