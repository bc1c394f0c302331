-- ===== src/Patch.antt =====
-- patching.py: parsing a patch, matching its hunks, planning and applying the changes.
pub mod Ops
pub mod Parse
pub mod Match
pub mod Plan
pub mod Apply
mod Tests
