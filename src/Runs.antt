-- ===== src/Runs.antt =====
-- packages/base/src/cs_image_system/base/commands/run_scope.py and gate.py: what a run may bake, and
-- what a plan may destroy.
pub mod Scope
pub mod Reach
pub mod Scoped
pub mod Inside
pub mod Gate
pub mod Sanctioned
mod Tests
