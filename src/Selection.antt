-- ===== src/Selection.antt =====
-- selection/: Bazel's module version selection, a form of Minimal Version Selection.
pub mod Types
pub mod Groups
pub mod Strategies
pub mod Walker
pub mod Run
mod Tests
