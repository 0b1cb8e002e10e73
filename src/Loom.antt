-- ===== src/Loom.antt =====
-- base_model_wrapper/src/wrapper/routes/loom.py: trees of branching text.
pub mod Node
pub mod Walk
pub mod Edit
pub mod Import
pub mod Context
pub mod Split
pub mod Prefix
pub mod Cycles
pub mod Broken
pub mod Imported
pub mod Command
pub mod Guards
pub mod Cut
pub mod Newlines
pub mod Resubmit
pub mod Stack
pub mod Subtree
pub mod Tests
