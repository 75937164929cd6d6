-- ===== src/Align.antt =====
-- src/align.rs: the alignment check, and the rewrite of the entries section.
pub mod Extra
pub mod Order
pub mod Check
pub mod Inspect
pub mod Window
pub mod Plan
