-- ===== src/Tests.antt =====
-- The theorems at concrete inputs, and runs of the model.
pub mod Containers
pub mod Patterns
pub mod Blocks
pub mod Headers
pub mod Members
pub mod Archive
pub mod Walks
pub mod Readers
pub mod Trees
