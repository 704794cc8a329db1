-- ===== src/Rollout.antt =====
-- The parts of src/main.rs that decide on the records of a rollout, cut long outputs and count.
pub mod Chunks
pub mod Tokens
pub mod Analysis
pub mod Evidence
pub mod Stats
pub mod Images
pub mod Summary
pub mod Attachments
pub mod Tests
pub mod ImageTests
pub mod SummaryTests
