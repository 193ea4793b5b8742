-- ===== src/Content.antt =====
-- data_manager/validators.py: what fetched bytes must look like before they are cached.
pub mod Checks
pub mod Heads
pub mod Examples
